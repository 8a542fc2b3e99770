-- ===== src/Store/UserRepo.antt =====
-- internal/repository/postgres/user.go, UserRepo: the table users.
use ticketing_backend.Prelude.{
  ℕ, String, Bool, not, ◌&&◌, ◌||◌, none, [], ◌∷◌, ◌++◌, ◌==◌, if◌then◌else◌,
}
use ticketing_backend.Prelude.Texts.{citext_eq}
use ticketing_backend.Domain.{Error, Result, ok, err}
use ticketing_backend.Domain.Accounts.{User, is_consistent}
use ticketing_backend.Sql.{select_first, count_where, update_where}
use ticketing_backend.Store.Action.{
  Db, Action, pure, ◌>>=◌, ◌>>◌, exec, exec_at, or_not_found, with_id,
}

abbrev pub is_user : ℕ → User → Bool
is_user id u = u.id == id

abbrev pub has_email : String → User → Bool
has_email email u = citext_eq u.email email

-- The PRIMARY KEY, and UNIQUE (email)
abbrev pub user_collides : User → User → Bool
user_collides new u = u.id == new.id || has_email new.email u

abbrev pub new_user_row : ℕ → User → User
new_user_row now u = record u { email_verified_at = none; created_at = now }

unfoldable pub insert_user : ℕ → User → Db → Result (Unit {0}) × Db
insert_user now new db =
    if is_consistent new.role new.tenant_id
    then (if count_where (user_collides new) db.users == 0
        then (ok tt, record db { users = db.users ++ new_user_row now new ∷ [] })
        else (err Error.conflict, db))
    else (err Error.other, db)

-- The result is the account with the identifier that the pointer's target has afterwards.
unfoldable pub create : User → Action User
unfolding insert_user
create u = do
  id ← with_id u.id
  exec_at (λ now. insert_user now (record u { id = id }))
  pure (record u { id = id })

unfoldable pub get_by_id : ℕ → Action User
get_by_id id = exec λ db. (or_not_found (select_first (is_user id) db.users), db)

unfoldable pub get_by_email : String → Action User
get_by_email email = exec λ db. (or_not_found (select_first (has_email email) db.users), db)

-- The columns that the UPDATE names: not the role, nor the tenant.
abbrev pub set_profile : User → User → User
set_profile new u = record u {
  email = new.email;
  phone = new.phone;
  password_hash = new.password_hash;
  first_name = new.first_name;
  last_name = new.last_name;
  status = new.status;
  email_verified_at = new.email_verified_at;
}

-- The email of another account; the key is only tested where there is a row to change.
abbrev pub takes_email : User → User → Bool
takes_email new u = has_email new.email u && not (u.id == new.id)

unfoldable pub update_user : User → Db → Result (Unit {0}) × Db
update_user new db =
    if count_where (is_user new.id) db.users == 0
    then (err Error.not_found, db)
    else if count_where (takes_email new) db.users == 0
    then (ok tt, record db { users = update_where (is_user new.id) (set_profile new) db.users })
    else (err Error.conflict, db)

unfoldable pub update : User → Action (Unit {0})
unfolding update_user
update new = exec (update_user new)
