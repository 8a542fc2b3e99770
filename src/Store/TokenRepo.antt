-- ===== src/Store/TokenRepo.antt =====
-- internal/repository/postgres/user.go, RefreshTokenRepo: the table refresh_tokens.
use ticketing_backend.Prelude.{
  ℕ, String, Bool, true, false, ◌&&◌, ◌||◌, Option, none, some, List, [], ◌∷◌, ◌++◌, ◌==◌,
  if◌then◌else◌, str_eq,
}
use ticketing_backend.Domain.{Error, Result, ok, err}
use ticketing_backend.Domain.Accounts.{RefreshToken}
use ticketing_backend.Sql.{select_first, count_where, update_where}
use ticketing_backend.Store.UserRepo.{is_user}
use ticketing_backend.Store.Action.{Db, Action, ◌>>=◌, exec, exec_at, or_not_found, with_id}

abbrev pub has_hash : String → RefreshToken → Bool
has_hash token_hash rt = str_eq rt.token_hash token_hash

-- The PRIMARY KEY, and UNIQUE (token_hash)
abbrev pub token_collides : RefreshToken → RefreshToken → Bool
token_collides new rt = rt.id == new.id || has_hash new.token_hash rt

abbrev pub new_token_row : ℕ → RefreshToken → RefreshToken
new_token_row now rt = record rt { revoked_at = none; created_at = now }

-- A foreign key to users stands behind the last test.
unfoldable pub insert_token : ℕ → RefreshToken → Db → Result (Unit {0}) × Db
insert_token now new db =
    if count_where (token_collides new) db.refresh_tokens == 0
    then (if count_where (is_user new.user_id) db.users == 0 then (err Error.other, db) else (
      ok tt,
      record db { refresh_tokens = db.refresh_tokens ++ new_token_row now new ∷ [] },
    ))
    else (err Error.conflict, db)

unfoldable pub create : RefreshToken → Action (Unit {0})
unfolding insert_token
create rt = do id ← with_id rt.id; exec_at (λ now. insert_token now (record rt { id = id }))

unfoldable pub get_by_token_hash : String → Action RefreshToken
get_by_token_hash token_hash =
    exec λ db. (or_not_found (select_first (has_hash token_hash) db.refresh_tokens), db)

abbrev pub is_live : Option ℕ → Bool
is_live none = true
is_live (some t) = false

abbrev pub is_token : ℕ → RefreshToken → Bool
is_token id rt = rt.id == id

abbrev pub set_revoked : ℕ → RefreshToken → RefreshToken
set_revoked now rt = record rt { revoked_at = some now }

-- UPDATE … WHERE id = $1 AND revoked_at IS NULL: whether a row was affected, and the table.
unfoldable pub revoke_row : ℕ → ℕ → List RefreshToken → Bool × List RefreshToken
revoke_row now id rows =
    let clause = λ (rt : RefreshToken). is_token id rt && is_live rt.revoked_at in
    (
      (if count_where clause rows == 0 then false else true),
      update_where clause (set_revoked now) rows,
    )

unfoldable pub revoke : ℕ → Action (Unit {0})
unfolding revoke_row
revoke id = exec_at λ now db.
    let (affected, rows) = revoke_row now id db.refresh_tokens in
    (if affected then ok tt else err Error.not_found, record db { refresh_tokens = rows })

unfoldable pub revoke_user_rows : ℕ → ℕ → List RefreshToken → List RefreshToken
revoke_user_rows now user_id rows =
    update_where (λ rt. rt.user_id == user_id && is_live rt.revoked_at) (set_revoked now) rows

unfoldable pub revoke_all_for_user : ℕ → Action (Unit {0})
unfolding revoke_user_rows
revoke_all_for_user user_id =
    exec_at λ now db.
      (ok tt, record db { refresh_tokens = revoke_user_rows now user_id db.refresh_tokens })
