-- ===== src/Auth/Registration.antt =====
-- Which accounts Register and RegisterAdmin make.
use ticketing_backend.Prelude.{
  ℕ, ◌≡◌, ◌⊎◌, ◌≤◌, inl, inr, refl, arith, String, Option, none, some, [], ◌∷◌, ◌++◌, ◌==◌,
  Bool-cases, Option-cases, ltb,
}
use Prim.Native.String.{len}
use ticketing_backend.Domain.{Error, Result, ok, err, nil_uuid}
use ticketing_backend.Domain.Accounts.{User, UserRole, UserStatus, is_consistent}
use ticketing_backend.Sql.{count_where}
use ticketing_backend.Store.Action.{Db, World, Env, pure, ◌>>◌, exec_at, next}
use ticketing_backend.Store.UserRepo.{create, insert_user, user_collides, new_user_row}
use ticketing_backend.Auth.{
  Externals, create_account, register, register_admin, normalize_email, new_account,
}

-- One account was added to the tables, and it is the result, without its hash.
abbrev pub IsAccount :
    Externals → UserRole → Option ℕ → String → String → Db → Result User × World → Type 0
IsAccount ext role tenant_id email password before done =
    (row : User) × (done.0 ≡ ok (record row { password_hash = ""; created_at = 0 }))
    × (done.1.db ≡ record before { users = before.users ++ row ∷ [] })
    × (row.email ≡ normalize_email email)
    × (row.role ≡ role)
    × (row.tenant_id ≡ tenant_id)
    × (row.status ≡ UserStatus.active)
    × (8 ≤ len password)
    × ((tick : ℕ) × (ext.generate_from_password tick password ≡ some row.password_hash))
    × (count_where (user_collides row) before.users ≡ 0)

abbrev pub IsRefused : Db → Result User × World → Type 0
IsRefused before done = (e : Error) × (done.0 ≡ err e) × (done.1.db ≡ before)

-- What UserRepo.Create does.
IsInserted : User → Db → Result User × World → Type 0
IsInserted u before done =
    (id : ℕ) × (now : ℕ) × (done.0 ≡ ok (record u { id = id }))
    × (done.1.db
        ≡ record before { users = before.users ++ new_user_row now (record u { id = id }) ∷ [] })
    × (count_where (user_collides (record u { id = id })) before.users ≡ 0)

insert_user_outcome :
    (u : User) (id : ℕ) (env : Env) (w : World)
    → let done =
        (exec_at (λ now. insert_user now (record u { id = id })) >> pure (record u { id = id })) env
          w in
      IsInserted u w.db done ⊎ IsRefused w.db done
unfolding insert_user IsInserted
insert_user_outcome u id env w = elim (Bool-cases (env.fails w.tick)) [
  | inl down ↦ inr (Error.other, ground arith, ground arith)
  | inr up ↦ elim (Bool-cases (is_consistent u.role u.tenant_id)) [
    | inr mixed ↦ inr (Error.other, ground arith, ground arith)
    | inl fits ↦
        elim (Bool-cases (count_where (user_collides (record u { id = id })) w.db.users == 0)) [
          | inr taken ↦ inr (Error.conflict, ground arith, ground arith)
          | inl new ↦ inl (id, env.clock w.tick, ground arith, ground arith, ground arith)
        ]
  ]
]

create_outcome :
    (u : User) (env : Env) (w : World)
    → IsInserted u w.db (create u env w) ⊎ IsRefused w.db (create u env w)
unfolding create
create_outcome u env w = elim (Bool-cases (u.id == nil_uuid)) [
  | inl unset ↦ rw unset (insert_user_outcome u (env.new_uuid w.tick) env (next w))
  | inr set ↦ rw set (insert_user_outcome u u.id env w)
]

create_account_outcome :
    (ext : Externals) (role : UserRole) (tenant_id : Option ℕ)
    (email password first_name last_name : String) (env : Env) (w : World)
    → let done = create_account ext role tenant_id email password first_name last_name env w in
      IsAccount ext role tenant_id email password w.db done ⊎ IsRefused w.db done
unfolding create_account IsInserted
create_account_outcome ext role tenant_id email password first_name last_name env w =
    elim (Bool-cases (ltb (len password) 8)) [
      | inl short ↦ inr (Error.weak_password, ground arith, ground arith)
      | inr long ↦ elim (Option-cases (ext.generate_from_password w.tick password)) [
        | inl unhashed ↦ inr (Error.other, ground arith, ground arith)
        | inr (hash, hashed) ↦
            let u =
              new_account ext role tenant_id (normalize_email email) hash first_name last_name
                (env.new_uuid (next w).tick) in
            elim (create_outcome u env (next (next w))) [
              | inr (e, bad, same) ↦ inr (e, ground arith, ground arith)
              | inl (id, now, good, table, new) ↦ inl (
                new_user_row now (record u { id = id }),
                ground arith,
                ground arith,
                refl,
                refl,
                refl,
                refl,
                ground arith,
                (w.tick, hashed),
                new,
              )
            ]
      ]
    ]

-- Register, the public endpoint's method, and RegisterAdmin either return an error and leave the
-- tables as they were, or add one account and nothing else: under the normalised email, which no
-- account had up to case, active, with a bcrypt hash of a password of at least 8 bytes, a fan
-- without a tenant for the first and an admin of the given tenant for the second. The account
-- that they return has no hash.
pub registration :
    (ext : Externals) (t : ℕ) (email password first_name last_name : String) (env : Env) (w : World)
    → (let done = register ext email password first_name last_name env w in
        IsAccount ext UserRole.fan none email password w.db done ⊎ IsRefused w.db done)
      × (let done = register_admin ext t email password first_name last_name env w in
          IsAccount ext UserRole.admin (some t) email password w.db done ⊎ IsRefused w.db done)
unfolding register register_admin
registration ext t email password first_name last_name env w = (
  create_account_outcome ext UserRole.fan none email password first_name last_name env w,
  create_account_outcome ext UserRole.admin (some t) email password first_name last_name env w,
)
