-- ===== src/Auth/Sessions.antt =====
-- What Login and RefreshAccessToken hand out, and to whom.
use ticketing_backend.Prelude.{
  ℕ, ◌≡◌, ◌⊎◌, ◌+◌, inl, inr, refl, arith, String, true, none, some, [], ◌∷◌, ◌++◌, ◌==◌,
  Bool-cases, Option-cases,
}
use ticketing_backend.Domain.{Error, Result, ok, err, nil_uuid}
use ticketing_backend.Domain.Accounts.{User, UserStatus, RefreshToken, is_active}
use ticketing_backend.Sql.{count_where, select_first}
use ticketing_backend.Store.Action.{Db, World, Env, exec_at, next}
use ticketing_backend.Store.UserRepo.{has_email, is_user}
use ticketing_backend.Store.UserRepo
use ticketing_backend.Store.TokenRepo.{create, insert_token, token_collides, new_token_row}
use ticketing_backend.Auth.{
  Externals, JwtConfig, TokenPair, claims_of, new_token, issue_token_pair, login, normalize_email,
  hash_token,
}

-- A pair for the user: a signed access token, and a refresh token of which one row was added, live, under its
-- hash, which no row had before.
pub record IsIssued (ext : Externals) (cfg : JwtConfig) (user : User) (before after : Db)
    (pair : TokenPair) : Type 0 where
  pub issued_at : ℕ
  pub row : RefreshToken
  pub signed :
      ext.signed_string cfg.secret (claims_of ext cfg user issued_at) ≡ some pair.access_token
  pub access_expiry : pair.access_token_expires_at ≡ issued_at + cfg.access_ttl
  pub refresh_expiry : pair.refresh_token_expires_at ≡ issued_at + cfg.refresh_ttl
  pub stored : after ≡ record before { refresh_tokens = before.refresh_tokens ++ row ∷ [] }
  pub owner : row.user_id ≡ user.id
  pub hash : row.token_hash ≡ hash_token ext pair.refresh_token
  pub live : row.revoked_at ≡ none
  pub expiry : row.expires_at ≡ pair.refresh_token_expires_at
  pub new : count_where (token_collides row) before.refresh_tokens ≡ 0

abbrev pub IsError : {A : Type 0} → Db → Result A × World → Type 0
IsError before done = (e : Error) × (done.0 ≡ err e) × (done.1.db ≡ before)

IsStored : RefreshToken → Db → Result (Unit {0}) × World → Type 0
IsStored rt before done =
    (id : ℕ) × (now : ℕ) × (done.0 ≡ ok tt)
    × (done.1.db ≡ record before {
      refresh_tokens = before.refresh_tokens ++ new_token_row now (record rt { id = id }) ∷ [];
    })
    × (count_where (token_collides (record rt { id = id })) before.refresh_tokens ≡ 0)

insert_token_outcome :
    (rt : RefreshToken) (id : ℕ) (env : Env) (w : World)
    → let done = exec_at (λ now. insert_token now (record rt { id = id })) env w in
      IsError w.db done ⊎ IsStored rt w.db done
unfolding insert_token IsStored
insert_token_outcome rt id env w = elim (Bool-cases (env.fails w.tick)) [
  | inl down ↦ inl (Error.other, ground arith, ground arith)
  | inr up ↦
      elim (Bool-cases
        (count_where (token_collides (record rt { id = id })) w.db.refresh_tokens == 0)) [
          | inr taken ↦ inl (Error.conflict, ground arith, ground arith)
          | inl new ↦ elim (Bool-cases (count_where (is_user rt.user_id) w.db.users == 0)) [
            | inl gone ↦ inl (Error.other, ground arith, ground arith)
            | inr known ↦ inr (id, env.clock w.tick, ground arith, ground arith, ground arith)
          ]
        ]
]

create_outcome :
    (rt : RefreshToken) (env : Env) (w : World)
    → IsError w.db (create rt env w) ⊎ IsStored rt w.db (create rt env w)
unfolding create
create_outcome rt env w = elim (Bool-cases (rt.id == nil_uuid)) [
  | inl unset ↦ rw unset (insert_token_outcome rt (env.new_uuid w.tick) env (next w))
  | inr set ↦ rw set (insert_token_outcome rt rt.id env w)
]

module _ (ext : Externals) (cfg : JwtConfig) where
  abbrev pub Issues : User → Db → Result TokenPair × World → Type 0
  Issues user before done =
      IsError before done
      ⊎ ((pair : TokenPair) × (done.0 ≡ ok pair) × IsIssued ext cfg user before done.1.db pair)

  pub issue_outcome :
      (user : User) (user_agent ip_address : String) (env : Env) (w : World)
      → Issues user w.db (issue_token_pair ext cfg user user_agent ip_address env w)
  unfolding issue_token_pair IsStored
  issue_outcome user user_agent ip_address env w =
      let t = env.clock w.tick in
      elim (Option-cases (ext.signed_string cfg.secret (claims_of ext cfg user t))) [
        | inl unsigned ↦ inl (Error.other, ground arith, ground arith)
        | inr (access, signed) ↦ elim (Option-cases (ext.rand_read (next w).tick)) [
          | inl dry ↦ inl (Error.other, ground arith, ground arith)
          | inr (bytes, read) ↦
              let rt =
                new_token ext cfg user user_agent ip_address t (ext.encode_to_string bytes)
                  (env.new_uuid (next (next w)).tick) in
              elim (create_outcome rt env (next (next (next w)))) [
                | inl (e, bad, same) ↦ inl (e, ground arith, ground arith)
                | inr (id, stamp, good, table, new) ↦ inr (
                  record {
                    access_token = access;
                    access_token_expires_at = t + cfg.access_ttl;
                    refresh_token = ext.encode_to_string bytes;
                    refresh_token_expires_at = t + cfg.refresh_ttl;
                  },
                  ground arith,
                  record {
                    issued_at = t;
                    row = new_token_row stamp (record rt { id = id });
                    signed = signed;
                    access_expiry = refl;
                    refresh_expiry = refl;
                    stored = ground arith;
                    owner = refl;
                    hash = refl;
                    live = refl;
                    expiry = refl;
                    new = new;
                  },
                )
              ]
        ]
      ]

  -- Login succeeded: for the account of the normalised email, which is active and whose hash fits.
  abbrev pub IsLoggedIn : String → String → Db → Result TokenPair × World → Type 0
  IsLoggedIn email password before done =
      (user : User) × (pair : TokenPair) × (select_first (has_email (normalize_email email))
          before.users
        ≡ some user)
      × (user.status ≡ UserStatus.active)
      × (ext.compare_hash_and_password user.password_hash password ≡ true)
      × (done.0 ≡ ok pair)
      × IsIssued ext cfg user before done.1.db pair

  -- Login changes nothing and returns an error, or the email belongs to an active account whose
  -- hash bcrypt accepts for the password, and the account is given a pair.
  pub login_sound :
      (email password user_agent ip_address : String) (env : Env) (w : World)
      → let done = login ext cfg email password user_agent ip_address env w in
        IsError w.db done ⊎ IsLoggedIn email password w.db done
  unfolding login UserRepo.get_by_email
  login_sound email password user_agent ip_address env w =
      elim (Option-cases (select_first (has_email (normalize_email email)) w.db.users)) [
        | inl unknown ↦ elim (Bool-cases (env.fails w.tick)) [
          | inl down ↦ inl (Error.other, ground arith, ground arith)
          | inr up ↦ inl (Error.invalid_credentials, ground arith, ground arith)
        ]
        | inr (user, found) ↦ elim (Bool-cases (env.fails w.tick)) [
          | inl down ↦ inl (Error.other, ground arith, ground arith)
          | inr up ↦ elim (Bool-cases (is_active user.status)) [
            | inr barred ↦ inl (Error.account_inactive, ground arith, ground arith)
            | inl active ↦
                elim (Bool-cases (ext.compare_hash_and_password user.password_hash password)) [
                  | inr wrong ↦ inl (Error.invalid_credentials, ground arith, ground arith)
                  | inl fits ↦
                      let same : login ext cfg email password user_agent ip_address env w
                          ≡ issue_token_pair ext cfg user user_agent ip_address env (next w) =
                        ground arith in
                      rw same (elim (issue_outcome user user_agent ip_address env (next w)) [
                        | inl bad ↦ inl bad
                        | inr (pair, good, issued) ↦
                            inr (user, pair, found, ground arith, fits, good, issued)
                      ])
                ]
          ]
        ]
      ]
