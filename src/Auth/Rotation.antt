-- ===== src/Auth/Rotation.antt =====
-- RefreshAccessToken: the token that is presented is spent, and what it is exchanged for.
use ticketing_backend.Prelude.{
  ℕ, ◌≡◌, ◌⊎◌, ◌≤◌, inl, inr, refl, subst, arith, String, false, none, some, [], ◌∷◌, ◌==◌, ◌&&◌,
  Bool-cases, Option-cases, if◌then◌else◌, leb,
}
use ticketing_backend.Domain.{Error, Result, ok, err}
use ticketing_backend.Domain.Accounts.{User, UserStatus, RefreshToken, is_active}
use ticketing_backend.Sql.{count_where, select_first}
use ticketing_backend.Sql.Laws.{update-none, select-update, select-append_some}
use ticketing_backend.Store.Action.{Db, World, Env, Action, guard, ◌>>◌, ◌>>=◌, next}
use ticketing_backend.Store.UserRepo.{has_email, is_user}
use ticketing_backend.Store.UserRepo
use ticketing_backend.Store.TokenRepo
use ticketing_backend.Store.TokenRepo.{is_live, is_token, revoke_row, set_revoked, has_hash, revoke}
use ticketing_backend.Auth.{
  Externals, JwtConfig, TokenPair, issue_token_pair, refresh_access_token, hash_token,
}
use ticketing_backend.Auth.Sessions.{IsError, IsIssued, Issues, issue_outcome}

-- The token's row was revoked at the instant `now`, and nothing else changed.
abbrev pub spent : ℕ → RefreshToken → Db → Db
spent now token db = record db { refresh_tokens = (revoke_row now token.id db.refresh_tokens).1 }

revoke_outcome :
    (token : RefreshToken) (env : Env) (w : World)
    → IsError w.db (revoke token.id env w)
      ⊎ (((revoke token.id env w).0 ≡ ok tt)
          × ((revoke token.id env w).1
              ≡ record w { db = spent (env.clock w.tick) token w.db; tick = (next w).tick }))
unfolding revoke revoke_row
revoke_outcome token env w =
    let clause = λ (rt : RefreshToken). is_token token.id rt && is_live rt.revoked_at in
    let same = update-none clause (set_revoked (env.clock w.tick)) w.db.refresh_tokens in
    elim (Bool-cases (env.fails w.tick)) [
      | inl down ↦ inl (Error.other, ground arith, ground arith)
      | inr up ↦ elim (Bool-cases (count_where clause w.db.refresh_tokens == 0)) [
        | inl gone ↦ inl (Error.not_found, ground arith, ground (arith, same))
        | inr there ↦ inr (ground arith, ground arith)
      ]
    ]

-- The token was revoked: it is refused, and nothing changes.
abbrev pub IsSpent : Env → World → Result TokenPair × World → Type 0
IsSpent env w again =
    (again.0 ≡ err (if env.fails w.tick then Error.other else Error.refresh_revoked))
    × (again.1.db ≡ w.db)

module _ (ext : Externals) (cfg : JwtConfig) where
  -- The presented token is stored, not revoked and not expired at the instant, and its account is
  -- active.
  abbrev pub IsGood : String → Db → ℕ → RefreshToken → User → Type 0
  IsGood raw_token db t token user =
      (select_first (has_hash (hash_token ext raw_token)) db.refresh_tokens ≡ some token)
      × (token.revoked_at ≡ none)
      × (t ≤ token.expires_at)
      × (select_first (is_user token.user_id) db.users ≡ some user)
      × (user.status ≡ UserStatus.active)

  -- A pair was asked for with the token already spent.
  abbrev pub IsExchanged : String → ℕ → Db → Result TokenPair × World → Type 0
  IsExchanged raw_token t before done =
      (token : RefreshToken) × (user : User) × (now : ℕ) × IsGood raw_token before t token user
      × Issues ext cfg user (spent now token before) done

  abbrev exchange : RefreshToken → String → String → Action TokenPair
  exchange token user_agent ip_address = do
    user ← UserRepo.get_by_id token.user_id
    guard (is_active user.status) Error.account_inactive
    revoke token.id
    issue_token_pair ext cfg user user_agent ip_address

  abbrev IsExchangeOf : RefreshToken → Db → Result TokenPair × World → Type 0
  IsExchangeOf token before done =
      (user : User) × (now : ℕ) × (select_first (is_user token.user_id) before.users ≡ some user)
      × (user.status ≡ UserStatus.active)
      × Issues ext cfg user (spent now token before) done

  exchange_outcome :
      (token : RefreshToken) (user_agent ip_address : String) (env : Env) (w : World)
      → let done = exchange token user_agent ip_address env w in
        IsError w.db done ⊎ IsExchangeOf token w.db done
  unfolding UserRepo.get_by_id
  exchange_outcome token user_agent ip_address env w =
      elim (Option-cases (select_first (is_user token.user_id) w.db.users)) [
        | inl unknown ↦ elim (Bool-cases (env.fails w.tick)) [
          | inl down ↦ inl (Error.other, ground arith, ground arith)
          | inr up ↦ inl (Error.not_found, ground arith, ground arith)
        ]
        | inr (user, found) ↦ elim (Bool-cases (env.fails w.tick)) [
          | inl down ↦ inl (Error.other, ground arith, ground arith)
          | inr up ↦ elim (Bool-cases (is_active user.status)) [
            | inr barred ↦ inl (Error.account_inactive, ground arith, ground arith)
            | inl active ↦ elim (revoke_outcome token env (next w)) [
              | inl (e, bad, kept) ↦ inl (e, ground arith, ground arith)
              | inr (good, left) ↦
                  let now = env.clock (next w).tick in
                  let w' : World = record w {
                    db = spent now token w.db;
                    tick = (next (next w)).tick;
                  } in
                  let same : exchange token user_agent ip_address env w
                      ≡ issue_token_pair ext cfg user user_agent ip_address env w' =
                    ground arith in
                  inr (
                    user,
                    now,
                    found,
                    ground arith,
                    rw same (issue_outcome ext cfg user user_agent ip_address env w'),
                  )
            ]
          ]
        ]
      ]

  -- RefreshAccessToken either changes nothing and returns an error, or the token is good, is
  -- revoked, and a pair is issued to its account or an error returned.
  pub refresh_outcome :
      (raw_token user_agent ip_address : String) (env : Env) (w : World)
      → let done = refresh_access_token ext cfg raw_token user_agent ip_address env w in
        IsError w.db done ⊎ IsExchanged raw_token (env.clock (next w).tick) w.db done
  unfolding refresh_access_token TokenRepo.get_by_token_hash UserRepo.get_by_id
  refresh_outcome raw_token user_agent ip_address env w =
      elim (Option-cases (select_first (has_hash (hash_token ext raw_token)) w.db.refresh_tokens)) [
        | inl unknown ↦ elim (Bool-cases (env.fails w.tick)) [
          | inl down ↦ inl (Error.other, ground arith, ground arith)
          | inr up ↦ inl (Error.invalid_credentials, ground arith, ground arith)
        ]
        | inr (token, found) ↦ elim (Bool-cases (env.fails w.tick)) [
          | inl down ↦ inl (Error.other, ground arith, ground arith)
          | inr up ↦ elim (Bool-cases (is_live token.revoked_at)) [
            | inr dead ↦ inl (Error.refresh_revoked, ground arith, ground arith)
            | inl live ↦ elim (Bool-cases (leb (env.clock (next w).tick) token.expires_at)) [
              | inr late ↦ inl (Error.refresh_expired, ground arith, ground arith)
              | inl due ↦
                  let same : refresh_access_token ext cfg raw_token user_agent ip_address env w
                      ≡ exchange token user_agent ip_address env (next (next w)) =
                    ground arith in
                  rw same (elim (exchange_outcome token user_agent ip_address env (next (next w))) [
                    | inl bad ↦ inl bad
                    | inr (user, now, known, active, issues) ↦ inr (
                      token,
                      user,
                      now,
                      (found, ground arith, ground arith, known, active),
                      issues,
                    )
                  ])
            ]
          ]
        ]
      ]

  -- The exchange succeeded: the token was good and its row is revoked now, and a pair was issued
  -- to its account.
  abbrev pub IsRotated : String → ℕ → Db → Db → TokenPair → Type 0
  IsRotated raw_token t before after pair =
      (token : RefreshToken) × (user : User) × (now : ℕ) × IsGood raw_token before t token user
      × (select_first (has_hash (hash_token ext raw_token)) after.refresh_tokens
          ≡ some (set_revoked now token))
      × IsIssued ext cfg user (spent now token before) after pair

  spent_found :
      (raw_token : String) (db : Db) (t now : ℕ) (token : RefreshToken) (user : User)
      → IsGood raw_token db t token user
      → select_first (has_hash (hash_token ext raw_token)) (spent now token db).refresh_tokens
        ≡ some (set_revoked now token)
  unfolding revoke_row
  spent_found raw_token db t now token user good = ground (
    arith,
    good.0,
    good.1,
    select-update (has_hash (hash_token ext raw_token))
        (λ rt. is_token token.id rt && is_live rt.revoked_at) (set_revoked now) db.refresh_tokens
        (λ rt. refl),
  )

  IsFound-after :
      (raw_token : String) (db : Db) {after : Db} (t now : ℕ) (token : RefreshToken) (user : User)
      {pair : TokenPair}
      → IsGood raw_token db t token user
      → IsIssued ext cfg user (spent now token db) after pair
      → select_first (has_hash (hash_token ext raw_token)) after.refresh_tokens
        ≡ some (set_revoked now token)
  IsFound-after raw_token db {after} t now token user good issued = rw issued.stored (
      select-append_some (has_hash (hash_token ext raw_token)) (spent now token db).refresh_tokens
        (issued.row ∷ []) (spent_found raw_token db t now token user good))

  -- A token whose row is revoked is refused.
  refresh_again :
      (raw_token user_agent ip_address : String) (env : Env) (w : World) (token : RefreshToken)
      → select_first (has_hash (hash_token ext raw_token)) w.db.refresh_tokens ≡ some token
      → is_live token.revoked_at ≡ false
      → IsSpent env w (refresh_access_token ext cfg raw_token user_agent ip_address env w)
  unfolding refresh_access_token TokenRepo.get_by_token_hash
  refresh_again raw_token user_agent ip_address env w token found dead =
      (ground arith, ground arith)

  -- If RefreshAccessToken returns a pair, then the presented token was stored, not revoked and
  -- not expired at the instant that the clock showed after it was read, its account was active, the token's row is revoked afterwards, and the pair is
  -- one issued to that account. On the tables that it leaves, RefreshAccessToken with the same
  -- token changes nothing and fails, with ErrRefreshRevoked unless its first statement fails.
  pub refresh_rotates :
      (raw_token user_agent ip_address : String) (env : Env) (w : World) (pair : TokenPair)
      (user_agent' ip_address' : String) (env' : Env) (later : World)
      → (refresh_access_token ext cfg raw_token user_agent ip_address env w).0 ≡ ok pair
      → let after = (refresh_access_token ext cfg raw_token user_agent ip_address env w).1.db in
        IsRotated raw_token (env.clock (next w).tick) w.db after pair
        × (let w' : World = record later { db = after } in
            IsSpent env' w'
              (refresh_access_token ext cfg raw_token user_agent' ip_address' env' w'))
  refresh_rotates raw_token user_agent ip_address env w pair user_agent' ip_address' env' later h =
      elim (refresh_outcome raw_token user_agent ip_address env w) [
        | inl (e, bad, kept) ↦ absurd (ground arith)
        | inr (token, user, now, good, inl (e, bad, kept)) ↦ absurd (ground arith)
        | inr (token, user, now, good, inr (pair', done, issued)) ↦
            let same : pair' ≡ pair = ground arith in
            let kept =
              IsFound-after raw_token w.db (env.clock (next w).tick) now token user good issued in
            (
              (
                token,
                user,
                now,
                good,
                kept,
                subst (IsIssued ext cfg user (spent now token w.db) _) same issued,
              ),
              refresh_again raw_token user_agent' ip_address' env'
                  (record later {
                    db = (refresh_access_token ext cfg raw_token user_agent ip_address env w).1.db;
                  })
                  (set_revoked now token) kept refl,
            )
      ]
