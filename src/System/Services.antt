-- ===== src/System/Services.antt =====
-- The methods of the auth service as histories of statements on event_seat_inventory.
use ticketing_backend.Prelude.{
  ℕ, ◌+◌, ◌≡◌, refl, inl, inr, arith, String, Option, Bool-cases, ltb, leb,
}
use ticketing_backend.Domain.{Error, ok}
use ticketing_backend.Domain.Accounts.{User, UserRole, is_active}
use ticketing_backend.Store.TokenRepo
use Prim.Native.String.{len}
use ticketing_backend.Store.Action.{World, Env, Action, now, new_uuid}
use ticketing_backend.Auth.{
  Externals, JwtConfig, create_account, issue_token_pair, login, refresh_access_token, logout,
  parse_access_token, hide_not_found, hash_password, generate_refresh_token, hash_token, claims_of,
  new_token, new_account, normalize_email, min_password_length,
}
use ticketing_backend.System.Histories.{
  Sends, quietly, bind-Sends, end-Sends, guard-Sends, or_fail-Sends, inventory_of,
}
use ticketing_backend.System.Statements.{
  create_user-Sends, get_user-Sends, get_by_email-Sends, create_token-Sends,
  get_by_token_hash-Sends, revoke-Sends,
}

-- What only asks the clock, the generator of identifiers or another package.
abbrev pub asks :
    {A : Type 0} {m : Action A}
    → ((env : Env) (w : World) → (m env w).1.db.inventory ≡ w.db.inventory)
    → Sends inventory_of m
asks = quietly inventory_of

module _ (ext : Externals) where
  hide-Sends :
      {A : Type 0} {m : Action A} → Sends inventory_of m → Sends inventory_of (hide_not_found m)
  hide-Sends h = record { sends = λ env w. h.sends env w }

  pub create_account-Sends :
      (role : UserRole) (tenant : Option ℕ) (email password first_name last_name : String)
      → Sends inventory_of (create_account ext role tenant email password first_name last_name)
  unfolding create_account
  create_account-Sends role tenant email password first_name last_name =
      elim (Bool-cases (ltb (len password) min_password_length)) [
        | inl short ↦ rw short (end-Sends inventory_of _)
        | inr long ↦ rw long (
            bind-Sends inventory_of (asks {m = hash_password ext password} λ env w. ground arith)
              λ hash. bind-Sends inventory_of (asks {m = new_uuid} λ env w. refl) λ id.
                bind-Sends inventory_of
                  (create_user-Sends (
                    new_account ext role tenant (normalize_email email) hash first_name last_name
                      id))
                  λ user. end-Sends inventory_of (ok (record user { password_hash = "" })))
      ]

  pub parse-Sends :
      (cfg : JwtConfig) (token : String) → Sends inventory_of (parse_access_token ext cfg token)
  unfolding parse_access_token
  parse-Sends cfg token = quietly inventory_of λ env w. ground arith

  pub issue-Sends :
      (cfg : JwtConfig) (user : User) (agent ip : String)
      → Sends inventory_of (issue_token_pair ext cfg user agent ip)
  unfolding issue_token_pair
  issue-Sends cfg user agent ip = bind-Sends inventory_of (asks {m = now} λ env w. refl) λ t.
      bind-Sends inventory_of
        (or_fail-Sends (ext.signed_string cfg.secret (claims_of ext cfg user t)) Error.other)
        λ access.
          bind-Sends inventory_of (asks {m = generate_refresh_token ext} λ env w. ground arith)
            λ raw. bind-Sends inventory_of (asks {m = new_uuid} λ env w. refl) λ id.
              bind-Sends inventory_of
                (create_token-Sends (new_token ext cfg user agent ip t raw id))
                λ _. end-Sends inventory_of (
                  ok (record {
                    access_token = access;
                    access_token_expires_at = t + cfg.access_ttl;
                    refresh_token = raw;
                    refresh_token_expires_at = t + cfg.refresh_ttl;
                  }))

  pub login-Sends :
      (cfg : JwtConfig) (email password agent ip : String)
      → Sends inventory_of (login ext cfg email password agent ip)
  unfolding login
  login-Sends cfg email password agent ip =
      bind-Sends inventory_of (hide-Sends (get_by_email-Sends (normalize_email email))) λ user.
        bind-Sends inventory_of (guard-Sends (is_active user.status) Error.account_inactive) λ _.
          bind-Sends inventory_of
            (guard-Sends (ext.compare_hash_and_password user.password_hash password)
              Error.invalid_credentials)
            λ _. issue-Sends cfg user agent ip

  pub refresh-Sends :
      (cfg : JwtConfig) (raw agent ip : String)
      → Sends inventory_of (refresh_access_token ext cfg raw agent ip)
  unfolding refresh_access_token
  refresh-Sends cfg raw agent ip =
      bind-Sends inventory_of (hide-Sends (get_by_token_hash-Sends (hash_token ext raw))) λ stored.
        bind-Sends inventory_of
          (guard-Sends (TokenRepo.is_live stored.revoked_at) Error.refresh_revoked)
          λ _. bind-Sends inventory_of (asks {m = now} λ env w. refl) λ t.
            bind-Sends inventory_of (guard-Sends (leb t stored.expires_at) Error.refresh_expired)
              λ _. bind-Sends inventory_of (get_user-Sends stored.user_id) λ user.
                bind-Sends inventory_of (guard-Sends (is_active user.status) Error.account_inactive)
                  λ _.
                    bind-Sends inventory_of (revoke-Sends stored.id)
                      λ _. issue-Sends cfg user agent ip

  pub logout-Sends : (raw : String) → Sends inventory_of (logout ext raw)
  unfolding logout TokenRepo.get_by_token_hash TokenRepo.revoke
  logout-Sends raw = quietly inventory_of λ env w. ground arith
