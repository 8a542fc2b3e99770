-- ===== src/Http/Logins.antt =====
-- Replies to a login, and its access token.
use ticketing_backend.Prelude.{
  ℕ, ◌≡◌, ◌⊎◌, inl, inr, refl, arith, String, true, false, none, some, str_eq, Option-cases,
  str_append, ltb,
}
use ticketing_backend.Prelude.Texts.{cut_prefix-append}
use ticketing_backend.Domain.Accounts.{User, is_active}
use ticketing_backend.Sql.{select_first}
use ticketing_backend.Store.UserRepo
use ticketing_backend.Store.UserRepo.{has_email}
use ticketing_backend.Store.Action.{World, Env, next, Db}
use ticketing_backend.Auth.{
  Externals, JwtConfig, Claims, TokenPair, login, normalize_email, claims_of, parse_access_token,
  role_name,
}
use ticketing_backend.Auth.Sessions.{IsIssued}
use ticketing_backend.Http.{fault, Handler}
use ticketing_backend.Http.Gate.{
  Headers, Context, no_context, require_auth, user_id_from_context, role_from_context,
  tenant_id_from_context,
}
use ticketing_backend.Http.Accounts.{Checks, Origin, LoginRequest, login_handler}

-- The email is of no account, or of one that is not active, or the password is not that account's.
abbrev pub IsBadLogin : Externals → LoginRequest → Db → Type 0
IsBadLogin ext req db =
    (select_first (has_email (normalize_email req.email)) db.users ≡ none)
    ⊎ ((user : User) × (select_first (has_email (normalize_email req.email)) db.users ≡ some user)
        × ((is_active user.status ≡ false)
            ⊎ (ext.compare_hash_and_password user.password_hash req.password ≡ false)))

-- Where the lookup of the account does not fail, a valid login request for an unknown email, for
-- an account that is not active, or with a wrong password is answered in one and the same way,
-- 401 invalid-credentials, and changes no table: the reply does not tell which it was.
pub login_uniform :
    (ext : Externals) (checks : Checks) (cfg : JwtConfig) (origin : Origin) (req : LoginRequest)
    (env : Env) (w : World)
    → checks.login req ≡ true
    → env.fails w.tick ≡ false
    → IsBadLogin ext req w.db
    → let done = login_handler ext checks cfg origin (some req) env w in
      (done.0 ≡ fault 401 "invalid-credentials") × (done.1.db ≡ w.db)
unfolding login_handler login UserRepo.get_by_email
login_uniform ext checks cfg origin req env w valid up (inl unknown) = (ground arith, ground arith)
login_uniform ext checks cfg origin req env w valid up (inr (user, found, inl barred)) =
    (ground arith, ground arith)
login_uniform ext checks cfg origin req env w valid up (inr (user, found, inr wrong)) =
    (ground arith, ground arith)

-- A request whose Authorization header carries the token.
abbrev pub bearing : String → String → Headers
bearing token x_tenant_id = record {
  authorization = str_append "Bearer " token;
  x_tenant_id = x_tenant_id;
}

-- jwt parses a token that it signed with the secret back to its claims until they expire.
abbrev pub ParsesSigned : Externals → String → Type 0
ParsesSigned ext secret =
    (c : Claims) (token : String) (now : ℕ)
    → ext.signed_string secret c ≡ some token
    → ltb now c.expires_at ≡ true
    → ext.parse_with_claims secret now token ≡ some (c, true)

module _ (ext : Externals) (cfg : JwtConfig) {B : Type 0} where
  -- RequireAuth lets the request through to the handler, with a context that names the account.
  abbrev pub IsNamed : User → Claims → Headers → (Context → Handler World B) → Env → World → Type 0
  IsNamed user claims headers handler env w =
      let ctx : Context = record { claims = some claims; resolved_tenant = none } in
      (require_auth (parse_access_token ext cfg) headers handler no_context env w
        ≡ handler ctx env (next w))
      × (user_id_from_context ext ctx ≡ some user.id)
      × (role_from_context ctx ≡ some (role_name user.role))
      × (tenant_id_from_context ext ctx ≡ user.tenant_id)

  -- An access token that was issued to an account authenticates a request that bears it before it
  -- expires: RequireAuth calls the handler, and the context gives the account's identifier, role
  -- and tenant. This needs that jwt parses a token that was signed over some claims back to them
  -- while it has not expired, that a token and the text of an identifier are not empty, and that
  -- the text of an identifier is parsed back to it.
  pub access_token_names_user :
      (user : User) (before after : Db) (pair : TokenPair) (x_tenant_id : String)
      (handler : Context → Handler World B) (env : Env) (w : World)
      (issued : IsIssued ext cfg user before after pair)
      → let claims = claims_of ext cfg user issued.issued_at in
        ParsesSigned ext cfg.secret
        → str_eq pair.access_token "" ≡ false
        → ((id : ℕ) → ext.parse_uuid (ext.uuid_string id) ≡ some id)
        → ((id : ℕ) → str_eq (ext.uuid_string id) "" ≡ false)
        → ltb (env.clock w.tick) claims.expires_at ≡ true
        → IsNamed user claims (bearing pair.access_token x_tenant_id) handler env w
  unfolding require_auth parse_access_token user_id_from_context role_from_context
      tenant_id_from_context
  access_token_names_user user before after pair x_tenant_id handler env w issued parses signed
        round text fresh =
      (
        ground (
          arith,
          parses (claims_of ext cfg user issued.issued_at) pair.access_token (env.clock w.tick)
              issued.signed fresh,
          cut_prefix-append "Bearer " pair.access_token,
        ),
        round user.id,
        refl,
        elim (Option-cases user.tenant_id) [
          | inl fan ↦ rw fan refl
          | inr (t, admin) ↦ rw (admin, text t) (round t)
        ],
      )
