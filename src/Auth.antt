-- ===== src/Auth.antt =====
-- internal/service/auth/service.go: accounts, logins and the life of a refresh token. The hashes,
-- the signatures and the random bytes are those of other packages, and parameters.
pub mod Registration
pub mod Sessions
pub mod Rotation
pub mod Revocations
use ticketing_backend.Prelude.{
  ℕ, ◌+◌, String, Bool, true, false, Option, none, some, List, ltb, leb, if◌then◌else◌, str_eq,
}
use Prim.Native.String.{len}
use ticketing_backend.Prelude.Texts.{to_lower, trim_space}
use ticketing_backend.Domain.{Error, Result, ok, err}
use ticketing_backend.Domain.Accounts.{User, UserRole, UserStatus, RefreshToken, is_active}
use ticketing_backend.Store.Action.{
  World, Env, Action, pure, fail, guard, ◌>>=◌, ◌>>◌, now, new_uuid, next, or_fail,
}
use ticketing_backend.Store.UserRepo
use ticketing_backend.Store.TokenRepo

-- Claims, with the registered claims that the service sets.
pub record Claims : Type 0 where
  pub subject : String
  pub issued_at : ℕ
  pub expires_at : ℕ
  pub role : String
  pub tenant_id : String

-- config.JWTConfig; the service does not read the secret for refresh tokens.
pub record JwtConfig : Type 0 where
  pub secret : String
  pub refresh_secret : String
  pub access_ttl : ℕ
  pub refresh_ttl : ℕ

pub record TokenPair : Type 0 where
  pub access_token : String
  pub access_token_expires_at : ℕ
  pub refresh_token : String
  pub refresh_token_expires_at : ℕ

-- bcrypt, jwt, crypto/rand, base64, SHA-256 in hexadecimal, and google/uuid. `none` is an error;
-- a tick stands for the salt of a hash and for the random bytes. A parsed token comes with its
-- Valid field.
pub record Externals : Type 0 where
  pub generate_from_password : ℕ → String → Option String
  pub compare_hash_and_password : String → String → Bool
  pub signed_string : String → Claims → Option String
  pub parse_with_claims : String → ℕ → String → Option (Claims × Bool)
  pub numeric_date : ℕ → ℕ
  pub rand_read : ℕ → Option (List ℕ)
  pub encode_to_string : List ℕ → String
  pub sha256_hex : String → String
  pub uuid_string : ℕ → String
  pub parse_uuid : String → Option ℕ

abbrev pub min_password_length : ℕ
min_password_length = 8

unfoldable pub normalize_email : String → String
normalize_email email = to_lower (trim_space email)

-- A call of another package, whose answer depends on the instant.
abbrev pub consult : {A : Type 0} → (ℕ → Option A) → Action A
consult f env w = or_fail (f w.tick) Error.other env (next w)

abbrev hide_error : Error → Error
hide_error Error.not_found = Error.invalid_credentials
hide_error e = e

abbrev hidden : {A : Type 0} → Result A → Result A
hidden (ok a) = ok a
hidden (err e) = err (hide_error e)

-- A lookup whose ErrNotFound becomes ErrInvalidCredentials.
abbrev pub hide_not_found : {A : Type 0} → Action A → Action A
hide_not_found m env w = let (r, w') = m env w in (hidden r, w')

-- string(user.Role)
abbrev pub role_name : UserRole → String
role_name UserRole.fan = "fan"
role_name UserRole.admin = "admin"

module _ (ext : Externals) where
  abbrev pub hash_password : String → Action String
  hash_password password = consult (λ tick. ext.generate_from_password tick password)

  abbrev pub hash_token : String → String
  hash_token = ext.sha256_hex

  abbrev pub generate_refresh_token : Action String
  generate_refresh_token = do bytes ← consult ext.rand_read; pure (ext.encode_to_string bytes)

  abbrev pub new_account : UserRole → Option ℕ → String → String → String → String → ℕ → User
  new_account role tenant_id email hash first_name last_name id = record {
    id = id;
    email = email;
    phone = "";
    password_hash = hash;
    first_name = first_name;
    last_name = last_name;
    status = UserStatus.active;
    role = role;
    tenant_id = tenant_id;
    email_verified_at = none;
    created_at = 0;
  }

  abbrev store_account : UserRole → Option ℕ → String → String → String → String → Action User
  store_account role tenant_id email password first_name last_name = do
    hash ← hash_password password
    id ← new_uuid
    user ← UserRepo.create (new_account role tenant_id email hash first_name last_name id)
    pure (record user { password_hash = "" })

  -- The body that Register and RegisterAdmin have in common.
  unfoldable pub create_account :
      UserRole → Option ℕ → String → String → String → String → Action User
  create_account role tenant_id email password first_name last_name =
      if ltb (len password) min_password_length
      then fail Error.weak_password
      else store_account role tenant_id (normalize_email email) password first_name last_name

  -- Register
  unfoldable pub register : String → String → String → String → Action User
  unfolding create_account
  register = create_account UserRole.fan none

  -- RegisterAdmin
  unfoldable pub register_admin : ℕ → String → String → String → String → Action User
  unfolding create_account
  register_admin tenant_id = create_account UserRole.admin (some tenant_id)

  abbrev tenant_claim : Option ℕ → String
  tenant_claim none = ""
  tenant_claim (some t) = ext.uuid_string t

  -- ParseAccessToken
  unfoldable pub parse_access_token : JwtConfig → String → Action Claims
  parse_access_token cfg token = do
    t ← now
    (claims, valid) ← or_fail (ext.parse_with_claims cfg.secret t token) Error.other
    guard valid Error.other
    pure claims

  module _ (cfg : JwtConfig) where
    abbrev pub claims_of : User → ℕ → Claims
    claims_of user t = record {
      subject = ext.uuid_string user.id;
      issued_at = ext.numeric_date t;
      expires_at = ext.numeric_date (t + cfg.access_ttl);
      role = role_name user.role;
      tenant_id = tenant_claim user.tenant_id;
    }

    abbrev pub new_token : User → String → String → ℕ → String → ℕ → RefreshToken
    new_token user user_agent ip_address t raw id = record {
      id = id;
      user_id = user.id;
      token_hash = hash_token raw;
      user_agent = user_agent;
      ip_address = ip_address;
      expires_at = t + cfg.refresh_ttl;
      revoked_at = none;
      created_at = 0;
    }

    -- issueTokenPair
    unfoldable pub issue_token_pair : User → String → String → Action TokenPair
    issue_token_pair user user_agent ip_address = do
      t ← now
      access ← or_fail (ext.signed_string cfg.secret (claims_of user t)) Error.other
      raw ← generate_refresh_token
      id ← new_uuid
      TokenRepo.create (new_token user user_agent ip_address t raw id)
      pure (record {
        access_token = access;
        access_token_expires_at = t + cfg.access_ttl;
        refresh_token = raw;
        refresh_token_expires_at = t + cfg.refresh_ttl;
      })

    -- Login
    unfoldable pub login : String → String → String → String → Action TokenPair
    unfolding issue_token_pair
    login email password user_agent ip_address = do
      user ← hide_not_found (UserRepo.get_by_email (normalize_email email))
      guard (is_active user.status) Error.account_inactive
      guard (ext.compare_hash_and_password user.password_hash password) Error.invalid_credentials
      issue_token_pair user user_agent ip_address

    -- RefreshAccessToken
    unfoldable pub refresh_access_token : String → String → String → Action TokenPair
    unfolding issue_token_pair
    refresh_access_token raw_token user_agent ip_address = do
      stored ← hide_not_found (TokenRepo.get_by_token_hash (hash_token raw_token))
      guard (TokenRepo.is_live stored.revoked_at) Error.refresh_revoked
      t ← now
      guard (leb t stored.expires_at) Error.refresh_expired
      user ← UserRepo.get_by_id stored.user_id
      guard (is_active user.status) Error.account_inactive
      TokenRepo.revoke stored.id
      issue_token_pair user user_agent ip_address

  abbrev revoke_found : Result RefreshToken → Action (Unit {0})
  revoke_found (err Error.not_found) = pure tt
  revoke_found (err e) = fail e
  revoke_found (ok stored) =
      if TokenRepo.is_live stored.revoked_at then TokenRepo.revoke stored.id else pure tt

  -- Logout
  unfoldable pub logout : String → Action (Unit {0})
  logout raw_token env w =
      let (r, w') = TokenRepo.get_by_token_hash (hash_token raw_token) env w in
      revoke_found r env w'
