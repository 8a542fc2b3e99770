-- ===== src/Http/Accounts.antt =====
-- internal/handler/http/auth.go: registration, login, refresh, logout, /me and the bootstrap of a
-- tenant's first admin.
use ticketing_backend.Prelude.{ℕ, String, Bool, not, Option, none, some, if◌then◌else◌, str_eq}
use ticketing_backend.Prelude.Texts.{cut, trim_space}
use ticketing_backend.Domain.{Error}
use ticketing_backend.Domain.Accounts.{User}
use ticketing_backend.Store.Action.{World}
use ticketing_backend.Auth.{
  Externals, JwtConfig, TokenPair, register, register_admin, login, refresh_access_token, logout,
  role_name,
}
use ticketing_backend.Http.{
  Handler, need, demand, attempt, refuse, respond, internal_error, decode_and_validate,
}
use ticketing_backend.Http.Gate.{
  Context, user_id_from_context, role_from_context, tenant_id_from_context,
}

pub record RegisterRequest : Type 0 where
  pub email : String
  pub password : String
  pub first_name : String
  pub last_name : String

pub record LoginRequest : Type 0 where
  pub email : String
  pub password : String

pub record RefreshRequest : Type 0 where
  pub refresh_token : String

pub record BootstrapAdminRequest : Type 0 where
  pub tenant_id : String
  pub email : String
  pub password : String
  pub first_name : String
  pub last_name : String

pub record UserResponse : Type 0 where
  pub id : String
  pub email : String
  pub role : String
  pub tenant_id : Option String

-- The time format of net/http is left to the reader of `expires_at`.
pub record TokenPairResponse : Type 0 where
  pub access_token : String
  pub refresh_token : String
  pub expires_at : ℕ

-- The validator of the struct tags, and net.SplitHostPort's host.
pub record Checks : Type 0 where
  pub register : RegisterRequest → Bool
  pub login : LoginRequest → Bool
  pub refresh : RefreshRequest → Bool
  pub bootstrap : BootstrapAdminRequest → Bool
  pub split_host_port : String → Option String

-- Of a request: its User-Agent and X-Forwarded-For, and the address of its connection.
pub record Origin : Type 0 where
  pub user_agent : String
  pub forwarded_for : String
  pub remote_addr : String

abbrev first_hop : Option (String × String) → String → String
first_hop none forwarded = forwarded
first_hop (some (hop, rest)) forwarded = hop

abbrev host_of : Option String → String
host_of none = ""
host_of (some host) = host

-- clientIP; 44 is the comma.
unfoldable pub client_ip : Checks → Origin → String
client_ip checks origin =
    if str_eq origin.forwarded_for ""
    then host_of (checks.split_host_port origin.remote_addr)
    else trim_space (first_hop (cut 44 origin.forwarded_for) origin.forwarded_for)

abbrev pub to_token_pair_response : TokenPair → TokenPairResponse
to_token_pair_response p = record {
  access_token = p.access_token;
  refresh_token = p.refresh_token;
  expires_at = p.access_token_expires_at;
}

-- The replies to a failed Register or RegisterAdmin.
abbrev pub register_error : Error → Handler World UserResponse
register_error Error.weak_password = refuse 400 "weak-password"
register_error Error.conflict = refuse 409 "email-taken"
register_error e = internal_error e

abbrev pub login_error : Error → Handler World TokenPairResponse
login_error Error.invalid_credentials = refuse 401 "invalid-credentials"
login_error Error.account_inactive = refuse 401 "invalid-credentials"
login_error e = internal_error e

abbrev pub refresh_error : Error → Handler World TokenPairResponse
refresh_error Error.invalid_credentials = refuse 401 "invalid-refresh-token"
refresh_error Error.refresh_expired = refuse 401 "invalid-refresh-token"
refresh_error Error.refresh_revoked = refuse 401 "invalid-refresh-token"
refresh_error Error.account_inactive = refuse 403 "account-inactive"
refresh_error e = internal_error e

module _ (ext : Externals) (checks : Checks) where
  abbrev text_of : Option ℕ → Option String
  text_of none = none
  text_of (some id) = some (ext.uuid_string id)

  abbrev pub to_user_response : User → UserResponse
  to_user_response u = record {
    id = ext.uuid_string u.id;
    email = u.email;
    role = role_name u.role;
    tenant_id = text_of u.tenant_id;
  }

  -- Register
  unfoldable pub register_handler : Option RegisterRequest → Handler World UserResponse
  unfolding decode_and_validate
  register_handler body = decode_and_validate checks.register body λ req.
      attempt (register ext req.email req.password req.first_name req.last_name) register_error
        λ user. respond 201 (to_user_response user)

  module _ (cfg : JwtConfig) where
    -- Login
    unfoldable pub login_handler : Origin → Option LoginRequest → Handler World TokenPairResponse
    unfolding decode_and_validate client_ip
    login_handler origin body = decode_and_validate checks.login body λ req.
        attempt (login ext cfg req.email req.password origin.user_agent (client_ip checks origin))
          login_error λ pair. respond 200 (to_token_pair_response pair)

    -- Refresh
    unfoldable pub refresh_handler :
        Origin → Option RefreshRequest → Handler World TokenPairResponse
    unfolding decode_and_validate client_ip
    refresh_handler origin body = decode_and_validate checks.refresh body λ req.
        attempt
          (refresh_access_token ext cfg req.refresh_token origin.user_agent
            (client_ip checks origin))
          refresh_error λ pair. respond 200 (to_token_pair_response pair)

  -- Logout
  unfoldable pub logout_handler : Option RefreshRequest → Handler World String
  unfolding decode_and_validate
  logout_handler body =
      decode_and_validate checks.refresh body
        λ req. attempt (logout ext req.refresh_token) internal_error λ _. respond 200 "logged_out"

  abbrev role_text : Option String → String
  role_text none = ""
  role_text (some role) = role

  -- Me: the identifier, the role and the tenant of the claims
  unfoldable pub me : Context → Handler World (ℕ × String × Option ℕ)
  unfolding user_id_from_context role_from_context tenant_id_from_context
  me ctx = need (user_id_from_context ext ctx) 401 "missing-token" λ user_id.
      respond 200 (user_id, role_text (role_from_context ctx), tenant_id_from_context ext ctx)

  -- BootstrapAdmin, with the configured secret and the header X-Bootstrap-Secret
  unfoldable pub bootstrap_admin :
      String → String → Option BootstrapAdminRequest → Handler World UserResponse
  unfolding decode_and_validate
  bootstrap_admin secret header body = demand (not (str_eq secret "")) 404 "not-found" (
      demand (str_eq header secret) 401 "invalid-secret" (
        decode_and_validate checks.bootstrap body λ req.
          need (ext.parse_uuid req.tenant_id) 400 "invalid-tenant-id" λ tenant_id.
            attempt
              (register_admin ext tenant_id req.email req.password req.first_name req.last_name)
              register_error λ user. respond 201 (to_user_response user)))
