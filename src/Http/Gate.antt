-- ===== src/Http/Gate.antt =====
-- internal/handler/middleware/auth.go and tenant.go: who a request comes from, and for which
-- tenant.
use ticketing_backend.Prelude.{ℕ, String, Bool, false, Option, none, some, if◌then◌else◌, str_eq}
use ticketing_backend.Prelude.Texts.{cut_prefix}
use ticketing_backend.Auth.{Externals, Claims}
use ticketing_backend.Http.{Handler, Method, need, demand, attempt, refuse}

-- The headers Authorization and X-Tenant-ID, empty where the request has none.
pub record Headers : Type 0 where
  pub authorization : String
  pub x_tenant_id : String

-- What the middleware puts in a request's context.
pub record Context : Type 0 where
  pub claims : Option Claims
  pub resolved_tenant : Option ℕ

abbrev pub no_context : Context
no_context = record { claims = none; resolved_tenant = none }

abbrev pub nonempty : String → Option String
nonempty s = if str_eq s "" then none else some s

abbrev pub bearer_token : String → Option String
bearer_token header = elim (cut_prefix "Bearer " header) [
  | none ↦ none
  | some token ↦ nonempty token
]

module _ (ext : Externals) where
  -- UserIDFromContext
  unfoldable pub user_id_from_context : Context → Option ℕ
  user_id_from_context ctx = elim ctx.claims [
    | none ↦ none
    | some claims ↦ ext.parse_uuid claims.subject
  ]

  abbrev tenant_claimed : Option String → Option ℕ
  tenant_claimed none = none
  tenant_claimed (some t) = ext.parse_uuid t

  -- TenantIDFromContext
  unfoldable pub tenant_id_from_context : Context → Option ℕ
  tenant_id_from_context ctx = elim ctx.claims [
    | none ↦ none
    | some claims ↦ tenant_claimed (nonempty claims.tenant_id)
  ]

-- RoleFromContext
unfoldable pub role_from_context : Context → Option String
role_from_context ctx = elim ctx.claims [ none ↦ none | some claims ↦ some claims.role ]

-- ResolvedTenantIDFromContext
unfoldable pub resolved_tenant_id_from_context : Context → Option ℕ
resolved_tenant_id_from_context ctx = ctx.resolved_tenant

abbrev pub is_admin_role : Option String → Bool
is_admin_role none = false
is_admin_role (some role) = str_eq role "admin"

module _ {W B : Type 0} where
  -- RequireAuth, with ParseAccessToken of the service
  unfoldable pub require_auth :
      (String → Method W Claims) → Headers → (Context → Handler W B) → Context → Handler W B
  require_auth parse_access_token headers next ctx =
      need (bearer_token headers.authorization) 401 "missing-token" λ token.
        attempt (parse_access_token token) (λ e. refuse 401 "invalid-token")
          λ claims. next (record ctx { claims = some claims })

  -- RequireAdmin
  unfoldable pub require_admin : (Context → Handler W B) → Context → Handler W B
  unfolding role_from_context
  require_admin next ctx = demand (is_admin_role (role_from_context ctx)) 403 "forbidden" (next ctx)

  -- RequireTenantHeader
  unfoldable pub require_tenant_header :
      Externals → Headers → (Context → Handler W B) → Context → Handler W B
  require_tenant_header ext headers next ctx =
      need (nonempty headers.x_tenant_id) 400 "missing-tenant" λ raw.
        need (ext.parse_uuid raw) 400 "invalid-tenant"
          λ tenant_id. next (record ctx { resolved_tenant = some tenant_id })

  -- userAndTenant
  unfoldable pub user_and_tenant : Externals → Context → (ℕ → ℕ → Handler W B) → Handler W B
  unfolding user_id_from_context resolved_tenant_id_from_context
  user_and_tenant ext ctx next = need (user_id_from_context ext ctx) 401 "missing-token" λ user_id.
      need (resolved_tenant_id_from_context ctx) 400 "missing-tenant"
        λ tenant_id. next user_id tenant_id
