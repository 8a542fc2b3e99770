-- ===== src/Http/Routes.antt =====
-- internal/handler/http/router.go: the middleware that stands before the handlers of a group.
use ticketing_backend.Prelude.{String}
use ticketing_backend.Auth.{Externals, Claims}
use ticketing_backend.Http.{Handler, Method}
use ticketing_backend.Http.Gate.{
  Headers, Context, no_context, require_auth, require_admin, require_tenant_header,
}

module _ (ext : Externals) {W B : Type 0} (parse_access_token : String → Method W Claims) where
  -- The group of the purchase path.
  unfoldable pub purchase : Headers → (Context → Handler W B) → Handler W B
  unfolding require_auth require_tenant_header
  purchase headers handler =
      require_auth parse_access_token headers (require_tenant_header ext headers handler) no_context

  -- The group of the admins.
  unfoldable pub protected_admin : Headers → (Context → Handler W B) → Handler W B
  unfolding require_auth require_admin
  protected_admin headers handler =
      require_auth parse_access_token headers (require_admin handler) no_context

  -- The group of /me.
  unfoldable pub protected : Headers → (Context → Handler W B) → Handler W B
  unfolding require_auth
  protected headers handler = require_auth parse_access_token headers handler no_context

-- The group of public browsing.
unfoldable pub browsing :
    {W B : Type 0} → Externals → Headers → (Context → Handler W B) → Handler W B
unfolding require_tenant_header
browsing ext headers handler = require_tenant_header ext headers handler no_context
