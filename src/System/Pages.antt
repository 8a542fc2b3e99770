-- ===== src/System/Pages.antt =====
-- The handlers that only use the tables as histories of statements on event_seat_inventory.
use ticketing_backend.Prelude.{arith, String, not, Option, none, some, str_eq}
use ticketing_backend.Domain.{Error}
use ticketing_backend.Domain.Accounts.{UserRole}
use ticketing_backend.Store.Action.{World}
use ticketing_backend.Store.EventRepo.{on_sale_of}
use ticketing_backend.Auth.{Externals, JwtConfig, register, register_admin}
use ticketing_backend.Http.{fault, Handler, internal_error}
use ticketing_backend.Http.Gate.{Context, user_id_from_context, resolved_tenant_id_from_context}
use ticketing_backend.Http.Accounts.{
  Checks, Origin, RegisterRequest, LoginRequest, RefreshRequest, BootstrapAdminRequest, client_ip,
  register_error, login_error, refresh_error, register_handler, login_handler, refresh_handler,
  logout_handler, me, bootstrap_admin,
}
use ticketing_backend.Http.Admin.{seat_category_error}
use ticketing_backend.Http.Events
use ticketing_backend.Http.Orders.{create_error, authorize_error}
use ticketing_backend.System.Histories.{
  Sends, quietly, attempt-Sends, need-Sends, demand-Sends, decode-Sends, end-Sends, inventory_of,
}
use ticketing_backend.System.Statements.{
  count_by_status-Sends, get_event-Sends, list_categories-Sends, list_events-Sends,
}
use ticketing_backend.System.Services.{
  create_account-Sends, login-Sends, refresh-Sends, logout-Sends,
}

-- The reply to an error depends on nothing else.
abbrev Refuses : {B : Type 0} → (Error → Handler World B) → Type 0
Refuses refused = (e : Error) → Sends inventory_of (refused e)

-- Where the reply to each error is written out by its constructor.
internal-Sends : {B : Type 0} → Refuses (internal_error {W = World} {B = B})
internal-Sends e = end-Sends inventory_of (fault 500 "internal-error")

register_error-Sends : Refuses register_error
register_error-Sends e = quietly inventory_of λ env w. ground arith

login_error-Sends : Refuses login_error
login_error-Sends e = quietly inventory_of λ env w. ground arith

refresh_error-Sends : Refuses refresh_error
refresh_error-Sends e = quietly inventory_of λ env w. ground arith

seat_category_error-Sends : Refuses seat_category_error
seat_category_error-Sends e = quietly inventory_of λ env w. ground arith

create_error-Sends : Refuses create_error
create_error-Sends e = quietly inventory_of λ env w. ground arith

authorize_error-Sends : Refuses authorize_error
authorize_error-Sends e = quietly inventory_of λ env w. ground arith

module _ (ext : Externals) (checks : Checks) where
  pub register-Sends :
      (body : Option RegisterRequest) → Sends inventory_of (register_handler ext checks body)
  unfolding register_handler register
  register-Sends body = decode-Sends inventory_of checks.register body λ req.
      attempt-Sends inventory_of
        (create_account-Sends ext UserRole.fan none req.email req.password req.first_name
          req.last_name)
        register_error-Sends λ user. end-Sends inventory_of _

  pub login_page-Sends :
      (cfg : JwtConfig) (origin : Origin) (body : Option LoginRequest)
      → Sends inventory_of (login_handler ext checks cfg origin body)
  unfolding login_handler
  login_page-Sends cfg origin body = decode-Sends inventory_of checks.login body λ req.
      attempt-Sends inventory_of
        (login-Sends ext cfg req.email req.password origin.user_agent (client_ip checks origin))
        login_error-Sends λ pair. end-Sends inventory_of _

  pub refresh_page-Sends :
      (cfg : JwtConfig) (origin : Origin) (body : Option RefreshRequest)
      → Sends inventory_of (refresh_handler ext checks cfg origin body)
  unfolding refresh_handler
  refresh_page-Sends cfg origin body = decode-Sends inventory_of checks.refresh body λ req.
      attempt-Sends inventory_of
        (refresh-Sends ext cfg req.refresh_token origin.user_agent (client_ip checks origin))
        refresh_error-Sends λ pair. end-Sends inventory_of _

  pub logout_page-Sends :
      (body : Option RefreshRequest) → Sends inventory_of (logout_handler ext checks body)
  unfolding logout_handler
  logout_page-Sends body = decode-Sends inventory_of checks.refresh body λ req.
      attempt-Sends inventory_of (logout-Sends ext req.refresh_token) internal-Sends
        λ _. end-Sends inventory_of _

  pub me-Sends : (ctx : Context) → Sends inventory_of (me ext checks ctx)
  unfolding me
  me-Sends ctx =
      need-Sends inventory_of (user_id_from_context ext ctx) _ _ λ user. end-Sends inventory_of _

  pub bootstrap-Sends :
      (secret header : String) (body : Option BootstrapAdminRequest)
      → Sends inventory_of (bootstrap_admin ext checks secret header body)
  unfolding bootstrap_admin register_admin
  bootstrap-Sends secret header body = demand-Sends inventory_of (not (str_eq secret "")) _ _ (
      demand-Sends inventory_of (str_eq header secret) _ _ (
        decode-Sends inventory_of checks.bootstrap body λ req.
          need-Sends inventory_of (ext.parse_uuid req.tenant_id) _ _ λ t.
            attempt-Sends inventory_of
              (create_account-Sends ext UserRole.admin (some t) req.email req.password
                req.first_name req.last_name)
              register_error-Sends λ user. end-Sends inventory_of _))

module _ (ext : Externals) where
  pub events-Sends : (ctx : Context) → Sends inventory_of (Events.list ctx)
  unfolding Events.list
  events-Sends ctx = need-Sends inventory_of (resolved_tenant_id_from_context ctx) _ _ λ t.
      attempt-Sends inventory_of (list_events-Sends (on_sale_of t) 50 0) internal-Sends
        λ events. end-Sends inventory_of _

  pub event-Sends : (ctx : Context) (id : String) → Sends inventory_of (Events.get ext ctx id)
  unfolding Events.get
  event-Sends ctx id = need-Sends inventory_of (resolved_tenant_id_from_context ctx) _ _ λ t.
      need-Sends inventory_of (ext.parse_uuid id) _ _ λ e.
        attempt-Sends inventory_of (get_event-Sends t e)
          (λ e. end-Sends inventory_of (fault 404 "event-not-found"))
          λ event.
            attempt-Sends inventory_of (list_categories-Sends t e) internal-Sends λ categories.
              attempt-Sends inventory_of (count_by_status-Sends t e) internal-Sends
                λ counts. end-Sends inventory_of _
