-- ===== src/Http/Api.antt =====
-- internal/handler/http/router.go: NewRouter, from the routes to the handlers behind their
-- middleware. A request comes as chi hands it on: the route that its method and path match, with
-- the path's parameters and what decoding the body gave.
use ticketing_backend.Prelude.{String, Option}
use ticketing_backend.Store.Action.{World}
use ticketing_backend.Redis.{Client, lift}
use ticketing_backend.Holding.{Config}
use ticketing_backend.Auth.{Externals, JwtConfig, Claims, parse_access_token}
use ticketing_backend.Webhook
use ticketing_backend.Http.{Reply, fault, reply, Handler, Method, respond}
use ticketing_backend.Http.Gate.{Headers, Context}
use ticketing_backend.Http.Routes.{purchase, protected_admin, protected, browsing}
use ticketing_backend.Http.Accounts.{
  Checks, Origin, RegisterRequest, LoginRequest, RefreshRequest, BootstrapAdminRequest,
  register_handler, login_handler, refresh_handler, logout_handler, me, bootstrap_admin,
}
use ticketing_backend.Http.Admin.{AdminChecks}
use ticketing_backend.Http.Staff.{AdminRequest, serve, silent}
use ticketing_backend.Http.Events
use ticketing_backend.Http.Orders
use ticketing_backend.Http.Orders.{CreateOrderRequest}
use ticketing_backend.Http.Seats.{
  HoldSeatRequest, ReleaseHoldRequest, join_queue_handler, queue_status_handler, hold_handler,
  release_handler,
}

-- The routes of /auth.
pub data AuthRequest : Type 0 where
  register : Option RegisterRequest → AuthRequest
  login : Origin → Option LoginRequest → AuthRequest
  refresh : Origin → Option RefreshRequest → AuthRequest
  logout : Option RefreshRequest → AuthRequest

-- The routes of public browsing.
pub data BrowsingRequest : Type 0 where
  list_events : BrowsingRequest
  get_event : String → BrowsingRequest

-- The routes of the purchase path.
pub data PurchaseRequest : Type 0 where
  join_queue : String → PurchaseRequest
  queue_status : String → PurchaseRequest
  hold : String → Option HoldSeatRequest → PurchaseRequest
  release : String → Option ReleaseHoldRequest → PurchaseRequest
  create_order : Option CreateOrderRequest → PurchaseRequest
  authorize : String → PurchaseRequest
  list_orders : PurchaseRequest
  get_order : String → PurchaseRequest

-- The argument of `bootstrap` is the header X-Bootstrap-Secret.
pub data ApiRequest : Type 0 where
  stripe_webhook : Webhook.Request → ApiRequest
  scaffold : ApiRequest
  auth : AuthRequest → ApiRequest
  get_me : ApiRequest
  bootstrap : String → Option BootstrapAdminRequest → ApiRequest
  admin : AdminRequest → ApiRequest
  fan : BrowsingRequest → ApiRequest
  buy : PurchaseRequest → ApiRequest

-- RouterDeps: the configuration and the packages that the handlers call.
pub record RouterDeps (S : Type 0) : Type 0 where
  pub externals : Externals
  pub webhook_externals : Webhook.Externals
  pub checks : Checks
  pub admin_checks : AdminChecks
  pub client : Client S
  pub inventory : Config
  pub jwt : JwtConfig
  pub bootstrap_secret : String

-- A handler that only uses the tables, beside the Redis server, with a reply whose data is left
-- out.
abbrev pub on_tables : {S B : Type 0} → Handler World B → Handler (S × World) (Unit {0})
on_tables handler env (s, w) = let (r, w') = silent handler env w in (r, (s, w'))

abbrev pub without_data : {B : Type 0} → Reply B → Reply (Unit {0})
without_data (fault code type) = fault code type
without_data (reply code b) = reply code tt

abbrev pub bare : {S B : Type 0} → Handler (S × World) B → Handler (S × World) (Unit {0})
bare handler env w = let (r, w') = handler env w in (without_data r, w')

module _ {S : Type 0} (deps : RouterDeps S) where
  abbrev pub parse : String → Method (S × World) Claims
  parse token = lift (parse_access_token deps.externals deps.jwt token)

  unfoldable pub serve_auth : AuthRequest → Handler (S × World) (Unit {0})
  serve_auth (register body) = on_tables (register_handler deps.externals deps.checks body)
  serve_auth (login origin body) =
      on_tables (login_handler deps.externals deps.checks deps.jwt origin body)
  serve_auth (refresh origin body) =
      on_tables (refresh_handler deps.externals deps.checks deps.jwt origin body)
  serve_auth (logout body) = on_tables (logout_handler deps.externals deps.checks body)

  unfoldable pub serve_fan : BrowsingRequest → Context → Handler World (Unit {0})
  serve_fan list_events ctx = silent (Events.list ctx)
  serve_fan (get_event id) ctx = silent (Events.get deps.externals ctx id)

  unfoldable pub serve_buy : PurchaseRequest → Context → Handler (S × World) (Unit {0})
  serve_buy (join_queue event) ctx =
      bare (join_queue_handler deps.externals deps.client deps.inventory ctx event)
  serve_buy (queue_status event) ctx =
      bare (queue_status_handler deps.externals deps.client deps.inventory ctx event)
  serve_buy (hold id body) ctx =
      bare (hold_handler deps.externals deps.client deps.inventory ctx id body)
  serve_buy (release id body) ctx =
      bare (release_handler deps.externals deps.client deps.inventory ctx id body)
  serve_buy (create_order body) ctx = on_tables (Orders.create deps.externals ctx body)
  serve_buy (authorize id) ctx = on_tables (Orders.authorize deps.externals ctx id)
  serve_buy list_orders ctx = on_tables (Orders.list deps.externals ctx)
  serve_buy (get_order id) ctx = on_tables (Orders.get deps.externals ctx id)

  -- The route of the webhook, with the status code of its answer.
  abbrev pub webhook : Webhook.Request → Handler World (Unit {0})
  webhook request env w =
      let (response, w') = Webhook.stripe deps.webhook_externals request env w in
      (reply response.code tt, w')

  -- NewRouter
  unfoldable pub api : ApiRequest → Headers → Handler (S × World) (Unit {0})
  unfolding serve_auth serve_fan serve_buy
  api (stripe_webhook request) headers = on_tables (webhook request)
  api scaffold headers = respond 200 tt
  api (auth request) headers = serve_auth request
  api get_me headers = on_tables (
      protected deps.externals (parse_access_token deps.externals deps.jwt) headers
        (me deps.externals deps.checks))
  api (bootstrap secret body) headers =
      on_tables (bootstrap_admin deps.externals deps.checks deps.bootstrap_secret secret body)
  api (admin request) headers = on_tables (
      protected_admin deps.externals (parse_access_token deps.externals deps.jwt) headers
        (serve deps.externals deps.admin_checks request))
  api (fan request) headers = on_tables (browsing deps.externals headers (serve_fan request))
  api (buy request) headers = purchase deps.externals parse headers (serve_buy request)
