-- ===== src/System/Refinement.antt =====
-- The system against the histories of SeatInventory/Calls.
use ticketing_backend.Prelude.{◌≡◌, refl, String, List, [], ◌∷◌, All}
use ticketing_backend.Domain.{Payload}
use ticketing_backend.Store.Action.{World, Env}
use ticketing_backend.SeatInventory.Calls.{Call, run}
use ticketing_backend.Http.{Handler}
use ticketing_backend.Http.Gate.{Headers, Context}
use ticketing_backend.Http.Staff.{AdminRequest, serve, silent}
use ticketing_backend.Http.Api.{
  AuthRequest, BrowsingRequest, PurchaseRequest, ApiRequest, RouterDeps, api, serve_auth, serve_fan,
  serve_buy, on_tables, bare, parse, webhook,
}
use ticketing_backend.Webhook
use ticketing_backend.Worker.{WorkerConfig, sweep_tick, admission_tick, notification_tick}
use ticketing_backend.System.{SystemEvent, system_step, system_run}
use ticketing_backend.System.Histories.{
  IsSent, Follows, Follows-refl, Follows-trans, Sends, end-Sends, inventory_of,
}
use ticketing_backend.System.Services.{parse-Sends}
use ticketing_backend.System.Exchanges.{shared, lift-Sends}
use ticketing_backend.System.Pages.{
  register-Sends, login_page-Sends, refresh_page-Sends, logout_page-Sends, me-Sends,
  bootstrap-Sends, events-Sends, event-Sends,
}
use ticketing_backend.System.Orders.{
  create-Sends, authorize_page-Sends, list_orders-Sends, get_page-Sends, seat_category-Sends,
  new_event-Sends, ticket_category-Sends, publish-Sends, venue-Sends, venues-Sends,
}
use ticketing_backend.System.Seats.{
  join_page-Sends, status_page-Sends, hold_page-Sends, release_page-Sends,
}
use ticketing_backend.System.Gates.{
  purchase-Sends, protected_admin-Sends, protected-Sends, browsing-Sends, stripe-Sends,
}
use ticketing_backend.System.Ticks.{sweep-Sends, run_once-Sends, pending-Sends}

silent-Sends :
    {B : Type 0} {h : Handler World B} → Sends inventory_of h → Sends inventory_of (silent h)
silent-Sends h = record { sends = λ env w. h.sends env w }

module _ {S : Type 0} where
  on_tables-Sends :
      {B : Type 0} {h : Handler World B} → Sends inventory_of h → Sends shared (on_tables {S = S} h)
  on_tables-Sends h = record { sends = λ env (s, w). h.sends env w }

  bare-Sends : {B : Type 0} {h : Handler (S × World) B} → Sends shared h → Sends shared (bare h)
  bare-Sends h = record { sends = λ env w. h.sends env w }

module _ {S : Type 0} (deps : RouterDeps S) where
  token-Sends : (token : String) → Sends shared (parse deps token)
  token-Sends token = lift-Sends (parse-Sends deps.externals deps.jwt token)

  serve_auth-Sends : (request : AuthRequest) → Sends shared (serve_auth deps request)
  unfolding serve_auth
  serve_auth-Sends (AuthRequest.register body) =
      on_tables-Sends (register-Sends deps.externals deps.checks body)
  serve_auth-Sends (AuthRequest.login origin body) =
      on_tables-Sends (login_page-Sends deps.externals deps.checks deps.jwt origin body)
  serve_auth-Sends (AuthRequest.refresh origin body) =
      on_tables-Sends (refresh_page-Sends deps.externals deps.checks deps.jwt origin body)
  serve_auth-Sends (AuthRequest.logout body) =
      on_tables-Sends (logout_page-Sends deps.externals deps.checks body)

  serve_admin-Sends :
      (request : AdminRequest) (ctx : Context)
      → Sends inventory_of (serve deps.externals deps.admin_checks request ctx)
  unfolding serve
  serve_admin-Sends (AdminRequest.post_seat_category body) ctx =
      silent-Sends (seat_category-Sends deps.externals deps.admin_checks body ctx)
  serve_admin-Sends (AdminRequest.post_event body) ctx =
      silent-Sends (new_event-Sends deps.externals deps.admin_checks body ctx)
  serve_admin-Sends (AdminRequest.post_ticket_category id body) ctx =
      silent-Sends (ticket_category-Sends deps.externals deps.admin_checks id body ctx)
  serve_admin-Sends (AdminRequest.post_publish id body) ctx =
      silent-Sends (publish-Sends deps.externals deps.admin_checks id body ctx)
  serve_admin-Sends (AdminRequest.post_venue body) ctx =
      silent-Sends (venue-Sends deps.externals deps.admin_checks body ctx)
  serve_admin-Sends AdminRequest.get_venues ctx =
      silent-Sends (venues-Sends deps.externals deps.admin_checks ctx)

  serve_fan-Sends :
      (request : BrowsingRequest) (ctx : Context) → Sends inventory_of (serve_fan deps request ctx)
  unfolding serve_fan
  serve_fan-Sends BrowsingRequest.list_events ctx = silent-Sends (events-Sends deps.externals ctx)
  serve_fan-Sends (BrowsingRequest.get_event id) ctx =
      silent-Sends (event-Sends deps.externals ctx id)

  serve_buy-Sends :
      (request : PurchaseRequest) (ctx : Context) → Sends shared (serve_buy deps request ctx)
  unfolding serve_buy
  serve_buy-Sends (PurchaseRequest.join_queue event) ctx =
      bare-Sends (join_page-Sends deps.externals deps.client deps.inventory ctx event)
  serve_buy-Sends (PurchaseRequest.queue_status event) ctx =
      bare-Sends (status_page-Sends deps.externals deps.client deps.inventory ctx event)
  serve_buy-Sends (PurchaseRequest.hold id body) ctx =
      bare-Sends (hold_page-Sends deps.externals deps.client deps.inventory ctx id body)
  serve_buy-Sends (PurchaseRequest.release id body) ctx =
      bare-Sends (release_page-Sends deps.externals deps.client deps.inventory ctx id body)
  serve_buy-Sends (PurchaseRequest.create_order body) ctx =
      on_tables-Sends (create-Sends deps.externals ctx body)
  serve_buy-Sends (PurchaseRequest.authorize id) ctx =
      on_tables-Sends (authorize_page-Sends deps.externals ctx id)
  serve_buy-Sends PurchaseRequest.list_orders ctx =
      on_tables-Sends (list_orders-Sends deps.externals ctx)
  serve_buy-Sends (PurchaseRequest.get_order id) ctx =
      on_tables-Sends (get_page-Sends deps.externals ctx id)

  webhook-Sends : (request : Webhook.Request) → Sends inventory_of (webhook deps request)
  webhook-Sends request = record {
    sends = λ env w. (stripe-Sends deps.webhook_externals request).sends env w;
  }

  api-Sends : (request : ApiRequest) (headers : Headers) → Sends shared (api deps request headers)
  unfolding api
  api-Sends (ApiRequest.stripe_webhook request) headers = on_tables-Sends (webhook-Sends request)
  api-Sends ApiRequest.scaffold headers = end-Sends shared _
  api-Sends (ApiRequest.auth request) headers = serve_auth-Sends request
  api-Sends ApiRequest.get_me headers = on_tables-Sends (
      protected-Sends inventory_of deps.externals headers (parse-Sends deps.externals deps.jwt)
        (me-Sends deps.externals deps.checks))
  api-Sends (ApiRequest.bootstrap secret body) headers =
      on_tables-Sends (bootstrap-Sends deps.externals deps.checks deps.bootstrap_secret secret body)
  api-Sends (ApiRequest.admin request) headers = on_tables-Sends (
      protected_admin-Sends inventory_of deps.externals headers
        (parse-Sends deps.externals deps.jwt) (serve_admin-Sends request))
  api-Sends (ApiRequest.fan request) headers =
      on_tables-Sends (browsing-Sends inventory_of deps.externals headers (serve_fan-Sends request))
  api-Sends (ApiRequest.buy request) headers =
      purchase-Sends shared deps.externals headers token-Sends (serve_buy-Sends request)

  module _ (cfg : WorkerConfig) (body_of : Payload → String) where
    pub step-Follows :
        (event : SystemEvent) (env : Env) (s : S) (w : World)
        → Follows env w.db.inventory (shared (system_step deps cfg body_of event env (s, w)))
    unfolding system_step sweep_tick admission_tick notification_tick
    step-Follows (SystemEvent.request r headers) env s w = (api-Sends r headers).sends env (s, w)
    step-Follows SystemEvent.sweep env s w = (sweep-Sends cfg.sweep_batch_size).sends env w
    step-Follows SystemEvent.admission env s w =
        (run_once-Sends deps.client deps.inventory cfg.admission_max_per_tick).sends env (s, w)
    step-Follows SystemEvent.notification env s w =
        (pending-Sends body_of cfg.notification_batch_size).sends env w

    run-Follows :
        (events : List SystemEvent) (env : Env) (s : S) (w : World)
        → Follows env w.db.inventory (shared (system_run deps cfg body_of events env (s, w)))
    unfolding system_run
    run-Follows [] env s w = Follows-refl refl
    run-Follows (event ∷ events) env s w =
        let (s', w') = system_step deps cfg body_of event env (s, w) in
        Follows-trans (step-Follows event env s w) (run-Follows events env s' w')

    -- Whatever requests the API serves and whatever ticks the worker runs, in any order and with
    -- any failures of the database, Redis and the payment provider: the table of units that they
    -- leave is the one that some history of Hold, Release, ConfirmSale and BulkCreate statements
    -- makes of the table that they found. None of them voids a unit, and the expiry of each hold
    -- is not before some instant that the clock shows.
    pub system_run_refines :
        (events : List SystemEvent) (env : Env) (s : S) (w : World)
        → (calls : List Call) × All (IsSent env) calls
          × ((system_run deps cfg body_of events env (s, w)).1.db.inventory
              ≡ run calls w.db.inventory)
    system_run_refines events env s w =
        let follows = run-Follows events env s w in
        (follows.calls, follows.are_sent, follows.history)
