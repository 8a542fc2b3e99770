-- ===== src/System/Gates.antt =====
-- The middleware, the routes and the webhook as histories of statements on event_seat_inventory.
use ticketing_backend.Prelude.{ℕ, inl, inr, arith, String, Option, none, some, Bool-cases, str_eq}
use ticketing_backend.Domain.{Error, Result, ok, err, Order, Payment}
use ticketing_backend.Store.OrderRepo
use ticketing_backend.Store.PaymentRepo
use ticketing_backend.Store.Inventory.{Table}
use ticketing_backend.Auth.{Externals, Claims}
use ticketing_backend.Webhook
use ticketing_backend.Http.{Handler, Method}
use ticketing_backend.Http.Gate.{
  Headers, Context, no_context, require_auth, require_admin, require_tenant_header, bearer_token,
  nonempty, role_from_context, is_admin_role,
}
use ticketing_backend.Http.Routes.{purchase, protected_admin, protected, browsing}
use ticketing_backend.System.Histories.{
  Follows-trans, Sends, quietly, attempt-Sends, need-Sends, demand-Sends, end-Sends, inventory_of,
}
use ticketing_backend.System.OrderStatements.{get_order-Sends, payment_of_key-Sends}
use ticketing_backend.System.Checkouts.{confirm-Sends}

module _ {W B : Type 0} (table : W → Table) where
  auth-Sends :
      {parse : String → Method W Claims} {next : Context → Handler W B} (headers : Headers)
      (ctx : Context)
      → ((token : String) → Sends table (parse token))
      → ((c : Context) → Sends table (next c))
      → Sends table (require_auth parse headers next ctx)
  unfolding require_auth
  auth-Sends headers ctx hp h = need-Sends table (bearer_token headers.authorization) _ _ λ token.
      attempt-Sends table (hp token) (λ e. end-Sends table _)
        λ claims. h (record ctx { claims = some claims })

  admin-Sends :
      {next : Context → Handler W B} (ctx : Context)
      → ((c : Context) → Sends table (next c))
      → Sends table (require_admin next ctx)
  unfolding require_admin
  admin-Sends ctx h = demand-Sends table (is_admin_role (role_from_context ctx)) _ _ (h ctx)

  tenant-Sends :
      (ext : Externals) {next : Context → Handler W B} (headers : Headers) (ctx : Context)
      → ((c : Context) → Sends table (next c))
      → Sends table (require_tenant_header ext headers next ctx)
  unfolding require_tenant_header
  tenant-Sends ext headers ctx h = need-Sends table (nonempty headers.x_tenant_id) _ _ λ raw.
      need-Sends table (ext.parse_uuid raw) _ _ λ t. h (record ctx { resolved_tenant = some t })

  module _ (ext : Externals) {parse : String → Method W Claims} {next : Context → Handler W B}
      (headers : Headers) (hp : (token : String) → Sends table (parse token))
      (h : (c : Context) → Sends table (next c)) where
    pub purchase-Sends : Sends table (purchase ext parse headers next)
    unfolding purchase
    purchase-Sends = auth-Sends headers no_context hp λ c. tenant-Sends ext headers c h

    pub protected_admin-Sends : Sends table (protected_admin ext parse headers next)
    unfolding protected_admin
    protected_admin-Sends = auth-Sends headers no_context hp λ c. admin-Sends c h

    pub protected-Sends : Sends table (protected ext parse headers next)
    unfolding protected
    protected-Sends = auth-Sends headers no_context hp h

  pub browsing-Sends :
      (ext : Externals) {next : Context → Handler W B} (headers : Headers)
      → ((c : Context) → Sends table (next c))
      → Sends table (browsing ext headers next)
  unfolding browsing
  browsing-Sends ext headers h = tenant-Sends ext headers no_context h

confirm_found-Sends :
    (t order : ℕ) (found : Result Payment) → Sends inventory_of (Webhook.confirm t order found)
unfolding Webhook.confirm
confirm_found-Sends t order (err e) = end-Sends inventory_of _
confirm_found-Sends t order (ok payment) = record {
  sends = λ env w. (confirm-Sends t order payment.id).sends env w;
}

find-Sends :
    (t order : ℕ) (found : Result Order) → Sends inventory_of (Webhook.find_payment t order found)
unfolding Webhook.find_payment
find-Sends t order (err Error.not_found) = end-Sends inventory_of _
find-Sends t order (err e) = end-Sends inventory_of _
find-Sends t order (ok o) = record {
  sends = λ env w.
      let (r, w') = PaymentRepo.get_by_idempotency_key t o.idempotency_key env w in
      Follows-trans ((payment_of_key-Sends t o.idempotency_key).sends env w)
        ((confirm_found-Sends t order r).sends env w');
}

capture-Sends : (t order : ℕ) → Sends inventory_of (Webhook.capture t order)
unfolding Webhook.capture
capture-Sends t order = record {
  sends = λ env w.
      let (r, w') = OrderRepo.get_by_id t order env w in
      Follows-trans ((get_order-Sends t order).sends env w) ((find-Sends t order r).sends env w');
}

named-Sends : (t order : Option ℕ) → Sends inventory_of (Webhook.named t order)
unfolding Webhook.named
named-Sends none order = end-Sends inventory_of _
named-Sends (some t) none = end-Sends inventory_of _
named-Sends (some t) (some order) = capture-Sends t order

dispatch-Sends :
    (ext : Webhook.Externals) (event : Option Webhook.StripeWebhookEvent)
    → Sends inventory_of (Webhook.dispatch ext event)
unfolding Webhook.dispatch
dispatch-Sends ext none = end-Sends inventory_of _
dispatch-Sends ext (some event) = elim (Bool-cases (str_eq event.type "payment_intent.succeeded")) [
  | inl paid ↦ record {
    sends = λ env w. rw paid (
        (named-Sends (ext.parse_uuid (event.metadata "tenant_id"))
            (ext.parse_uuid (event.metadata "order_id"))).sends
          env w);
  }
  | inr other ↦ quietly inventory_of λ env w. ground arith
]

verified-Sends :
    (ext : Webhook.Externals) (body : Option String) (signature : String)
    → Sends inventory_of (Webhook.verified ext body signature)
unfolding Webhook.verified
verified-Sends ext none signature = end-Sends inventory_of _
verified-Sends ext (some body) signature =
    elim (Bool-cases (ext.verify_webhook_signature body signature)) [
      | inl good ↦ record {
        sends = λ env w. rw good ((dispatch-Sends ext (ext.unmarshal body)).sends env w);
      }
      | inr bad ↦ quietly inventory_of λ env w. ground arith
    ]

pub stripe-Sends :
    (ext : Webhook.Externals) (request : Webhook.Request)
    → Sends inventory_of (Webhook.stripe ext request)
unfolding Webhook.stripe
stripe-Sends ext request = verified-Sends ext request.body request.signature
