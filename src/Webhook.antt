-- ===== src/Webhook.antt =====
-- internal/handler/http/webhook.go: the handler of POST /webhooks/stripe.
pub mod Answers
pub mod Delivery
use ticketing_backend.Prelude.{
  ℕ, String, Bool, true, false, Option, none, some, if◌then◌else◌, str_eq,
}
use ticketing_backend.Domain.{Error, Result, ok, err, Order, Payment}
use ticketing_backend.Store.Action.{World, Env}
use ticketing_backend.Store.OrderRepo
use ticketing_backend.Store.PaymentRepo
use ticketing_backend.Ordering.Confirm.{confirm_payment}

-- stripeWebhookEvent; a key that the metadata lacks is the empty text, as in a Go map.
pub record StripeWebhookEvent : Type 0 where
  pub type : String
  pub metadata : String → String

-- The signature check of the payment gateway, encoding/json and google/uuid.
pub record Externals : Type 0 where
  pub verify_webhook_signature : String → String → Bool
  pub unmarshal : String → Option StripeWebhookEvent
  pub parse_uuid : String → Option ℕ

-- The body as the limited reader returns it, none where it fails, and the Stripe-Signature header.
pub record Request : Type 0 where
  pub body : Option String
  pub signature : String

-- The status code, with the error's type or the "status" of the body.
pub record Response : Type 0 where
  pub code : ℕ
  pub body : String

abbrev pub answer : ℕ → String → Response
answer code body = record { code = code; body = body }

-- The answer to what ConfirmPayment returns.
abbrev pub confirmed : Result (Unit {0}) → Response
confirmed (ok _) = answer 200 "confirmed"
confirmed (err Error.expired) = answer 200 "refunded"
confirmed (err e) = answer 500 "internal-error"

unfoldable pub confirm : ℕ → ℕ → Result Payment → Env → World → Response × World
confirm tenant_id order_id (err e) env w = (answer 500 "internal-error", w)
confirm tenant_id order_id (ok payment) env w =
    let (r, w') = confirm_payment tenant_id order_id payment.id env w in (confirmed r, w')

unfoldable pub find_payment : ℕ → ℕ → Result Order → Env → World → Response × World
unfolding confirm
find_payment tenant_id order_id (err Error.not_found) env w = (answer 409 "order-not-found-yet", w)
find_payment tenant_id order_id (err e) env w = (answer 500 "internal-error", w)
find_payment tenant_id order_id (ok order) env w =
    let (r, w') = PaymentRepo.get_by_idempotency_key tenant_id order.idempotency_key env w in
    confirm tenant_id order_id r env w'

unfoldable pub capture : ℕ → ℕ → Env → World → Response × World
unfolding find_payment
capture tenant_id order_id env w =
    let (r, w') = OrderRepo.get_by_id tenant_id order_id env w in
    find_payment tenant_id order_id r env w'

unfoldable pub named : Option ℕ → Option ℕ → Env → World → Response × World
unfolding capture
named none order_id env w = (answer 400 "invalid-metadata", w)
named (some tenant_id) none env w = (answer 400 "invalid-metadata", w)
named (some tenant_id) (some order_id) env w = capture tenant_id order_id env w

unfoldable pub dispatch : Externals → Option StripeWebhookEvent → Env → World → Response × World
unfolding named
dispatch externals none env w = (answer 400 "invalid-payload", w)
dispatch externals (some event) env w =
    if str_eq event.type "payment_intent.succeeded"
    then named (externals.parse_uuid (event.metadata "tenant_id"))
        (externals.parse_uuid (event.metadata "order_id")) env w
    else (answer 200 "ignored", w)

unfoldable pub verified : Externals → Option String → String → Env → World → Response × World
unfolding dispatch
verified externals none signature env w = (answer 400 "invalid-body", w)
verified externals (some body) signature env w =
    if externals.verify_webhook_signature body signature
    then dispatch externals (externals.unmarshal body) env w
    else (answer 400 "invalid-signature", w)

-- WebhookHandler.Stripe
unfoldable pub stripe : Externals → Request → Env → World → Response × World
stripe externals request = verified externals request.body request.signature
