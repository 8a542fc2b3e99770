-- ===== src/Webhook/Delivery.antt =====
-- The webhook of a payment that AuthorizePayment has asked for: the metadata of the intent comes
-- back in the event.
use ticketing_backend.Prelude.{
  ℕ, ◌≡◌, ◌∙◌, refl, ap, ==_refl, str_eq_iff, List, arith, String, true, false, none, some, [], ◌∷◌,
  ◌++◌, str_eq, if◌then◌else◌,
}
use ticketing_backend.Domain.{ok, Order, OrderStatus, Payment}
use ticketing_backend.Sql.{select_first}
use ticketing_backend.Sql.Laws.{select-first_true, select-append_none}
use ticketing_backend.Store.Action.{Metadata, World, Env, next}
use ticketing_backend.Store.OrderRepo
use ticketing_backend.Store.OrderRepo.{is_order, set_status}
use ticketing_backend.Store.PaymentRepo
use ticketing_backend.Ordering.Confirm.{confirm_payment}
use ticketing_backend.Ordering.Settlement.{found_order}
use ticketing_backend.Ordering.Payment.{intent_metadata, new_payment, authorize_payment}
use ticketing_backend.Ordering.Authorize.{authorize_payment-ok, authorize_payment_first}
use ticketing_backend.Webhook.{
  Externals, Request, StripeWebhookEvent, confirmed, confirm, find_payment, capture, named,
  dispatch, verified, stripe,
}

-- The metadata as a Go map of the identifiers' texts.
unfoldable pub metadata_text : (ℕ → String) → Metadata → String → String
metadata_text text [] key = ""
metadata_text text ((k, id) ∷ metadata) key =
    let rest = metadata_text text metadata key in if str_eq k key then text id else rest

-- An event with the metadata of an order's intent is about that order.
stripe-capture :
    (externals : Externals) (request : Request) (text : ℕ → String) (order : Order) {body : String}
    {event : StripeWebhookEvent}
    → ((n : ℕ) → externals.parse_uuid (text n) ≡ some n)
    → request.body ≡ some body
    → externals.verify_webhook_signature body request.signature ≡ true
    → externals.unmarshal body ≡ some event
    → str_eq event.type "payment_intent.succeeded" ≡ true
    → ((key : String) → event.metadata key ≡ metadata_text text (intent_metadata order) key)
    → (env : Env) (w : World)
    → stripe externals request env w ≡ capture order.tenant_id order.id env w
unfolding metadata_text stripe verified dispatch named
stripe-capture externals request text order {event = event} reads has signed parsed type carried env
      w =
    ground (arith, carried "tenant_id", carried "order_id", reads order.tenant_id, reads order.id)

capture-confirm_payment :
    (t o : ℕ) (env : Env) (w : World) {order : Order} {payment : Payment}
    → found_order t o w.db ≡ some order
    → select_first (PaymentRepo.has_key t order.idempotency_key) w.db.payments ≡ some payment
    → env.fails w.tick ≡ false
    → env.fails (next w).tick ≡ false
    → capture t o env w
      ≡ (let (r, w') = confirm_payment t o payment.id env (next (next w)) in (confirmed r, w'))
unfolding capture find_payment confirm OrderRepo.get_by_id PaymentRepo.get_by_idempotency_key
capture-confirm_payment t o env w {order = order} {payment = payment} found has up up' =
    ground arith

first_payment :
    (t : ℕ) (payments : List Payment) (order : Order) (id : ℕ) (intent : String)
    → select_first (PaymentRepo.has_key t order.idempotency_key) payments ≡ none
    → select_first
        (PaymentRepo.has_key t order.idempotency_key)
        (payments ++ new_payment id t order intent ∷ [])
      ≡ some (new_payment id t order intent)
unfolding select_first
first_payment t payments order id intent none_yet =
    select-append_none (PaymentRepo.has_key t order.idempotency_key) payments
      (new_payment id t order intent ∷ []) none_yet
    ∙ rw (==_refl t, (str_eq_iff order.idempotency_key order.idempotency_key).1 refl) refl

-- Where AuthorizePayment has succeeded, and a signed event of a captured payment then carries the
-- metadata of the intent that it asked for, and neither of the two lookups fails: the webhook runs
-- ConfirmPayment on the order and on the payment that AuthorizePayment stored, and answers by its
-- result. The texts of identifiers are taken to parse to them.
pub stripe-authorize_payment :
    (externals : Externals) (request : Request) (text : ℕ → String) (t o : ℕ) (env later : Env)
    (w : World) {body secret : String} {event : StripeWebhookEvent} {order : Order}
    → ((n : ℕ) → externals.parse_uuid (text n) ≡ some n)
    → (authorize_payment t o env w).0 ≡ ok secret
    → found_order t o w.db ≡ some order
    → request.body ≡ some body
    → externals.verify_webhook_signature body request.signature ≡ true
    → externals.unmarshal body ≡ some event
    → str_eq event.type "payment_intent.succeeded" ≡ true
    → ((key : String) → event.metadata key ≡ metadata_text text (intent_metadata order) key)
    → later.fails (authorize_payment t o env w).1.tick ≡ false
    → later.fails (next (authorize_payment t o env w).1).tick ≡ false
    → let w' = (authorize_payment t o env w).1 in
      (id : ℕ) × (intent : String) × (w'.db.payments
        ≡ w.db.payments ++ new_payment id t order intent ∷ [])
      × (stripe externals request later w'
          ≡ (let (r, w2) = confirm_payment t o id later (next (next w')) in (confirmed r, w2)))
stripe-authorize_payment externals request text t o env later w {order = order} reads paid found has
      signed parsed type carried up up' =
    let w' = (authorize_payment t o env w).1 in
    let (order', id, intent, found', pending, answered, after, payments, sent) =
      authorize_payment-ok t o env w paid in
    let same : order' ≡ order = ground arith in
    let key : is_order t o order ≡ true = select-first_true (is_order t o) w.db.orders found in
    let rows : w'.db.payments ≡ w.db.payments ++ new_payment id t order intent ∷ [] =
      payments ∙ ap (λ x. w.db.payments ++ new_payment id t x intent ∷ []) same in
    let found_after : found_order t o w'.db ≡ some (set_status OrderStatus.awaiting_payment order) =
      after ∙ ap (λ x. some (set_status OrderStatus.awaiting_payment x)) same in
    let stored : select_first (PaymentRepo.has_key t order.idempotency_key) w'.db.payments
        ≡ some (new_payment id t order intent) =
      ap (select_first (PaymentRepo.has_key t order.idempotency_key)) rows
      ∙ first_payment t w.db.payments order id intent
          (authorize_payment_first t o env w paid found) in
    let about : stripe externals request later w' ≡ capture order.tenant_id order.id later w' =
      stripe-capture externals request text order reads has signed parsed type carried later w' in
    let tenant : order.tenant_id ≡ t = ground arith in
    let named_order : order.id ≡ o = ground arith in
    (
      id,
      intent,
      rows,
      about
          ∙ ap (λ x. capture x order.id later w') tenant
          ∙ ap (λ x. capture t x later w') named_order
          ∙ capture-confirm_payment t o later w' found_after stored up up',
    )
