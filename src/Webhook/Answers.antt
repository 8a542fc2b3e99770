-- ===== src/Webhook/Answers.antt =====
-- What the webhook's answers say of what it has done.
use ticketing_backend.Prelude.{
  ℕ, ◌≡◌, ◌⊎◌, inl, inr, sym, subst, arith, String, true, false, some, Bool-cases, Option-cases,
  str_eq,
}
use ticketing_backend.Domain.{Order, Payment}
use ticketing_backend.Sql.{select_first}
use ticketing_backend.Store.Action.{World, Env, next}
use ticketing_backend.Store.OrderRepo
use ticketing_backend.Store.PaymentRepo
use ticketing_backend.Ordering.Confirm.{confirm_payment}
use ticketing_backend.Ordering.Settlement.{found_order}
use ticketing_backend.Webhook.{
  Externals, Request, Response, StripeWebhookEvent, answer, confirmed, confirm, find_payment,
  capture, named, dispatch, verified, stripe,
}

-- The order that an event names is found, with a payment under its key, and the handler has
-- called ConfirmPayment on the two, with the given answer.
abbrev pub IsCaptured : ℕ → ℕ → Env → World → Response × World → Type 0
IsCaptured t o env w done =
    (order : Order) × (payment : Payment) × (found_order t o w.db ≡ some order)
    × (select_first (PaymentRepo.has_key t order.idempotency_key) w.db.payments ≡ some payment)
    × (done
        ≡ (let (r, w') = confirm_payment t o payment.id env (next (next w)) in (confirmed r, w')))

-- The handler changes no table and sends no request.
abbrev pub IsIdle : World → Response × World → Type 0
IsIdle w done = (done.1.db ≡ w.db) × (done.1.gateway_calls ≡ w.gateway_calls)

capture_cases :
    (t o : ℕ) (env : Env) (w : World)
    → (IsIdle w (capture t o env w)
        × (((capture t o env w).0.code ≡ 409) ⊎ ((capture t o env w).0.code ≡ 500)))
      ⊎ IsCaptured t o env w (capture t o env w)
unfolding capture find_payment confirm OrderRepo.get_by_id PaymentRepo.get_by_idempotency_key
capture_cases t o env w = elim (Option-cases (found_order t o w.db)) [
  | inl absent ↦ inl ((ground arith, ground arith), ground arith)
  | inr (order, found) ↦
      elim (Option-cases
        (select_first (PaymentRepo.has_key t order.idempotency_key) w.db.payments)) [
          | inl unpaid ↦ inl ((ground arith, ground arith), ground arith)
          | inr (payment, has) ↦ elim (Bool-cases (env.fails w.tick)) [
            | inl down ↦ inl ((ground arith, ground arith), ground arith)
            | inr calm ↦ elim (Bool-cases (env.fails (next w).tick)) [
              | inl down ↦ inl ((ground arith, ground arith), ground arith)
              | inr calm' ↦ inr (order, payment, found, has, ground arith)
            ]
          ]
        ]
]

-- A request whose body the signature does not match is answered with 400, and nothing happens.
stripe_rejects :
    (externals : Externals) (request : Request) (body : String) (env : Env) (w : World)
    → request.body ≡ some body
    → externals.verify_webhook_signature body request.signature ≡ false
    → stripe externals request env w ≡ (answer 400 "invalid-signature", w)
unfolding stripe verified
stripe_rejects externals request body env w has forged = ground arith

-- What a request authorises: a signed body with an event of a captured payment, whose metadata
-- names a tenant and an order.
abbrev pub Authorises : Externals → Request → ℕ → ℕ → Type 0
Authorises externals request t o =
    (body : String) × (event : StripeWebhookEvent) × (request.body ≡ some body)
    × (externals.verify_webhook_signature body request.signature ≡ true)
    × (externals.unmarshal body ≡ some event)
    × (str_eq event.type "payment_intent.succeeded" ≡ true)
    × (externals.parse_uuid (event.metadata "tenant_id") ≡ some t)
    × (externals.parse_uuid (event.metadata "order_id") ≡ some o)

abbrev pub StripeOutcome : Externals → Request → Env → World → Type 0
StripeOutcome externals request env w =
    IsIdle w (stripe externals request env w)
    ⊎ ((t : ℕ) × (o : ℕ) × Authorises externals request t o
        × IsCaptured t o env w (stripe externals request env w))

stripe_captures_from :
    (externals : Externals) (request : Request) (body : String) (event : StripeWebhookEvent)
    (env : Env) (w : World)
    → request.body ≡ some body
    → externals.verify_webhook_signature body request.signature ≡ true
    → externals.unmarshal body ≡ some event
    → str_eq event.type "payment_intent.succeeded" ≡ true
    → StripeOutcome externals request env w
unfolding stripe verified dispatch named
stripe_captures_from externals request body event env w has signed parsed type =
    elim (Option-cases (externals.parse_uuid (event.metadata "tenant_id"))) [
      | inl no_tenant ↦ inl (ground arith, ground arith)
      | inr (t, tenant) ↦ elim (Option-cases (externals.parse_uuid (event.metadata "order_id"))) [
        | inl no_order ↦ inl (ground arith, ground arith)
        | inr (o, order) ↦
            let same : stripe externals request env w ≡ capture t o env w = ground arith in
            elim (capture_cases t o env w) [
              | inl (idle, code) ↦ inl (subst (IsIdle w) (sym same) idle)
              | inr done ↦ inr (
                t,
                o,
                (body, event, has, signed, parsed, type, tenant, order),
                subst (IsCaptured t o env w) (sym same) done,
              )
            ]
      ]
    ]

-- The handler either changes no table and sends the provider nothing, or the request is signed,
-- is an event of a captured payment and names an order, and the handler has then run
-- ConfirmPayment once on that order and the payment under its key, and answers by its result:
-- confirmed for success, refunded for ErrExpired, and 500 for any other error.
pub stripe_captures :
    (externals : Externals) (request : Request) (env : Env) (w : World)
    → StripeOutcome externals request env w
unfolding stripe verified dispatch
stripe_captures externals request env w = elim (Option-cases request.body) [
  | inl unread ↦ inl (ground arith, ground arith)
  | inr (body, has) ↦
      elim (Bool-cases (externals.verify_webhook_signature body request.signature)) [
        | inr forged ↦ inl (ground arith, ground arith)
        | inl signed ↦ elim (Option-cases (externals.unmarshal body)) [
          | inl garbled ↦ inl (ground arith, ground arith)
          | inr (event, parsed) ↦ elim (Bool-cases (str_eq event.type "payment_intent.succeeded")) [
            | inl type ↦
                stripe_captures_from externals request body event env w has signed parsed type
            | inr other ↦ inl (ground arith, ground arith)
          ]
        ]
      ]
]
