-- ===== src/Ordering/Authorize.antt =====
-- What AuthorizePayment asks of the provider and what it leaves in the tables.
use ticketing_backend.Prelude.{
  ℕ, ◌≡◌, refl, ◌∙◌, ap, arith, ◌⊎◌, inl, inr, String, Bool, true, false, Option, none, some, [],
  ◌∷◌, ◌++◌, ◌==◌, if◌then◌else◌, Bool-cases, Option-cases,
}
use ticketing_backend.Domain.{Error, ok, err, Order, OrderStatus, is_pending}
use ticketing_backend.Sql.{count_where, select_first, update_where}
use ticketing_backend.Sql.Laws.{select-update_key, updated, select-first_true, none-selected}
use ticketing_backend.Store.Action.{next, World, Env, GatewayCall}
use ticketing_backend.Store.OrderRepo
use ticketing_backend.Store.OrderRepo.{is_order, set_status}
use ticketing_backend.Store.PaymentRepo
use ticketing_backend.Ordering.Settlement.{found_order}
use ticketing_backend.Ordering.Payment.{
  intent_metadata, new_payment, create_intent, authorize_payment,
}

-- The request for an intent over an order's total, under its key and with its metadata.
abbrev pub intent_call : Order → GatewayCall
intent_call order =
    GatewayCall.create_intent order.total order.idempotency_key (intent_metadata order)

abbrev pub may_pay : Option Order → Bool
may_pay none = false
may_pay (some order) = is_pending order.status

-- An order that is not there or not pending gets an error: the provider is asked nothing, and no
-- table changes.
pub authorize_payment_refuses :
    (t o : ℕ) (env : Env) (w : World)
    → may_pay (found_order t o w.db) ≡ false
    → ((e : Error) × (authorize_payment t o env w ≡ (err e, next w)))
unfolding authorize_payment OrderRepo.get_by_id
authorize_payment_refuses t o env w h = elim (Option-cases (found_order t o w.db)) [
  | inl absent ↦ elim (Bool-cases (env.fails w.tick)) [
    | inl down ↦ (Error.other, ground arith)
    | inr calm ↦ (Error.not_found, ground arith)
  ]
  | inr (order, found) ↦ elim (Bool-cases (env.fails w.tick)) [
    | inl down ↦ (Error.other, ground arith)
    | inr calm ↦ (Error.invalid_input, ground arith)
  ]
]

-- Whatever AuthorizePayment ends in, it has sent the provider at most one request, and that is an
-- intent over the total of the order, which is pending, under the order's key and with the
-- identifiers of the order and its tenant.
pub authorize_payment_once :
    (t o : ℕ) (env : Env) (w : World)
    → let calls = (authorize_payment t o env w).1.gateway_calls in
      (calls ≡ w.gateway_calls)
      ⊎ ((order : Order) × (found_order t o w.db ≡ some order)
          × (order.status ≡ OrderStatus.pending)
          × (calls ≡ w.gateway_calls ++ intent_call order ∷ []))
unfolding authorize_payment create_intent OrderRepo.get_by_id OrderRepo.update_status
    PaymentRepo.create PaymentRepo.insert_payment
authorize_payment_once t o env w = elim (Option-cases (found_order t o w.db)) [
  | inl absent ↦ inl (ground arith)
  | inr (order, found) ↦ elim (Bool-cases (env.fails w.tick)) [
    | inl down ↦ inl (ground arith)
    | inr calm ↦ elim (Bool-cases (is_pending order.status)) [
      | inl pending ↦ inr (order, found, ground arith, ground arith)
      | inr other ↦ inl (ground arith)
    ]
  ]
]

pub authorize_payment-ok :
    (t o : ℕ) (env : Env) (w : World) {secret : String}
    → (authorize_payment t o env w).0 ≡ ok secret
    → let w' = (authorize_payment t o env w).1 in
      (order : Order) × (id : ℕ) × (intent : String) × (found_order t o w.db ≡ some order)
      × (order.status ≡ OrderStatus.pending)
      × (env.create_intent (next w).tick order.total order.idempotency_key (intent_metadata order)
          ≡ some (intent, secret))
      × (found_order t o w'.db ≡ some (set_status OrderStatus.awaiting_payment order))
      × (w'.db.payments ≡ w.db.payments ++ new_payment id t order intent ∷ [])
      × (w'.gateway_calls ≡ w.gateway_calls ++ intent_call order ∷ [])
unfolding authorize_payment create_intent OrderRepo.get_by_id OrderRepo.update_status
    PaymentRepo.create PaymentRepo.insert_payment
authorize_payment-ok t o env w h = elim (Option-cases (found_order t o w.db)) [
  | inl absent ↦ absurd (ground arith)
  | inr (order, found) ↦
      elim (Option-cases (
        env.create_intent (next w).tick order.total order.idempotency_key
          (intent_metadata order))) [
            | inl declined ↦ absurd (ground arith)
            | inr ((intent, secret), made) ↦
                let k = env.new_uuid (next (next w)).tick in
                let id = if k == 0 then env.new_uuid (next (next (next w))).tick else k in
                let named : order.id ≡ o =
                  ground (arith, select-first_true (is_order t o) w.db.orders {x = order} found) in
                let again =
                  select-update_key (is_order t o) (set_status OrderStatus.awaiting_payment)
                    w.db.orders (λ x. refl) in
                let orders : (authorize_payment t o env w).1.db.orders
                    ≡ update_where (is_order t order.id) (set_status OrderStatus.awaiting_payment)
                        w.db.orders =
                  ground arith in
                let by_id = λ (i : ℕ). select_first (is_order t o) (
                  update_where (is_order t i) (set_status OrderStatus.awaiting_payment)
                    w.db.orders) in
                let after =
                  ap (select_first (is_order t o)) orders
                  ∙ ap by_id named
                  ∙ again
                  ∙ ap (updated (λ x. true) (set_status OrderStatus.awaiting_payment)) found in
                (
                  order,
                  id,
                  intent,
                  found,
                  ground arith,
                  ground arith,
                  after,
                  ground arith,
                  ground arith,
                )
          ]
]

-- Where it succeeds, the tenant had no payment under the order's key.
pub authorize_payment_first :
    (t o : ℕ) (env : Env) (w : World) {secret : String} {order : Order}
    → (authorize_payment t o env w).0 ≡ ok secret
    → found_order t o w.db ≡ some order
    → select_first (PaymentRepo.has_key t order.idempotency_key) w.db.payments ≡ none
unfolding authorize_payment create_intent OrderRepo.get_by_id OrderRepo.update_status
    PaymentRepo.create PaymentRepo.insert_payment
authorize_payment_first t o env w {order = order} h found =
    elim (Option-cases
      (env.create_intent (next w).tick order.total order.idempotency_key (intent_metadata order))) [
        | inl declined ↦ absurd (ground arith)
        | inr ((intent, secret), made) ↦
            let k = env.new_uuid (next (next w)).tick in
            let id = if k == 0 then env.new_uuid (next (next (next w))).tick else k in
            let new = new_payment id t order intent in
            let apart : count_where (PaymentRepo.payment_collides new) w.db.payments ≡ 0 =
              ground arith in
            none-selected (PaymentRepo.has_key t order.idempotency_key)
              (PaymentRepo.payment_collides new) w.db.payments (λ p key. ground arith) apart
      ]
