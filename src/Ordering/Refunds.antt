-- ===== src/Ordering/Refunds.antt =====
-- When ConfirmPayment succeeds, and when it pays the money back.
use ticketing_backend.Prelude.{
  ℕ, suc, ◌≡◌, refl, ◌∙◌, ap, subst, String, true, false, none, some, List, [], ◌∷◌, ◌++◌, arith,
  Bool-cases, Option-cases, inl, inr, ◌⊎◌, ◌≢◌, All,
}
use ticketing_backend.Domain.{
  Error, Result, ok, err, Order, OrderStatus, is_paid, Payment, PaymentStatus,
}
use ticketing_backend.Sql.{update_where, count_where}
use ticketing_backend.Store.Action.{Db, World, Env, GatewayCall, next, with_tx-err}
use ticketing_backend.Store.OrderRepo
use ticketing_backend.Store.OrderRepo.{is_order, items_of}
use ticketing_backend.Store.PaymentRepo
use ticketing_backend.Store.PaymentRepo.{is_payment}
use ticketing_backend.SeatInventory.Keys.{IsKeyed}
use ticketing_backend.Ordering.Payment.{refund}
use ticketing_backend.Ordering.Confirm.{
  fulfil, settle, refund_and_fail, confirm_unpaid, confirm_payment,
}
use ticketing_backend.Ordering.Fulfil.{IsSold, Sells-IsSold}
use ticketing_backend.Ordering.Transaction.{tx-ok, tx-frame}
use ticketing_backend.Ordering.Settlement.{
  found_order, found_payment, IsUnfulfilled, ended, reaches, after_reads, reads_cases,
  confirm_payment_settles, settle-frame, settle-rest,
}

abbrev pub refund_call : Payment → GatewayCall
refund_call payment = GatewayCall.refund payment.provider_payment_id payment.amount

module _ (t : ℕ) (order : Order) (payment : Payment) (env : Env) where
  pub settle-sends :
      (w : World)
      → (settle t order payment (err Error.expired, w) env).1.gateway_calls
        ≡ w.gateway_calls ++ refund_call payment ∷ []
  unfolding settle refund_and_fail refund OrderRepo.update_status PaymentRepo.update_status
  settle-sends w = ground arith

  -- Only the compensation of an expired hold sends a refund, and it sends one.
  pub settle-calls :
      (r : Result (Unit {0})) (w : World)
      → ((settle t order payment (r, w) env).1.gateway_calls ≡ w.gateway_calls)
        ⊎ ((r ≡ err Error.expired)
            × ((settle t order payment (r, w) env).0 ≢ ok tt)
            × ((settle t order payment (r, w) env).1.gateway_calls
                ≡ w.gateway_calls ++ refund_call payment ∷ []))
  unfolding settle refund_and_fail refund OrderRepo.update_status PaymentRepo.update_status
  settle-calls (ok u) w = inl (ground arith)
  settle-calls (err Error.expired) w = inr (refl, (λ h. ground arith), settle-sends w)
  settle-calls (err e) w = inl (ground arith)

  -- The compensation, where no statement fails and the provider accepts the refund.
  pub settle-refunds :
      (w : World) {refund_id : String}
      → ((n : ℕ) → env.fails n ≡ false)
      → env.refund w.tick payment.provider_payment_id payment.amount ≡ some refund_id
      → count_where (is_payment t payment.id) w.db.payments ≢ 0
      → count_where (is_order t order.id) w.db.orders ≢ 0
      → ((settle t order payment (err Error.expired, w) env).0 ≡ err Error.expired)
        × ((settle t order payment (err Error.expired, w) env).1.db ≡ record (w.db) {
          payments =
              update_where
                (is_payment t payment.id)
                (PaymentRepo.set_status PaymentStatus.refunded "" (some refund_id))
                w.db.payments;
          orders =
              update_where
                (is_order t order.id)
                (OrderRepo.set_status OrderStatus.expired)
                w.db.orders;
        })
  unfolding settle refund_and_fail refund OrderRepo.update_status PaymentRepo.update_status
  settle-refunds w calm accepts has_payment has_order = (
    ground (arith, calm (suc w.tick), calm (suc (suc w.tick))),
    ground (arith, calm (suc w.tick), calm (suc (suc w.tick))),
  )

  -- It takes three ticks, of which the refund is the first.
  pub settle-ticks :
      (w : World) {refund_id : String}
      → ((n : ℕ) → env.fails n ≡ false)
      → env.refund w.tick payment.provider_payment_id payment.amount ≡ some refund_id
      → count_where (is_payment t payment.id) w.db.payments ≢ 0
      → (settle t order payment (err Error.expired, w) env).1.tick ≡ suc (suc (suc w.tick))
  unfolding settle refund_and_fail refund OrderRepo.update_status PaymentRepo.update_status
  settle-ticks w calm accepts has_payment =
      ground (arith, calm (suc w.tick), calm (suc (suc w.tick)))

  pub settle-captures :
      (w : World)
      → ((n : ℕ) → env.fails n ≡ false)
      → count_where (is_payment t payment.id) w.db.payments ≢ 0
      → (settle t order payment (ok tt, w) env).0 ≡ ok tt
  unfolding settle PaymentRepo.update_status
  settle-captures w calm has_payment = ground (arith, calm w.tick)

  settle-ok :
      (r : Result (Unit {0})) (w : World)
      → (settle t order payment (r, w) env).0 ≡ ok tt
      → (r ≡ ok tt)
        × ((settle t order payment (r, w) env).1.db.payments
            ≡ update_where
                (is_payment t payment.id)
                (PaymentRepo.set_status PaymentStatus.captured "" none)
                w.db.payments)
  unfolding settle PaymentRepo.update_status
  settle-ok (ok tt) w h = (refl, ground arith)
  settle-ok (err Error.expired) w h = absurd (ground arith)
  settle-ok (err e) w h = cc

-- The provider is asked for at most one refund by a call, for the amount of the payment that was
-- named, and only where the order was found unpaid and the payment belongs to it. The call then
-- reports no success, no unit has changed and no confirmation was enqueued.
pub confirm_payment_refunds :
    (t o p : ℕ) (env : Env) (w : World)
    → let (r, w') = confirm_payment t o p env w in
      (w'.gateway_calls ≡ w.gateway_calls)
      ⊎ ((order : Order) × (payment : Payment) × (found_order t o w.db ≡ some order)
          × (found_payment t p w.db ≡ some payment)
          × (is_paid order.status ≡ false)
          × (payment.order_id ≡ order.id)
          × (r ≢ ok tt)
          × IsUnfulfilled w.db w'.db
          × (w'.gateway_calls ≡ w.gateway_calls ++ refund_call payment ∷ []))
confirm_payment_refunds t o p env w = elim (reads_cases t o p env w) [
  | inl (_, quiet) ↦ inl quiet
  | inr (order, payment, fo, fp, go) ↦
      let items = items_of t order.id w.db in
      let x = ended t order items env (after_reads w) in
      let kept = tx-frame t order items env (after_reads w) in
      let unpaid : is_paid order.status ≡ false = ground arith in
      let belongs : payment.order_id ≡ order.id = ground arith in
      rw (confirm_payment_settles t o p env w fo fp go)
        (elim (settle-calls t order payment env x.0 x.1) [
          | inl quiet ↦ inl (quiet ∙ kept)
          | inr (expired, refused, sent) ↦
              let rolled_back = with_tx-err (fulfil t order items) env (after_reads w) expired in
              let frame = settle-frame t order payment env x.0 x.1 in
              inr (
                order,
                payment,
                fo,
                fp,
                unpaid,
                belongs,
                refused,
                (
                  frame.0 ∙ ap (λ (d : Db). d.inventory) rolled_back,
                  frame.1 ∙ ap (λ (d : Db). d.notifications) rolled_back,
                ),
                sent ∙ ap (λ (l : List GatewayCall). l ++ refund_call payment ∷ []) kept,
              )
        ])
]

module _ (t o p : ℕ) (env : Env) (w : World) where
  -- What a call that reports success has done.
  abbrev pub IsConfirmed : Type 0
  IsConfirmed =
      let w' = (confirm_payment t o p env w).1 in
      (order : Order) × (payment : Payment) × (found_order t o w.db ≡ some order)
      × (found_payment t p w.db ≡ some payment)
      × (payment.order_id ≡ order.id)
      × All (IsSold t w'.db.inventory) (items_of t order.id w.db)
      × (w'.db.orders
          ≡ update_where (is_order t order.id) (OrderRepo.set_status OrderStatus.paid) w.db.orders)
      × (w'.db.payments
          ≡ update_where (is_payment t payment.id)
              (PaymentRepo.set_status PaymentStatus.captured "" none) w.db.payments)

  success_cases :
      (confirm_payment t o p env w).0 ≡ ok tt
      → ((order : Order) × (found_order t o w.db ≡ some order)
          × (is_paid order.status ≡ true)
          × ((confirm_payment t o p env w).1 ≡ next w))
        ⊎ ((order : Order) × (payment : Payment) × (found_order t o w.db ≡ some order)
            × (found_payment t p w.db ≡ some payment)
            × (reaches order payment env w ≡ true))
  unfolding confirm_payment confirm_unpaid OrderRepo.get_by_id PaymentRepo.get_by_id
      OrderRepo.list_items
  success_cases h = elim (Option-cases (found_order t o w.db)) [
    | inl no_order ↦ absurd (ground arith)
    | inr (order, fo) ↦ elim (Bool-cases (is_paid order.status)) [
      | inl paid ↦ inl (order, fo, paid, ground arith)
      | inr unpaid ↦ elim (Option-cases (found_payment t p w.db)) [
        | inl no_payment ↦ absurd (ground arith)
        | inr (payment, fp) ↦ inr (order, payment, fo, fp, ground arith)
      ]
    ]
  ]

  confirmed :
      {order : Order} {payment : Payment}
      → IsKeyed w.db.inventory
      → found_order t o w.db ≡ some order
      → found_payment t p w.db ≡ some payment
      → reaches order payment env w ≡ true
      → (confirm_payment t o p env w).0 ≡ ok tt
      → IsConfirmed
  confirmed {order} {payment} keyed fo fp go h =
      let items = items_of t order.id w.db in
      let x = ended t order items env (after_reads w) in
      let path = confirm_payment_settles t o p env w fo fp go in
      let settled = settle-ok t order payment env x.0 x.1 (subst (λ y. y.0 ≡ ok tt) path h) in
      let done = tx-ok t order items env (after_reads w) settled.0 in
      let tables = settle-rest t order payment env x.1 ∙ done.1.2 in
      let whole =
        path ∙ ap (λ (r : Result (Unit {0})). settle t order payment (r, x.1) env) settled.0 in
      let Ended : Type 0 = Result (Unit {0}) × World in
      let units =
        ap (λ (y : Ended). y.1.db.inventory) whole ∙ ap (λ (d : Db). d.inventory) tables in
      (
        order,
        payment,
        fo,
        fp,
        ground arith,
        rw units (Sells-IsSold t items w.db.inventory keyed done.0),
        ap (λ (y : Ended). y.1.db.orders) whole ∙ ap (λ (d : Db). d.orders) tables,
        ap (λ (y : Ended). y.1.db.payments) path
            ∙ settled.1
            ∙ ap
                (λ (d : Db).
                  update_where (is_payment t payment.id)
                    (PaymentRepo.set_status PaymentStatus.captured "" none) d.payments)
                done.1.2,
      )

  -- ConfirmPayment reports success only if the order was paid already, and then nothing at all
  -- has changed, or if the unit of every item of the order is now sold, the order is marked paid
  -- and the payment captured.
  pub confirm_payment-ok :
      IsKeyed w.db.inventory
      → (confirm_payment t o p env w).0 ≡ ok tt
      → ((order : Order) × (found_order t o w.db ≡ some order)
          × (is_paid order.status ≡ true)
          × ((confirm_payment t o p env w).1 ≡ next w))
        ⊎ IsConfirmed
  confirm_payment-ok keyed h = elim (success_cases h) [
    | inl already ↦ inl already
    | inr (order, payment, fo, fp, go) ↦ inr (confirmed keyed fo fp go h)
  ]
