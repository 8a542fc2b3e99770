-- ===== src/Ordering/Replay.antt =====
-- ConfirmPayment where no statement fails, by whether every hold is still good, and a second
-- delivery of the same webhook.
use ticketing_backend.Prelude.{
  ℕ, suc, ◌≡◌, refl, sym, ◌∙◌, ap, subst, String, true, false, some, List, [], ◌∷◌, ◌++◌, arith,
  ◌≢◌,
}
use ticketing_backend.Domain.{
  Error, Result, ok, err, Order, OrderItem, OrderStatus, is_paid, Payment, PaymentStatus,
}
use ticketing_backend.Sql.{count_where}
use ticketing_backend.Sql.Laws.{select-count, select-update_key}
use ticketing_backend.Store.Action.{Db, World, Env, GatewayCall, with_tx-err}
use ticketing_backend.Store.OrderRepo
use ticketing_backend.Store.OrderRepo.{is_order, items_of}
use ticketing_backend.Store.PaymentRepo
use ticketing_backend.Store.PaymentRepo.{is_payment}
use ticketing_backend.Store.NotificationRepo.{is_notification}
use ticketing_backend.Ordering.Confirm.{fulfil, settle, confirm_payment}
use ticketing_backend.Ordering.Fulfil.{sellable}
use ticketing_backend.Ordering.Transaction.{tx-ok, tx-frame, tx_unsellable, tx_sellable}
use ticketing_backend.Ordering.Settlement.{
  refunded_tables, order_key, payment_key, found_order, found_payment, ended, reaches, after_reads,
  confirm_payment_settles,
}
use ticketing_backend.Ordering.Refunds.{
  refund_call, settle-sends, settle-refunds, settle-ticks, settle-captures,
}

-- The order is found unpaid, with a payment that belongs to it.
pub record IsDue (t o p : ℕ) (order : Order) (payment : Payment) (db : Db) : Type 0 where
  pub has_order : found_order t o db ≡ some order
  pub has_payment : found_payment t p db ≡ some payment
  pub unpaid : is_paid order.status ≡ false
  pub belongs : payment.order_id ≡ order.id

abbrev pub IsCalm : Env → Type 0
IsCalm env = (n : ℕ) → env.fails n ≡ false

module _ (t o p : ℕ) (env : Env) (w : World) {order : Order} {payment : Payment} (calm : IsCalm env)
    (due : IsDue t o p order payment w.db) where
  abbrev due_items : List OrderItem
  due_items = items_of t order.id w.db

  reaches_due : reaches order payment env w ≡ true
  reaches_due = ground (arith, calm w.tick, calm (suc w.tick), calm (suc (suc w.tick)))

  settles :
      confirm_payment t o p env w
      ≡ settle t order payment (ended t order due_items env (after_reads w)) env
  settles = confirm_payment_settles t o p env w due.has_order due.has_payment reaches_due

  order_present : count_where (is_order t order.id) w.db.orders ≢ 0
  order_present =
      rw (order_key t o w.db due.has_order) (select-count (is_order t o) w.db.orders due.has_order)

  payment_present : count_where (is_payment t payment.id) w.db.payments ≢ 0
  payment_present =
      rw (payment_key t p w.db due.has_payment)
        (select-count (is_payment t p) w.db.payments due.has_payment)

  -- If no statement fails and every item's hold can still become a sale, ConfirmPayment succeeds
  -- for an order that is due, unless the identifier generated for the confirmation is taken.
  pub confirm_payment_succeeds :
      ((n : ℕ) → count_where (is_notification (env.new_uuid n)) w.db.notifications ≡ 0)
      → sellable t due_items w.db.inventory ≡ true
      → (confirm_payment t o p env w).0 ≡ ok tt
  confirm_payment_succeeds fresh enough =
      let x = ended t order due_items env (after_reads w) in
      let committed : x.0 ≡ ok tt =
        tx_sellable t order due_items env (after_reads w) calm fresh order_present enough in
      let tables = tx-ok t order due_items env (after_reads w) committed in
      let kept : x.1.db.payments ≡ w.db.payments = ap (λ (d : Db). d.payments) tables.1.2 in
      ap (λ (y : Result (Unit {0}) × World). y.0) settles
      ∙ rw committed (settle-captures t order payment env x.1 calm (rw kept payment_present))

  -- Where some item's hold is no longer good, one refund is asked for, whatever the provider answers.
  asks_refund :
      sellable t due_items w.db.inventory ≡ false
      → (confirm_payment t o p env w).1.gateway_calls ≡ w.gateway_calls ++ refund_call payment ∷ []
  asks_refund short =
      let x = ended t order due_items env (after_reads w) in
      let expired : x.0 ≡ err Error.expired =
        tx_unsellable t order due_items env (after_reads w) calm short in
      let kept : x.1.gateway_calls ≡ w.gateway_calls =
        tx-frame t order due_items env (after_reads w) in
      let Ended : Type 0 = Result (Unit {0}) × World in
      ap (λ (y : Ended). y.1.gateway_calls)
        (settles ∙ ap (λ (r : Result (Unit {0})). settle t order payment (r, x.1) env) expired)
      ∙ settle-sends t order payment env x.1
      ∙ ap (λ (l : List GatewayCall). l ++ refund_call payment ∷ []) kept

module _ (t o p : ℕ) (env : Env) (w : World) {order : Order} {payment : Payment}
    {refund_id : ℕ → String} (calm : IsCalm env)
    (accepts : (n : ℕ)
      → env.refund n payment.provider_payment_id payment.amount ≡ some (refund_id n))
    (due : IsDue t o p order payment w.db)
    (short : sellable t (items_of t order.id w.db) w.db.inventory ≡ false) where
  -- If no statement fails and the provider accepts the refund of the payment, but some item's hold
  -- is no longer good, ConfirmPayment of an order that is due ends in ErrExpired, having asked the provider once to refund the payment; the payment is then
  -- refunded with the identifier that the provider gave, the order expired, and every other table
  -- as it was.
  pub confirm_payment_compensates :
      let (r, w') = confirm_payment t o p env w in
      (n : ℕ) × (w'.tick ≡ suc (suc (suc n)))
      × (r ≡ err Error.expired)
      × (w'.db ≡ refunded_tables t o p (refund_id n) w.db)
      × (w'.gateway_calls ≡ w.gateway_calls ++ refund_call payment ∷ [])
  confirm_payment_compensates =
      let items = items_of t order.id w.db in
      let x = ended t order items env (after_reads w) in
      let expired : x.0 ≡ err Error.expired =
        tx_unsellable t order items env (after_reads w) calm short in
      let rolled_back : x.1.db ≡ w.db =
        with_tx-err (fulfil t order items) env (after_reads w) expired in
      let given = refund_id x.1.tick in
      let ticks =
        settle-ticks t order payment env x.1 calm (accepts x.1.tick)
          (rw rolled_back (payment_present t o p env w calm due)) in
      let refunds =
        settle-refunds t order payment env x.1 calm (accepts x.1.tick)
          (rw rolled_back (payment_present t o p env w calm due))
          (rw rolled_back (order_present t o p env w calm due)) in
      let whole =
        settles t o p env w calm due
        ∙ ap (λ (r : Result (Unit {0})). settle t order payment (r, x.1) env) expired in
      let Ended : Type 0 = Result (Unit {0}) × World in
      (
        x.1.tick,
        ap (λ (y : Ended). y.1.tick) whole ∙ ticks,
        ap (λ (y : Ended). y.0) whole ∙ refunds.0,
        ap (λ (y : Ended). y.1.db) whole
            ∙ refunds.1
            ∙ ap (λ (d : Db). refunded_tables t order.id payment.id given d) rolled_back
            ∙ ap (λ (n : ℕ). refunded_tables t n payment.id given w.db)
                (order_key t o w.db due.has_order)
            ∙ ap (λ (n : ℕ). refunded_tables t o n given w.db)
                (payment_key t p w.db due.has_payment),
        asks_refund t o p env w calm due short,
      )

  -- The order and the payment as they stand after the refund are due once more.
  IsDue-again :
      (n : ℕ)
      → IsDue t o p
          (OrderRepo.set_status OrderStatus.expired order)
          (PaymentRepo.set_status PaymentStatus.refunded "" (some (refund_id n)) payment)
          (refunded_tables t o p (refund_id n) w.db)
  IsDue-again n = record {
    has_order =
        select-update_key (is_order t o) (OrderRepo.set_status OrderStatus.expired) w.db.orders
          (λ x. refl)
        ∙ rw (due.has_order);
    has_payment =
        select-update_key (is_payment t p)
          (PaymentRepo.set_status PaymentStatus.refunded "" (some (refund_id n))) w.db.payments
          (λ x. refl)
        ∙ rw (due.has_payment);
    unpaid = refl;
    belongs = due.belongs;
  }

-- A webhook of an order that is due, with a hold that is no longer good, and where no statement
-- fails and the provider accepts the refund: delivered a second time, at any later time without
-- failing statements and on the tables that the first left, it sends a second request to refund
-- the same payment, whatever the provider answers to it. The order is 'expired' then and not
-- 'paid', and nothing looks at the payment's status.
pub confirm_payment_refunds_twice :
    (t o p : ℕ) (env again : Env) (w later : World) {order : Order} {payment : Payment}
    {refund_id : ℕ → String}
    → IsCalm env
    → IsCalm again
    → ((n : ℕ) → env.refund n payment.provider_payment_id payment.amount ≡ some (refund_id n))
    → IsDue t o p order payment w.db
    → sellable t (items_of t order.id w.db) w.db.inventory ≡ false
    → later.db ≡ (confirm_payment t o p env w).1.db
    → ((confirm_payment t o p env w).1.gateway_calls ≡ w.gateway_calls ++ refund_call payment ∷ [])
      × ((confirm_payment t o p again later).1.gateway_calls
          ≡ later.gateway_calls ++ refund_call payment ∷ [])
confirm_payment_refunds_twice t o p env again w later {order} {payment} {refund_id} calm calm'
      accepts due short same =
    let (n, _, _, left, asked) = confirm_payment_compensates t o p env w calm accepts due short in
    let expired = OrderRepo.set_status OrderStatus.expired order in
    let refunded = PaymentRepo.set_status PaymentStatus.refunded "" (some (refund_id n)) payment in
    let tables : refunded_tables t o p (refund_id n) w.db ≡ later.db = sym (same ∙ left) in
    (
      asked,
      asks_refund t o p again later {order = expired} {payment = refunded} calm'
          (subst (λ (d : Db). IsDue t o p expired refunded d) tables
            (IsDue-again t o p env w calm accepts due short n))
          (subst (λ (d : Db). sellable t (items_of t order.id d) d.inventory ≡ false) tables short),
    )
