-- ===== src/Ordering/Settlement.antt =====
-- What ConfirmPayment does on each of its branches.
use ticketing_backend.Prelude.{
  ℕ, suc, ◌≡◌, refl, ◌∙◌, ap, subst, String, ◌==◌, Bool, true, false, not, ◌&&◌, Option, some, List,
  arith, Bool-cases, Option-cases, inl, inr, ◌⊎◌,
}
use ticketing_backend.Domain.{
  Error, Result, ok, err, Order, OrderItem, OrderStatus, is_paid, Payment, PaymentStatus,
}
use ticketing_backend.Sql.{count_where, select_first, update_where}
use ticketing_backend.Sql.Laws.{select-first_true}
use ticketing_backend.Store.Action.{Db, World, Env, next, with_tx, with_tx-err}
use ticketing_backend.Store.OrderRepo
use ticketing_backend.Store.OrderRepo.{is_order, items_of}
use ticketing_backend.Store.PaymentRepo
use ticketing_backend.Store.PaymentRepo.{is_payment}
use ticketing_backend.Ordering.Payment.{refund}
use ticketing_backend.Ordering.Confirm.{
  compensated, fulfil, settle, refund_and_fail, confirm_unpaid, confirm_payment,
}
use ticketing_backend.Ordering.Fulfil.{Sells}
use ticketing_backend.Ordering.Transaction.{fulfilled, tx-ok}

abbrev pub found_order : ℕ → ℕ → Db → Option Order
found_order t o db = select_first (is_order t o) db.orders

abbrev pub found_payment : ℕ → ℕ → Db → Option Payment
found_payment t p db = select_first (is_payment t p) db.payments

-- No unit changed and no confirmation was enqueued.
abbrev pub IsUnfulfilled : Db → Db → Type 0
IsUnfulfilled db db' = (db'.inventory ≡ db.inventory) × (db'.notifications ≡ db.notifications)

-- The order's units are sold, the order is paid, and one confirmation is enqueued: the tables
-- are those of the committed transaction, but for the payment.
abbrev pub IsFulfilled : ℕ → ℕ → Db → Db → Type 0
IsFulfilled t o db db' =
    (order : Order) × (id : ℕ) × (now : ℕ) × (found_order t o db ≡ some order)
    × (is_paid order.status ≡ false)
    × Sells t (items_of t order.id db) db.inventory
    × (record db' { payments = db.payments } ≡ fulfilled t order (items_of t order.id db) id now db)

-- The tables after a refund: the payment refunded, the order expired, all else as it was.
abbrev pub refunded_tables : ℕ → ℕ → ℕ → String → Db → Db
refunded_tables t o p refund_id db = record db {
  payments =
      update_where (is_payment t p)
        (PaymentRepo.set_status PaymentStatus.refunded "" (some refund_id)) db.payments;
  orders = update_where (is_order t o) (OrderRepo.set_status OrderStatus.expired) db.orders;
}

-- Nothing has changed, or the payment is marked refunded and all else is as it was, except that
-- the order may be expired.
abbrev pub Undoes : ℕ → ℕ → ℕ → Db → Db → Type 0
Undoes t o p db db' =
    (db' ≡ db)
    ⊎ ((refund_id : String) × ((db'
            ≡ record (refunded_tables t o p refund_id db) { orders = db.orders })
          ⊎ (db' ≡ refunded_tables t o p refund_id db)))

compensated-db : (x : Result (Unit {0}) × World) → x.1.db ≡ (compensated x).1.db
compensated-db (ok u, w) = refl
compensated-db (err e, w) = refl

module _ (t : ℕ) (order : Order) (payment : Payment) (env : Env) where
  refund_and_fail-frame :
      (w : World) → IsUnfulfilled w.db (refund_and_fail t order payment env w).1.db
  unfolding refund_and_fail refund OrderRepo.update_status PaymentRepo.update_status
  refund_and_fail-frame w = ground arith

  -- The compensation goes as far as the payment, or the payment and the order, or nowhere.
  refund_and_fail-Undoes :
      (w : World) → Undoes t order.id payment.id w.db (refund_and_fail t order payment env w).1.db
  unfolding refund_and_fail refund OrderRepo.update_status PaymentRepo.update_status
  refund_and_fail-Undoes w =
      elim (Option-cases (env.refund w.tick payment.provider_payment_id payment.amount)) [
        | inl declined ↦ inl (ground arith)
        | inr (refund_id, accepted) ↦ elim (Bool-cases (env.fails (suc w.tick))) [
          | inl down ↦ inl (ground arith)
          | inr up ↦ inr (
            refund_id,
            elim (Bool-cases (count_where (is_payment t payment.id) w.db.payments == 0)) [
              | inl gone ↦ inl (ground arith)
              | inr there ↦ elim (Bool-cases (env.fails (suc (suc w.tick)))) [
                | inl down ↦ inl (ground arith)
                | inr up' ↦ inr (ground arith)
              ]
            ],
          )
        ]
      ]

  settle-Undoes :
      (x : Error) (w : World)
      → Undoes t order.id payment.id w.db (settle t order payment (err x, w) env).1.db
  unfolding settle
  settle-Undoes Error.expired w =
      subst (Undoes t order.id payment.id w.db)
        (compensated-db (refund_and_fail t order payment env w)) (refund_and_fail-Undoes w)
  settle-Undoes x w = inl refl

  -- Settling a transaction that has ended leaves inventory and outbox to the transaction.
  pub settle-frame :
      (r : Result (Unit {0})) (w : World)
      → IsUnfulfilled w.db (settle t order payment (r, w) env).1.db
  unfolding settle PaymentRepo.update_status
  settle-frame (ok u) w = ground arith
  settle-frame (err Error.expired) w = ground (arith, refund_and_fail-frame w)
  settle-frame (err e) w = ground arith

  pub settle-rest :
      (w : World)
      → record ((settle t order payment (ok tt, w) env).1.db) { payments = w.db.payments } ≡ w.db
  unfolding settle PaymentRepo.update_status
  settle-rest w = ground arith

abbrev pub ended : ℕ → Order → List OrderItem → Env → World → Result (Unit {0}) × World
ended t order items env w = with_tx (fulfil t order items) env w

-- The tables after the transaction and its settlement, from those before it.
abbrev pub Settled : ℕ → Order → Payment → List OrderItem → Db → Db → Type 0
Settled t order payment items db db' =
    Undoes t order.id payment.id db db'
    ⊎ ((id : ℕ) × (now : ℕ) × Sells t items db.inventory
        × (record db' { payments = db.payments } ≡ fulfilled t order items id now db))

pub Settled-by :
    (t : ℕ) (order : Order) (payment : Payment) (items : List OrderItem) (env : Env) (w : World)
    (r : Result (Unit {0}))
    → (ended t order items env w).0 ≡ r
    → Settled t order payment items w.db
        (settle t order payment (r, (ended t order items env w).1) env).1.db
Settled-by t order payment items env w (ok u) e =
    let done = tx-ok t order items env w e in
    let id = done.1.0 in
    let time = done.1.1 in
    let rest = settle-rest t order payment env (ended t order items env w).1 in
    inr (id, time, done.0, ap (λ (d : Db). record d { payments = w.db.payments }) (rest ∙ done.1.2))
Settled-by t order payment items env w (err x) e =
    let x' = (ended t order items env w).1 in
    let rolled_back = with_tx-err (fulfil t order items) env w e in
    inl (
      subst
        (λ (d : Db). Undoes t order.id payment.id d (settle t order payment (err x, x') env).1.db)
        rolled_back (settle-Undoes t order payment env x x'))

-- The three reads of ConfirmPayment succeed, and the order is to be settled.
abbrev pub reaches : Order → Payment → Env → World → Bool
reaches order payment env w =
    not (env.fails w.tick)
    && not (is_paid order.status)
    && not (env.fails (suc w.tick))
    && payment.order_id == order.id
    && not (env.fails (suc (suc w.tick)))

abbrev pub after_reads : World → World
after_reads w = next (next (next w))

module _ (t o p : ℕ) (env : Env) (w : World) where
  abbrev pub Reads : Type 0
  Reads =
      (((confirm_payment t o p env w).1.db ≡ w.db)
        × ((confirm_payment t o p env w).1.gateway_calls ≡ w.gateway_calls))
      ⊎ ((order : Order) × (payment : Payment) × (found_order t o w.db ≡ some order)
          × (found_payment t p w.db ≡ some payment)
          × (reaches order payment env w ≡ true))

  -- The method stops at its reads, or finds the order and its payment.
  pub reads_cases : Reads
  unfolding confirm_payment confirm_unpaid OrderRepo.get_by_id PaymentRepo.get_by_id
      OrderRepo.list_items
  reads_cases = elim (Option-cases (found_order t o w.db)) [
    | inl no_order ↦ inl (ground arith, ground arith)
    | inr (order, fo) ↦ elim (Option-cases (found_payment t p w.db)) [
      | inl no_payment ↦ inl (ground arith, ground arith)
      | inr (payment, fp) ↦ elim (Bool-cases (reaches order payment env w)) [
        | inl go ↦ inr (order, payment, fo, fp, go)
        | inr stop ↦ inl (ground arith, ground arith)
      ]
    ]
  ]

  -- Past the reads it runs the transaction and settles it.
  pub confirm_payment_settles :
      {order : Order} {payment : Payment}
      → found_order t o w.db ≡ some order
      → found_payment t p w.db ≡ some payment
      → reaches order payment env w ≡ true
      → confirm_payment t o p env w
        ≡ settle t order payment (ended t order (items_of t order.id w.db) env (after_reads w)) env
  unfolding confirm_payment confirm_unpaid OrderRepo.get_by_id PaymentRepo.get_by_id
      OrderRepo.list_items
  confirm_payment_settles {order} {payment} fo fp go = ground arith

pub order_key : (t o : ℕ) (db : Db) {order : Order} → found_order t o db ≡ some order → order.id ≡ o
order_key t o db found = ground (arith, select-first_true (is_order t o) db.orders found)

pub payment_key :
    (t p : ℕ) (db : Db) {payment : Payment} → found_payment t p db ≡ some payment → payment.id ≡ p
payment_key t p db found = ground (arith, select-first_true (is_payment t p) db.payments found)

-- Whatever statement fails, ConfirmPayment either has, for an order that was not paid before, sold
-- the units of all of its items, marked it paid and enqueued one confirmation, with no other table
-- than the payments changed besides; or it has done nothing of this: every table is as it was,
-- except that the payment may be marked refunded and, if so, the order expired.
pub confirm_payment_atomic :
    (t o p : ℕ) (env : Env) (w : World)
    → let db' = (confirm_payment t o p env w).1.db in
      Undoes t o p w.db db' ⊎ IsFulfilled t o w.db db'
confirm_payment_atomic t o p env w = elim (reads_cases t o p env w) [
  | inl (same, _) ↦ inl (inl same)
  | inr (order, payment, fo, fp, go) ↦
      let items = items_of t order.id w.db in
      let unpaid : is_paid order.status ≡ false = ground arith in
      let db' = (settle t order payment (ended t order items env (after_reads w)) env).1.db in
      rw (confirm_payment_settles t o p env w fo fp go)
        (elim (Settled-by t order payment items env (after_reads w) _ refl) [
          | inl undone ↦ inl (
              subst (λ i. Undoes t o i w.db db') (payment_key t p w.db fp)
                (subst (λ i. Undoes t i payment.id w.db db') (order_key t o w.db fo) undone))
          | inr (id, now, sells, tables) ↦ inr (order, id, now, fo, unpaid, sells, tables)
        ])
]
