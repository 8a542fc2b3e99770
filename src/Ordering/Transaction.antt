-- ===== src/Ordering/Transaction.antt =====
-- The transaction of ConfirmPayment as a whole.
use ticketing_backend.Prelude.{
  ℕ, suc, ◌≡◌, sym, ◌∙◌, subst, true, false, List, [], ◌∷◌, ◌++◌, arith, ◌≢◌,
}
use ticketing_backend.Domain.{Error, ok, err, Order, OrderItem, OrderStatus}
use ticketing_backend.Sql.{update_where, count_where}
use ticketing_backend.Store.Action.{Db, World, Env, next, with_tx, with_tx-ok, with_tx_calm}
use ticketing_backend.Store.OrderRepo
use ticketing_backend.Store.OrderRepo.{is_order, set_status}
use ticketing_backend.Store.NotificationRepo
use ticketing_backend.Store.NotificationRepo.{new_row, is_notification}
use ticketing_backend.Ordering.Confirm.{confirm_items, confirmation, fulfil}
use ticketing_backend.Ordering.Fulfil.{
  sell, Sells, sellable, confirm_items-ok, confirm_items-frame, confirm_items_total,
}

-- The tables after a transaction that committed.
abbrev pub fulfilled : ℕ → Order → List OrderItem → ℕ → ℕ → Db → Db
fulfilled t order items id now db = record db {
  inventory = sell t items db.inventory;
  orders = update_where (is_order t order.id) (set_status OrderStatus.paid) db.orders;
  notifications = db.notifications ++ new_row id now (confirmation t order items) ∷ [];
}

-- Every item was sold, the order was marked paid and one confirmation was enqueued.
abbrev pub Fulfilled : ℕ → Order → List OrderItem → Db → Db → Type 0
Fulfilled t order items db db' =
    Sells t items db.inventory × ((id : ℕ) × (now : ℕ) × (db' ≡ fulfilled t order items id now db))

module _ (t : ℕ) (order : Order) (items : List OrderItem) (env : Env) (w : World) where
  abbrev sold_world : World
  sold_world = (confirm_items t items env w).1

  fulfil-ok :
      (fulfil t order items env w).0 ≡ ok tt
      → Fulfilled t order items w.db (fulfil t order items env w).1.db
  unfolding fulfil OrderRepo.update_status NotificationRepo.create
  fulfil-ok h =
      let looped : (confirm_items t items env w).0 ≡ ok tt = ground arith in
      let done = confirm_items-ok t items env w looped in
      (
        done.0,
        (
          env.new_uuid (suc sold_world.tick),
          env.clock (suc (suc sold_world.tick)),
          ground (arith, done.1),
        ),
      )

  pub fulfil-frame : (fulfil t order items env w).1.gateway_calls ≡ w.gateway_calls
  unfolding fulfil OrderRepo.update_status NotificationRepo.create
  fulfil-frame = ground (arith, confirm_items-frame t items env w)

module _ (t : ℕ) (order : Order) (items : List OrderItem) (env : Env) (w : World) where
  pub tx-ok :
      (with_tx (fulfil t order items) env w).0 ≡ ok tt
      → Fulfilled t order items w.db (with_tx (fulfil t order items) env w).1.db
  tx-ok h =
      let body = with_tx-ok (fulfil t order items) env w h in
      subst (Fulfilled t order items w.db) (sym body.1)
        (fulfil-ok t order items env (next w) body.0)

  pub tx-frame : (with_tx (fulfil t order items) env w).1.gateway_calls ≡ w.gateway_calls
  unfolding with_tx
  tx-frame = ground (arith, fulfil-frame t order items env (next w))

  -- Where no statement fails and not every item can be sold, the transaction ends in ErrExpired.
  pub tx_unsellable :
      ((n : ℕ) → env.fails n ≡ false)
      → sellable t items w.db.inventory ≡ false
      → (with_tx (fulfil t order items) env w).0 ≡ err Error.expired
  unfolding fulfil
  tx_unsellable calm short =
      let loop = confirm_items_total t items env (next w) calm in
      with_tx_calm (fulfil t order items) env w calm ∙ ground (arith, loop)

  -- Where no statement fails, every item can be sold, and the order is there, it commits, unless
  -- the generated identifier of the confirmation is taken.
  pub tx_sellable :
      ((n : ℕ) → env.fails n ≡ false)
      → ((n : ℕ) → count_where (is_notification (env.new_uuid n)) w.db.notifications ≡ 0)
      → count_where (is_order t order.id) w.db.orders ≢ 0
      → sellable t items w.db.inventory ≡ true
      → (with_tx (fulfil t order items) env w).0 ≡ ok tt
  unfolding fulfil OrderRepo.update_status NotificationRepo.create
  tx_sellable calm fresh present enough =
      let loop = confirm_items_total t items env (next w) calm in
      let looped : (confirm_items t items env (next w)).0 ≡ ok tt = ground arith in
      let done = confirm_items-ok t items env (next w) looped in
      let w1 = (confirm_items t items env (next w)).1 in
      with_tx_calm (fulfil t order items) env w calm
      ∙ ground (arith, done.1, calm w1.tick, calm (suc (suc w1.tick)), fresh (suc w1.tick))
