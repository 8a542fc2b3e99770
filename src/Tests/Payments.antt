-- ===== src/Tests/Payments.antt =====
-- Payments of the order, with its hold still good and with its hold swept.
use ticketing_backend.Prelude.{suc, ℕ, ◌≡◌, ◌≢◌, refl, ◌⊎◌, true, false, none, some, [], ◌∷◌, ◌++◌}
use ticketing_backend.Domain.{Error, ok, err, Order, OrderStatus, Payment, is_paid}
use ticketing_backend.Sql.{count_where, select_first, select_where, order_by}
use ticketing_backend.Store.Action.{World, Env, next}
use ticketing_backend.Store.OrderRepo
use ticketing_backend.Store.OrderRepo.{items_of}
use ticketing_backend.Store.PaymentRepo
use ticketing_backend.Store.Inventory
use ticketing_backend.SeatInventory.Calls.{unit_step}
use ticketing_backend.Ordering.Payment.{authorize_payment}
use ticketing_backend.Ordering.Confirm.{confirm_payment}
use ticketing_backend.Ordering.Fulfil.{sellable}
use ticketing_backend.Ordering.Settlement.{
  Undoes, refunded_tables, IsUnfulfilled, IsFulfilled, confirm_payment_atomic, found_order,
  found_payment,
}
use ticketing_backend.Ordering.Refunds.{
  confirm_payment_refunds, confirm_payment-ok, IsConfirmed, refund_call,
}
use ticketing_backend.Ordering.Replay.{
  IsDue, confirm_payment_succeeds, confirm_payment_compensates, confirm_payment_refunds_twice,
}
use ticketing_backend.Ordering.Authorize.{
  intent_call, authorize_payment_refuses, authorize_payment_once,
}
use ticketing_backend.Tests.Logins.{unary}
use ticketing_backend.Tests.Data.{
  order, payment, units-IsKeyed, tables, swept_tables, unpaid_tables, world_of, calm_env,
}

confirm_payment_atomic_example :
    Undoes 1 30 40 tables (confirm_payment 1 30 40 calm_env (world_of tables)).1.db
    ⊎ IsFulfilled 1 30 tables (confirm_payment 1 30 40 calm_env (world_of tables)).1.db
confirm_payment_atomic_example = confirm_payment_atomic 1 30 40 calm_env (world_of tables)

order-IsDue : IsDue 1 30 40 order payment tables
unfolding select_first
order-IsDue = record { has_order = refl; has_payment = refl; unpaid = refl; belongs = refl }

swept_order-IsDue : IsDue 1 30 40 order payment swept_tables
unfolding select_first
swept_order-IsDue = record { has_order = refl; has_payment = refl; unpaid = refl; belongs = refl }

order_sellable : sellable 1 (items_of 1 order.id tables) tables.inventory ≡ true
unfolding select_where order_by unit_step Inventory.confirm_sale count_where
order_sellable = refl

swept_unsellable : sellable 1 (items_of 1 order.id swept_tables) swept_tables.inventory ≡ false
unfolding select_where order_by unit_step Inventory.confirm_sale count_where
swept_unsellable = refl

confirm_payment_succeeds_example : (confirm_payment 1 30 40 calm_env (world_of tables)).0 ≡ ok tt
unfolding count_where
confirm_payment_succeeds_example =
    confirm_payment_succeeds 1 30 40 calm_env (world_of tables) {order = order} {payment = payment}
      (λ n. refl) order-IsDue (λ n. refl) order_sellable

abbrev AlreadyPaid : World → Type 0
AlreadyPaid w =
    (o : Order) × (found_order 1 30 w.db ≡ some o)
    × (is_paid o.status ≡ true)
    × ((confirm_payment 1 30 40 calm_env w).1 ≡ next w)

confirm_payment-ok_example :
    AlreadyPaid (world_of tables) ⊎ IsConfirmed 1 30 40 calm_env (world_of tables)
confirm_payment-ok_example =
    confirm_payment-ok 1 30 40 calm_env (world_of tables) units-IsKeyed
      confirm_payment_succeeds_example

confirm_payment_refunds_example :
    ((confirm_payment 1 30 40 calm_env (world_of swept_tables)).1.gateway_calls ≡ [])
    ⊎ ((o : Order) × (p : Payment) × (found_order 1 30 swept_tables ≡ some o)
        × (found_payment 1 40 swept_tables ≡ some p)
        × (is_paid o.status ≡ false)
        × (p.order_id ≡ o.id)
        × ((confirm_payment 1 30 40 calm_env (world_of swept_tables)).0 ≢ ok tt)
        × IsUnfulfilled swept_tables (confirm_payment 1 30 40 calm_env (world_of swept_tables)).1.db
        × ((confirm_payment 1 30 40 calm_env (world_of swept_tables)).1.gateway_calls
            ≡ refund_call p ∷ []))
confirm_payment_refunds_example = confirm_payment_refunds 1 30 40 calm_env (world_of swept_tables)

-- The provider gives each refund a new identifier: u for each tick.
abbrev accepting_env : Env
accepting_env = record calm_env { refund = λ n id amount. some (unary n) }

confirm_payment_compensates_example :
    let w' = (confirm_payment 1 30 40 accepting_env (world_of swept_tables)).1 in
    (n : ℕ) × (w'.tick ≡ suc (suc (suc n)))
    × ((confirm_payment 1 30 40 accepting_env (world_of swept_tables)).0 ≡ err Error.expired)
    × (w'.db ≡ refunded_tables 1 30 40 (unary n) swept_tables)
    × (w'.gateway_calls ≡ refund_call payment ∷ [])
confirm_payment_compensates_example =
    confirm_payment_compensates 1 30 40 accepting_env (world_of swept_tables) {order = order}
      {payment = payment} {refund_id = unary} (λ n. refl) (λ n. refl) swept_order-IsDue
      swept_unsellable

-- The provider refuses what it has refunded.
abbrev refusing_env : Env
refusing_env = record calm_env { refund = λ n id amount. none }

confirm_payment_refunds_twice_example :
    ((confirm_payment 1 30 40 accepting_env (world_of swept_tables)).1.gateway_calls
      ≡ refund_call payment ∷ [])
    × (let after = (confirm_payment 1 30 40 accepting_env (world_of swept_tables)).1 in
        (confirm_payment 1 30 40 refusing_env after).1.gateway_calls
        ≡ after.gateway_calls ++ refund_call payment ∷ [])
confirm_payment_refunds_twice_example =
    confirm_payment_refunds_twice 1 30 40 accepting_env refusing_env (world_of swept_tables)
      (confirm_payment 1 30 40 accepting_env (world_of swept_tables)).1 {order = order}
      {payment = payment} {refund_id = unary} (λ n. refl) (λ n. refl) (λ n. refl) swept_order-IsDue
      swept_unsellable refl

authorize_payment_refuses_example :
    (e : Error) × (authorize_payment 1 31 calm_env (world_of tables)
      ≡ (err e, next (world_of tables)))
unfolding select_first
authorize_payment_refuses_example = authorize_payment_refuses 1 31 calm_env (world_of tables) refl

authorize_payment_once_example :
    ((authorize_payment 1 30 calm_env (world_of unpaid_tables)).1.gateway_calls ≡ [])
    ⊎ ((o : Order) × (found_order 1 30 unpaid_tables ≡ some o)
        × (o.status ≡ OrderStatus.pending)
        × ((authorize_payment 1 30 calm_env (world_of unpaid_tables)).1.gateway_calls
            ≡ intent_call o ∷ []))
authorize_payment_once_example = authorize_payment_once 1 30 calm_env (world_of unpaid_tables)

pub authorized : (authorize_payment 1 30 calm_env (world_of unpaid_tables)).0 ≡ ok "secret"
unfolding authorize_payment OrderRepo.get_by_id select_first PaymentRepo.create count_where
    OrderRepo.update_status
authorized = refl
