-- ===== src/System/Checkouts.antt =====
-- The methods of the order service as histories of statements on event_seat_inventory.
use ticketing_backend.Prelude.{
  ℕ, ◌+◌, ◌++◌, if◌then◌else◌, ◌≡◌, refl, inl, inr, arith, String, Option, none, some, List, [],
  ◌∷◌, Bool-cases, Option-cases, leb, ◌&&◌, is_value, ◌==◌,
}
use ticketing_backend.Domain.{
  Error, Result, ok, err, EventSeatInventory, Order, OrderItem, OrderStatus, Payment, PaymentStatus,
  is_held, is_pending, is_paid,
}
use ticketing_backend.Domain.Events.{EventTicketCategory}
use ticketing_backend.Store.OrderRepo
use ticketing_backend.Store.EventRepo
use ticketing_backend.Domain.Amounts.{add}
use ticketing_backend.Store.Action.{World, Env, Action, pure, with_tx, new_uuid}
use ticketing_backend.Ordering.Create.{
  HeldItem, Draft, check_expiry, load_categories, price_row, add_item, add_items, store_order,
  order_tx, create_order, find_category, empty_draft, add_price, tighter, count_up, order_item,
  new_order, set_order_id, otherwise,
}
use ticketing_backend.Ordering.Payment.{
  intent_metadata, create_intent, refund, authorize_payment, new_payment,
}
use ticketing_backend.Ordering.Confirm.{
  confirm_items, fulfil, refund_and_fail, settle, confirm_unpaid, confirm_payment, confirmation,
  compensated,
}
use ticketing_backend.System.Services.{asks}
use ticketing_backend.System.Histories.{
  Follows, Follows-refl, Follows-trans, Sends, quietly, bind-Sends, end-Sends, guard-Sends,
  or_fail-Sends, with_tx-Sends, inventory_of,
}
use ticketing_backend.System.Statements.{
  confirm_sale-Sends, get_unit-Sends, create_notification-Sends,
}
use ticketing_backend.System.OrderStatements.{
  create_payment-Sends, get_payment-Sends, set_payment-Sends, get_order-Sends, order_of_key-Sends,
  list_items-Sends, set_order-Sends, create_order-Sends,
}

check_expiry-Sends : (expiry : Option ℕ) → Sends inventory_of (check_expiry expiry)
unfolding check_expiry
check_expiry-Sends none = end-Sends inventory_of _
check_expiry-Sends (some t) = quietly inventory_of λ env w. ground arith

load_categories-Sends : (t e : ℕ) (d : Draft) → Sends inventory_of (load_categories t e d)
unfolding load_categories EventRepo.list_ticket_categories
load_categories-Sends t e d = quietly inventory_of λ env w.
    elim (Option-cases (d.category_cache e)) [
      | inl missing ↦ ground arith
      | inr (categories, cached) ↦ ground arith
    ]

price_row-Sends :
    (t : ℕ) (item : HeldItem) (row : EventSeatInventory) (categories : List EventTicketCategory)
    (d : Draft)
    → Sends inventory_of (price_row t item row categories d)
unfolding price_row
price_row-Sends t item row categories d =
    bind-Sends inventory_of
      (or_fail-Sends (find_category row.event_ticket_category_id categories) Error.other)
      λ category.
        bind-Sends inventory_of
          (guard-Sends
            (leb (d.category_count row.event_ticket_category_id + 1) category.max_per_order)
            Error.invalid_input)
          λ _.
            bind-Sends inventory_of
              (or_fail-Sends (add_price d.index d.subtotal category.price) Error.invalid_input)
              λ subtotal. bind-Sends inventory_of (asks {m = new_uuid} λ env w. refl) λ id.
                end-Sends inventory_of (
                  ok (record (count_up row.event_ticket_category_id d) {
                    index = d.index + 1;
                    subtotal = subtotal;
                    order_items = d.order_items ++ order_item id t row item category.price ∷ [];
                  }))

add_item-Sends : (t : ℕ) (item : HeldItem) (d : Draft) → Sends inventory_of (add_item t item d)
unfolding add_item
add_item-Sends t item d = bind-Sends inventory_of (get_unit-Sends t item.inventory_id) λ row.
    bind-Sends inventory_of
      (guard-Sends (is_held row.status && is_value row.hold_token item.hold_token) Error.expired)
      λ _. bind-Sends inventory_of (check_expiry-Sends row.hold_expires_at) λ _.
        bind-Sends inventory_of
          (load_categories-Sends t row.event_id
            (record d { tightest_expiry = tighter d.tightest_expiry row.hold_expires_at }))
          λ loaded. price_row-Sends t item row loaded.0 loaded.1

add_items-Sends :
    (t : ℕ) (items : List HeldItem) (d : Draft) → Sends inventory_of (add_items t items d)
unfolding add_items
add_items-Sends t [] d = end-Sends inventory_of _
add_items-Sends t (item ∷ items) d =
    bind-Sends inventory_of (add_item-Sends t item d) λ d'. add_items-Sends t items d'

store_order-Sends :
    (t user : ℕ) (key : String) (d : Draft) → Sends inventory_of (store_order t user key d)
unfolding store_order
store_order-Sends t user key d =
    bind-Sends inventory_of
      (or_fail-Sends (add d.subtotal (record { cents = 0; currency = d.subtotal.currency }))
        Error.invalid_input)
      λ total. bind-Sends inventory_of (asks {m = new_uuid} λ env w. refl) λ id.
        create_order-Sends
          (new_order id t user key (record { cents = 0; currency = d.subtotal.currency }) total d)
          (set_order_id id d.order_items)

order_tx-Sends :
    (t user : ℕ) (key : String) (items : List HeldItem)
    → Sends inventory_of (order_tx t user key items)
unfolding order_tx
order_tx-Sends t user key items =
    bind-Sends inventory_of (add_items-Sends t items empty_draft)
      λ d. store_order-Sends t user key d

otherwise-Sends :
    (found : Result Order) {create : Action Order}
    → Sends inventory_of create
    → Sends inventory_of (otherwise found create)
otherwise-Sends (ok existing) h = end-Sends inventory_of (ok existing)
otherwise-Sends (err Error.not_found) h = h
otherwise-Sends (err e) h = end-Sends inventory_of (err e)

pub checkout-Sends :
    (t user : ℕ) (key : String) (items : List HeldItem)
    → Sends inventory_of (create_order t user key items)
unfolding create_order
checkout-Sends t user key [] = end-Sends inventory_of _
checkout-Sends t user key (item ∷ items) = record {
  sends = λ env w.
      let (found, w') = OrderRepo.get_by_idempotency_key t key env w in
      Follows-trans ((order_of_key-Sends t key).sends env w) (
        (otherwise-Sends found (with_tx-Sends _ (order_tx-Sends t user key (item ∷ items)))).sends
          env w');
}

pub authorize-Sends : (t order : ℕ) → Sends inventory_of (authorize_payment t order)
unfolding authorize_payment create_intent
authorize-Sends t order = bind-Sends inventory_of (get_order-Sends t order) λ o.
    bind-Sends inventory_of (guard-Sends (is_pending o.status) Error.invalid_input) λ _.
      bind-Sends inventory_of
        (asks {m = create_intent o.total o.idempotency_key (intent_metadata o)} λ env w. refl)
        λ intent. bind-Sends inventory_of (asks {m = new_uuid} λ env w. refl) λ id.
          bind-Sends inventory_of (create_payment-Sends (new_payment id t o intent.0)) λ _.
            bind-Sends inventory_of (set_order-Sends t o.id OrderStatus.awaiting_payment)
              λ _. end-Sends inventory_of (ok intent.1)

confirm_items-Sends : (t : ℕ) (its : List OrderItem) → Sends inventory_of (confirm_items t its)
unfolding confirm_items
confirm_items-Sends t [] = end-Sends inventory_of _
confirm_items-Sends t (it ∷ its) =
    bind-Sends inventory_of (confirm_sale-Sends t it.event_seat_inventory_id it.hold_token) λ sold.
      bind-Sends inventory_of (guard-Sends sold Error.expired) λ _. confirm_items-Sends t its

fulfil-Sends :
    (t : ℕ) (order : Order) (its : List OrderItem) → Sends inventory_of (fulfil t order its)
unfolding fulfil
fulfil-Sends t order its = bind-Sends inventory_of (confirm_items-Sends t its) λ _.
    bind-Sends inventory_of (set_order-Sends t order.id OrderStatus.paid)
      λ _. create_notification-Sends (confirmation t order its)

refund-Sends :
    (t : ℕ) (order : Order) (payment : Payment)
    → Sends inventory_of (refund_and_fail t order payment)
unfolding refund_and_fail refund
refund-Sends t order payment =
    bind-Sends inventory_of
      (asks {m = refund payment.provider_payment_id payment.amount} λ env w. refl)
      λ id.
        bind-Sends inventory_of (set_payment-Sends t payment.id PaymentStatus.refunded "" (some id))
          λ _. set_order-Sends t order.id OrderStatus.expired

compensated-Sends :
    (done : Result (Unit {0}) × World) → inventory_of (compensated done).1 ≡ inventory_of done.1
compensated-Sends (ok u, w) = refl
compensated-Sends (err e, w) = refl

settle-Sends :
    (t : ℕ) (order : Order) (payment : Payment) (r : Result (Unit {0})) (env : Env) (w : World)
    → Follows env (inventory_of w) (inventory_of (settle t order payment (r, w) env).1)
unfolding settle
settle-Sends t order payment (ok u) env w =
    (set_payment-Sends t payment.id PaymentStatus.captured "" none).sends env w
settle-Sends t order payment (err Error.expired) env w =
    Follows-trans ((refund-Sends t order payment).sends env w)
      (Follows-refl (compensated-Sends (refund_and_fail t order payment env w)))
settle-Sends t order payment (err e) env w = Follows-refl refl

settled-Sends :
    (t : ℕ) (order : Order) (payment : Payment) (its : List OrderItem)
    → Sends inventory_of (λ env w. settle t order payment (with_tx (fulfil t order its) env w) env)
settled-Sends t order payment its = record {
  sends = λ env w.
      let done = with_tx (fulfil t order its) env w in
      Follows-trans ((with_tx-Sends (fulfil t order its) (fulfil-Sends t order its)).sends env w)
        (settle-Sends t order payment done.0 env done.1);
}

unpaid-Sends : (t payment : ℕ) (order : Order) → Sends inventory_of (confirm_unpaid t payment order)
unfolding confirm_unpaid
unpaid-Sends t id order = bind-Sends inventory_of (get_payment-Sends t id) λ payment.
    bind-Sends inventory_of (guard-Sends (payment.order_id == order.id) Error.invalid_input) λ _.
      bind-Sends inventory_of (list_items-Sends t order.id) λ its. settled-Sends t order payment its

confirm_found-Sends :
    (t payment : ℕ) (order : Order)
    → Sends inventory_of (if is_paid order.status then pure tt else confirm_unpaid t payment order)
confirm_found-Sends t payment order = elim (Bool-cases (is_paid order.status)) [
  | inl paid ↦ rw paid (end-Sends inventory_of (ok tt))
  | inr due ↦ rw due (unpaid-Sends t payment order)
]

pub confirm-Sends : (t order payment : ℕ) → Sends inventory_of (confirm_payment t order payment)
unfolding confirm_payment
confirm-Sends t order payment =
    bind-Sends inventory_of (get_order-Sends t order) λ o. confirm_found-Sends t payment o
