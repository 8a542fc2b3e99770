-- ===== src/Ordering/Confirm.antt =====
-- Service.ConfirmPayment and its compensating action refundAndFail.
use ticketing_backend.Prelude.{ℕ, none, some, List, [], ◌∷◌, ◌==◌, length, if◌then◌else◌}
use ticketing_backend.Domain.{
  Error, Result, ok, err, Order, OrderItem, OrderStatus, is_paid, Payment, PaymentStatus,
  Notification, NotificationType, NotificationStatus, nil_uuid,
}
use ticketing_backend.Store.InventoryRepo
use ticketing_backend.Store.OrderRepo
use ticketing_backend.Store.PaymentRepo
use ticketing_backend.Store.NotificationRepo
use ticketing_backend.Store.Action.{World, Env, Action, pure, guard, ◌>>=◌, ◌>>◌, with_tx}
use ticketing_backend.Ordering.Payment.{refund}

-- Every item's hold becomes a sale, or the first that cannot ends the loop.
unfoldable pub confirm_items : ℕ → List OrderItem → Action (Unit {0})
confirm_items tenant_id [] = pure tt
confirm_items tenant_id (it ∷ its) = do
  sold ← InventoryRepo.confirm_sale tenant_id it.event_seat_inventory_id it.hold_token
  guard sold Error.expired
  confirm_items tenant_id its

-- The confirmation that is enqueued. The columns that the table fills in are left empty here.
abbrev pub confirmation : ℕ → Order → List OrderItem → Notification
confirmation tenant_id order items = record {
  id = nil_uuid;
  tenant_id = tenant_id;
  user_id = order.user_id;
  type = NotificationType.order_confirmation;
  payload = record {
    order_id = order.id;
    item_count = length items;
    total_cents = order.total.cents;
    currency = order.total.currency;
  };
  status = NotificationStatus.pending;
  attempts = 0;
  last_error = none;
  created_at = 0;
  sent_at = none;
}

-- The body of the transaction.
unfoldable pub fulfil : ℕ → Order → List OrderItem → Action (Unit {0})
unfolding confirm_items
fulfil tenant_id order items = do
  confirm_items tenant_id items
  OrderRepo.update_status tenant_id order.id OrderStatus.paid
  NotificationRepo.create (confirmation tenant_id order items)

unfoldable pub refund_and_fail : ℕ → Order → Payment → Action (Unit {0})
refund_and_fail tenant_id order payment = do
  refund_id ← refund payment.provider_payment_id payment.amount
  PaymentRepo.update_status tenant_id payment.id PaymentStatus.refunded "" (some refund_id)
  OrderRepo.update_status tenant_id order.id OrderStatus.expired

-- The error of a refund that fails is wrapped; that of the confirmation is then only printed.
abbrev pub compensated : Result (Unit {0}) × World → Result (Unit {0}) × World
compensated (ok _, w) = (err Error.expired, w)
compensated (err e, w) = (err e, w)

unfoldable pub settle :
    ℕ → Order → Payment → Result (Unit {0}) × World → Env → Result (Unit {0}) × World
settle tenant_id order payment (ok _, w) env =
    PaymentRepo.update_status tenant_id payment.id PaymentStatus.captured "" none env w
settle tenant_id order payment (err Error.expired, w) env =
    compensated (refund_and_fail tenant_id order payment env w)
settle tenant_id order payment (err e, w) env = (err e, w)

unfoldable pub confirm_unpaid : ℕ → ℕ → Order → Action (Unit {0})
unfolding settle
confirm_unpaid tenant_id payment_id order = do
  payment ← PaymentRepo.get_by_id tenant_id payment_id
  guard (payment.order_id == order.id) Error.invalid_input
  items ← OrderRepo.list_items tenant_id order.id
  λ env w. settle tenant_id order payment (with_tx (fulfil tenant_id order items) env w) env

unfoldable pub confirm_payment : ℕ → ℕ → ℕ → Action (Unit {0})
confirm_payment tenant_id order_id payment_id = do
  order ← OrderRepo.get_by_id tenant_id order_id
  if is_paid order.status then pure tt else confirm_unpaid tenant_id payment_id order
