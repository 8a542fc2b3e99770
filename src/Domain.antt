-- ===== src/Domain.antt =====
-- internal/domain: the entities, their status enums and the sentinel errors. A uuid.UUID and a
-- time.Time are natural numbers: the first are only compared, the second are instants on one
-- scale (nanoseconds). An idempotency key, a currency and a provider's identifier are texts.
pub mod Amounts
pub mod Events
pub mod Accounts
pub mod Venues
use ticketing_backend.Prelude.{ℕ, zero, suc, String, Bool, true, false, Option, List}
use Amounts.{Money}

-- uuid.Nil
abbrev pub nil_uuid : ℕ
nil_uuid = 0

-- The sentinels that errors.Is tests for: those of internal/domain, of internal/service/inventory
-- and internal/service/auth, and of internal/repository/redis. A wrapped sentinel (%w) is that
-- sentinel; `other` is an error that wraps none of them, such as a driver's.
pub data Error : Type 0 where
  not_found conflict invalid_input unavailable expired : Error
  not_admitted rate_limited lock_contention not_queued : Error
  invalid_credentials weak_password refresh_expired refresh_revoked account_inactive : Error
  other : Error

pub data Result {ℓ} (A : Type ℓ) : Type ℓ where
  ok : A → Result A
  err : Error → Result A

pub data InventoryStatus : Type 0 where
  available held sold void : InventoryStatus

abbrev pub is_available : InventoryStatus → Bool
is_available InventoryStatus.available = true
is_available _ = false

abbrev pub is_held : InventoryStatus → Bool
is_held InventoryStatus.held = true
is_held _ = false

pub record EventSeatInventory : Type 0 where
  pub id : ℕ
  pub tenant_id : ℕ
  pub event_id : ℕ
  pub event_ticket_category_id : ℕ
  pub seat_id : Option ℕ
  pub status : InventoryStatus
  pub hold_token : Option ℕ
  pub held_by_user_id : Option ℕ
  pub hold_expires_at : Option ℕ

pub record InventoryCounts : Type 0 where
  pub available : ℕ
  pub held : ℕ
  pub sold : ℕ
  pub void : ℕ

pub data OrderStatus : Type 0 where
  pending awaiting_payment paid cancelled expired refunded : OrderStatus

abbrev pub is_pending : OrderStatus → Bool
is_pending OrderStatus.pending = true
is_pending _ = false

abbrev pub is_paid : OrderStatus → Bool
is_paid OrderStatus.paid = true
is_paid _ = false

pub record Order : Type 0 where
  pub id : ℕ
  pub tenant_id : ℕ
  pub user_id : ℕ
  pub status : OrderStatus
  pub idempotency_key : String
  pub subtotal : Money
  pub fees : Money
  pub total : Money
  pub expires_at : Option ℕ
  pub created_at : ℕ

pub record OrderItem : Type 0 where
  pub id : ℕ
  pub tenant_id : ℕ
  pub order_id : ℕ
  pub event_seat_inventory_id : ℕ
  pub hold_token : ℕ
  pub unit_price : Money
  pub created_at : ℕ

pub data PaymentProvider : Type 0 where
  stripe adyen : PaymentProvider

pub data PaymentStatus : Type 0 where
  pending authorized captured failed refunded partially_refunded : PaymentStatus

-- `raw_response` is the stored response, `none` for SQL's NULL: the code stores the refund's
-- identifier there and nothing else.
pub record Payment : Type 0 where
  pub id : ℕ
  pub tenant_id : ℕ
  pub order_id : ℕ
  pub provider : PaymentProvider
  pub provider_payment_id : String
  pub status : PaymentStatus
  pub amount : Money
  pub idempotency_key : String
  pub raw_response : Option String

pub data NotificationType : Type 0 where
  order_confirmation : NotificationType

pub data NotificationStatus : Type 0 where
  pending sent failed : NotificationStatus

abbrev pub is_unsent : NotificationStatus → Bool
is_unsent NotificationStatus.pending = true
is_unsent _ = false

-- The payload is the one that the order service writes.
pub record Payload : Type 0 where
  pub order_id : ℕ
  pub item_count : ℕ
  pub total_cents : ℕ
  pub currency : String

pub record Notification : Type 0 where
  pub id : ℕ
  pub tenant_id : ℕ
  pub user_id : ℕ
  pub type : NotificationType
  pub payload : Payload
  pub status : NotificationStatus
  pub attempts : ℕ
  pub last_error : Option Error
  pub created_at : ℕ
  pub sent_at : Option ℕ

pub record EmailMessage : Type 0 where
  pub to : String
  pub subject : String
  pub body : String
