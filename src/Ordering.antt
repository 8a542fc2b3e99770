-- ===== src/Ordering.antt =====
-- internal/service/order/service.go: from a set of seat holds to a paid order.
pub mod Create
pub mod Payment
pub mod Confirm
pub mod Fulfil
pub mod Transaction
pub mod Settlement
pub mod Refunds
pub mod Replay
pub mod Categories
pub mod Pricing
pub mod Stored
pub mod Checkout
pub mod Authorize
