-- ===== src/SeatInventory.antt =====
-- Properties of the table event_seat_inventory under the statements of
-- internal/repository/postgres/inventory.go, sent by any number of sessions in any order.
pub mod Keys
pub mod Calls
pub mod Oversell
pub mod Machine
pub mod Expiry
pub mod Backlog
pub mod Reclaimed
