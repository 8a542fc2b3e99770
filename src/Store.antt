-- ===== src/Store.antt =====
-- The world that the services act on, and the calls that leave the process. A handler is a
-- function of the world that returns its result or an error. Every call of Postgres, of the
-- clock, of the uuid generator and of the payment gateway takes one tick, and what those
-- services answer at a tick is a parameter, `Env`. A statement at which `fails` holds is one
-- that the driver reports as an error, and changes no table.
pub mod Action
pub mod Inventory
pub mod InventoryRepo
pub mod OrderRepo
pub mod PaymentRepo
pub mod NotificationRepo
pub mod EventRepo
pub mod UserRepo
pub mod TokenRepo
pub mod SeatCategoryRepo
pub mod TenantRepo
pub mod VenueRepo
