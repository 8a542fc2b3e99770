-- ===== src/Tests.antt =====
-- The theorems applied to concrete tables, calls and worlds.
pub mod Data
pub mod Units
pub mod Holds
pub mod Payments
pub mod Checkouts
pub mod Workers
pub mod Webhooks
pub mod Accounts
pub mod Logins
pub mod Gateways
pub mod Requests
pub mod Systems
pub mod Processes
