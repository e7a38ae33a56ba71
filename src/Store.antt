-- ===== src/Store.antt =====
-- internal/store: the datastore behind the HTTP layer, as its in-memory implementation has it.
pub mod State
pub mod Order
pub mod Pratiche
pub mod Documenti
pub mod Note
pub mod Users
pub mod Payments
pub mod Sessions
pub mod Events
pub mod Ips
pub mod Calls
pub mod History
