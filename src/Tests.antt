-- ===== src/Tests.antt =====
-- Runs of the model at concrete inputs.
pub mod Data
pub mod Life
pub mod Payments
pub mod Mongo
pub mod Access
pub mod Accounts
pub mod Limits
pub mod Rules
pub mod Invites
pub mod Events
