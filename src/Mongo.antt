-- ===== src/Mongo.antt =====
-- internal/store/mongo.go: the same datastore in a database.
pub mod Driver
pub mod Pratiche
pub mod Users
pub mod Payments
pub mod Sessions
pub mod Events
pub mod Ips
pub mod Tables
pub mod Server
pub mod Refinement
pub mod Races
