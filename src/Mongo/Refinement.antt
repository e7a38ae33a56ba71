-- ===== src/Mongo/Refinement.antt =====
-- The two datastores of internal/store, one in memory and one in a database, side by side.
pub mod Keyed
pub mod Tokens
pub mod Simulation
pub mod Writes
pub mod Reads
pub mod Keys
pub mod Documenti
pub mod Pratiche
pub mod Methods
pub mod Creation
pub mod Payments
pub mod Sessions
pub mod Revocation
pub mod Purges
pub mod Listings
pub mod Users
pub mod Ips
pub mod Requests
pub mod Sequences
pub mod Replies
pub mod Lists
