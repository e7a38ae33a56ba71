-- ===== src/Http.antt =====
-- The HTTP layer, internal/httpapi.
pub mod RateLimit
pub mod LoginLock
pub mod IpPolicy
pub mod IpRules
pub mod Reply
pub mod Access
pub mod Pratiche
pub mod Documenti
pub mod Signature
pub mod Pagamenti
pub mod Webhook
pub mod Backoffice
pub mod Tokens
pub mod Auth
pub mod Refresh
pub mod Password
pub mod Recovery
pub mod Registration
pub mod Pagination
pub mod TwoFactor
pub mod Gate
pub mod Invites
pub mod Ranking
pub mod Events
