-- ===== src/Common.antt =====
-- common: what the services share.
pub mod RateLimit
pub mod Csv
pub mod Phone
pub mod Ssrf
pub mod Pagination
pub mod WebhookClaims
pub mod MetaRetry
