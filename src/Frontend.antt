-- ===== src/Frontend.antt =====
-- The web application, apps/frontend.
pub mod Dispute
pub mod Refund
pub mod Transfer
pub mod Changelog
pub mod Csv
pub mod Middleware
pub mod RateLimit
pub mod Retry
pub mod Moderation
