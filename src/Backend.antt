-- ===== src/Backend.antt =====
-- The service, apps/backend. `AppError` is apps/backend/src/middleware/errorHandler.ts's, with
-- the HTTP status and the code; the message for the reader is left out.
pub mod Refund
pub mod AppError
pub mod Dispute
pub mod Transfer
pub mod Changelog
pub mod Fraud
pub mod Webhook
pub mod Migrations
pub mod Breaches
pub mod Notification
pub mod Network
pub mod TrustlessWork
pub mod Executor
pub mod Auth
pub mod TransferRoutes
