-- ===== src/Lib.antt =====
-- TrueStub sells event tickets through escrows on Stellar. This library models the code that
-- decides what may happen to an escrow: on the client, in apps/frontend/src/lib and the middleware
-- before its pages, and in the service, in apps/backend/src (services, lib, db, and some of its
-- routes and middleware). The two keep separate in-memory stores and share no code; a page of the client calls
-- its own guards first, and the routes of the service call the services.
--
-- Files and code (paths from the repository's root):
-- - Common: passes on the libraries and holds Boolean tests, lists, texts as code points, and
--   the type `Result` with the monad of a call that reads and writes a store and may throw.
-- - Map: the `Map<string, V>` that each store is, as an association list in insertion order.
-- - Frontend.Dispute: apps/frontend/src/lib/dispute/dispute-state-machine.ts. `open_dispute` is
--   openDispute, and so on for escalate, resolve and withdraw; Types has the data, Table the
--   transitions, Calls one call, Invariant and Traces sequences of calls.
-- - Frontend.Refund: apps/frontend/src/lib/refund/refund-idempotency.ts; Claims is about
--   claimRefund, markRefundClaimed and updateRefundTxHash, Confirmations about
--   confirmRefundDetails and assertRefundConfirmed.
-- - Frontend.Transfer: apps/frontend/src/lib/transfer/atomic-transfer.ts.
-- - Frontend.Changelog: apps/frontend/src/lib/changelog/escrow-changelog.ts.
-- - Frontend.RateLimit: apps/frontend/src/lib/rate-limit.ts.
-- - Frontend.Retry: apps/frontend/src/lib/retry.ts.
-- - Frontend.Moderation: apps/frontend/src/lib/moderation/review-content-filter.ts.
-- - Frontend.Csv: apps/frontend/src/lib/exportToCSV.ts; Reader is a reader of such files, which the
--   program does not have, RoundTrip what it reads.
-- - Frontend.Middleware: apps/frontend/src/middleware.ts, which calls the limiter of
--   Frontend.RateLimit; Decisions has every answer, Roles the pages of one role.
-- - Backend.AppError: the class of apps/backend/src/middleware/errorHandler.ts.
-- - Backend.Refund: apps/backend/src/services/refund.service.ts; Once is about interleaved
--   claims, Validation about the payload.
-- - Backend.Dispute: apps/backend/src/services/dispute.service.ts; Machine and Traces are about
--   the transitions, Sla about escalated disputes that wait, Lists.Pages and Lists.Counts about
--   what is listed and counted.
-- - Backend.Transfer: apps/backend/src/services/ownership-transfer.service.ts; Serial is about
--   the lock and the outcome, Draining about the calls that wait, Owner about whom
--   a record names.
-- - Backend.Auth: apps/backend/src/middleware/auth.ts; Admin is about who passes.
-- - Backend.TransferRoutes: apps/backend/src/routes/transfers.ts, which joins Backend.Auth and
--   Backend.Transfer; Owner is about whom a record names, Actor about who may finalize.
-- - Backend.Changelog: apps/backend/src/services/changelog.service.ts; Replay is about the
--   events, WriteOnce about the entries.
-- - Backend.Webhook: apps/backend/src/routes/webhooks.ts. `begin`, `update_done` and `notify_done`
--   are the handler between its awaits, `deliver` one delivery alone; Answers is about the checks,
--   Replays and Capacity about deliveries that do not overlap, Overlap about those that do.
-- - Backend.Network: apps/backend/src/lib/network-guard.ts and the variables of
--   apps/backend/src/config/env.ts that decide where a refund is submitted.
-- - Backend.TrustlessWork: apps/backend/src/lib/trustless-work.ts; TestOnly is about what reaches
--   mainnet, Course about the three steps of a submission.
-- - Backend.Executor: TrustlessWorkRefundExecutor of refund.service.ts, which joins Backend.Network,
--   Backend.TrustlessWork and Backend.Refund.
-- - Backend.Notification: apps/backend/src/services/notification.service.ts; Course is
--   about a delivery and a whole send, Errors about which errors end one.
-- - Backend.Breaches: GET /api/disputes/sla/breaches of apps/backend/src/routes/disputes.ts, which
--   joins Backend.Dispute and Backend.Changelog.
-- - Backend.Migrations: apps/backend/src/db/migrationAudit.ts; Recorded is about what an audit
--   records, CommandLine about its arguments.
-- - Backend.Fraud: apps/backend/src/services/listing-fraud.service.ts; Tiers is about the assessment,
--   Alike about two listings, Fingerprint about listings with one fingerprint.
--
-- How the code is translated: a module-level store is an argument and a result; what a throwing
-- call has written stays visible, since the store stands beside the error. `new Date()` is the
-- argument `now`, in milliseconds. A function that awaits in the middle is split there into the
-- parts between which other calls run (Backend.Refund, Backend.Transfer, Backend.Webhook,
-- Backend.Breaches). Loops are structural recursion, the retry loop over the number of attempts
-- that are left, which the options of the call give, the delivery loop over the five that the
-- service makes; `read_pages` takes fuel, and as many pages as there are disputes are enough.
--
-- Parameters: case folding and Unicode decomposition (Frontend.Moderation), lower-casing and the
-- results of the operation that is retried (Frontend.Retry), the amounts of a refund with the test
-- that one is positive, what the executor answers (Backend.Refund), the copy that JSON makes of the
-- metadata of an entry (Backend.Changelog), the keyed hash (Backend.Webhook), the verifier
-- of tokens (Backend.Auth), the parser of URLs
-- (Backend.Network), the kit of Stellar and the answers of the remote service
-- (Backend.TrustlessWork), the store of notifications, whose file is missing, and the
-- random part of a wait (Backend.Notification), and `toLowerCase` wherever it is used.
--
-- Not modelled: error messages, except those that a failed refund stores; logging and Sentry, except
-- where they are what a call does; the pages and components of the
-- client; the other HTTP routes and middleware; the database; the services of listing alerts, whose
-- file does not parse, and of the resolver's balance; the comparison of floating-point amounts of
-- trustless-work.ts, which nothing calls;
-- the lists and pages of the changelog service and its appends that run at once;
-- the rates and the rounded mean of the dispute metrics; the clean-up job of the refund service
-- while claims are in flight.
pub mod Common
pub mod Map
pub mod Frontend
pub mod Backend
