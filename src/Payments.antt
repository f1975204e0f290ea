-- ===== src/Payments.antt =====
-- server/src/services/payments, routes/payments.js and jobs/payments.js.
pub mod Event
pub mod Refund
pub mod Process
pub mod Gateway
pub mod Mock
pub mod MockRuns
pub mod MockSettles
pub mod Webhook
pub mod Intents
pub mod Confirm
pub mod Refunds
pub mod Jobs
pub mod Handled
pub mod Steps
pub mod RouteSteps
pub mod Recorded
pub mod Retried
pub mod Atomic
pub mod Settled
pub mod Serve
pub mod ServeSteps
