-- ===== src/Tests.antt =====
-- Concrete databases and requests, for the orders route, the payments and the whole server.
pub mod Samples
pub mod OrderRuns
pub mod PaymentRuns
pub mod MockRuns
pub mod ServerRuns
pub mod LimiterRuns
pub mod CertRuns
pub mod MatchRuns
