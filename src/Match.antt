-- ===== src/Match.antt =====
-- server/src/routes/match.js and workers/match_worker.js, with the SQL functions that they call:
-- requests for a travel companion, and the sessions that pair two of them.
pub mod Pair
pub mod Statements
pub mod Session
pub mod Start
pub mod Poll
pub mod Cancel
pub mod Worker
pub mod Serve
pub mod Table
pub mod Keeps
pub mod Sound
pub mod Compatible
pub mod Search
pub mod Found
pub mod Handled
pub mod Runs
pub mod Partner
pub mod Owner
