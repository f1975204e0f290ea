-- ===== src/Auth.antt =====
-- server/src/services/authorize.js, middlewares/requireApprovedHost.js and the `ensureProfile`
-- helpers of the routes.
pub mod Authorize
pub mod Profile
pub mod Host
