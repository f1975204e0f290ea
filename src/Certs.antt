-- ===== src/Certs.antt =====
-- server/src/routes/hostCertifications.js and adminHostCertifications.js: the certification of
-- hosts, from the draft to the decision.
pub mod Documents
pub mod State
pub mod Validate
pub mod Draft
pub mod Submit
pub mod Review
pub mod Decide
pub mod Serve
pub mod RoundTrip
pub mod Guards
pub mod Step
pub mod Register
pub mod Handled
pub mod Reads
pub mod Reviewed
pub mod Dispatched
pub mod Coherent
pub mod Runs
