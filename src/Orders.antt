-- ===== src/Orders.antt =====
-- server/src/routes/orders.js: the life of an order, its reviews and its lists.
pub mod View
pub mod Create
pub mod Accept
pub mod Service
pub mod Reviews
pub mod Browse
pub mod Step
pub mod Audit
pub mod Effect
pub mod Lifecycle
pub mod ServiceEffect
pub mod Serve
pub mod Handled
pub mod Timeout
pub mod Steps
pub mod TimeoutSteps
pub mod Keys
pub mod Sound
pub mod Guards
pub mod TimeoutDone
pub mod TimeoutSpares
pub mod Booking
