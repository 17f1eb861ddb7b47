-- ===== src/Circuit.antt =====
-- The package circuit: the circuit breaker itself.
pub mod Errors
pub mod Logic
pub mod World
pub mod Transitions
pub mod Execute
pub mod Delivery
pub mod Config
pub mod Configure
pub mod Closers
pub mod Wrapper
