-- ===== src/Rolling.antt =====
-- The package metrics/rolling: statistics of a circuit over rolling windows.
pub mod Config
pub mod RunStats
pub mod FallbackStats
pub mod StatFactory
