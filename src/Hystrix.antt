-- ===== src/Hystrix.antt =====
-- The package closers/hystrix: the error percentage that opens a circuit, and its half-open probes.
pub mod Opener
pub mod Closer
pub mod Factory
