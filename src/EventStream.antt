-- ===== src/EventStream.antt =====
-- The package metriceventstream: what the dashboard is told of a circuit, and the streams to its clients.
pub mod Metric
pub mod Command
pub mod Streams
