-- ===== src/Faststats.antt =====
-- The package faststats: statistics over a rolling window of time.
pub mod RollingBuckets
pub mod RollingCounter
pub mod TimedCheck
pub mod DurationsBucket
pub mod RollingPercentile
pub mod SortedDurations
