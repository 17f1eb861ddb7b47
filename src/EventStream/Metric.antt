-- ===== src/EventStream/Metric.antt =====
-- metriceventstream/metriceventstream.go: the metric that the dashboard is told of a circuit. The fields
-- that are always the same string are left out, and a name is a number. `none` is a panic. Percentiles of
-- one snapshot are pure, so the source's second computation of the timings is the first one's result.
pub mod Timings
pub mod Snapshots
pub mod Looking
use circuit.Prelude.{
  ℕ, ℤ, pos, Bool, true, false, not, Option, none, some, ◌>>=◌, List, [], map, get_elem?, set,
  add64, div64, wrap64, ◌-ℤ◌,
}
use circuit.Faststats.TimedCheck.{FuncId}
use circuit.Faststats.RollingBuckets.{RollingBuckets}
use circuit.Faststats.RollingCounter.{RollingCounter, rolling_sum_at, get_total_sum}
use circuit.Faststats.RollingPercentile.{snapshot_at}
use circuit.Faststats.SortedDurations.{Float64, percentile, mean}
use circuit.Rolling.Config.{zero_run_stats_config, read_clock}
use circuit.Rolling.RunStats.{RunStats, errors_at, legitimate_attempts_at, error_percentage_at}
use circuit.Rolling.RunStats.Counting.{
  Kind, successes, rejects, failures, short_circuits, timeouts, bad_requests, interrupts,
}
use circuit.Rolling.FallbackStats.{FallbackStats}
use circuit.Rolling.StatFactory.{
  Heap, Collector, foreign, find_command_metrics, find_fallback_metrics,
}
use circuit.Circuit.World.{shows_open}
use circuit.Circuit.Configure.{Circuit, RunListener, open_to_close, closed_to_open, listener}
use circuit.Hystrix.Opener.{Opener}
use circuit.Hystrix.Closer.{Closer}

pub record StreamCmdLatency : Type 0 where
  pub timing0 : ℤ
  pub timing25 : ℤ
  pub timing50 : ℤ
  pub timing75 : ℤ
  pub timing90 : ℤ
  pub timing95 : ℤ
  pub timing99 : ℤ
  pub timing995 : ℤ
  pub timing100 : ℤ

pub record StreamCmdMetric : Type 0 where
  pub name : ℕ
  pub time : ℤ
  pub reporting_hosts : ℤ
  pub request_count : ℤ
  pub error_count : ℤ
  pub error_pct : ℤ
  pub rolling_count_collapsed_requests : ℤ
  pub rolling_count_exceptions_thrown : ℤ
  pub rolling_count_responses_from_cache : ℤ
  pub rolling_count_fallback_failure : ℤ
  pub rolling_count_fallback_rejection : ℤ
  pub rolling_count_fallback_success : ℤ
  pub rolling_count_failure : ℤ
  pub rolling_count_semaphore_rejected : ℤ
  pub rolling_count_short_circuited : ℤ
  pub rolling_count_success : ℤ
  pub rolling_count_thread_pool_rejected : ℤ
  pub rolling_count_timeout : ℤ
  pub rolling_count_bad_requests : ℤ
  pub current_concurrent_execution_count : ℤ
  pub latency_execute_mean : ℤ
  pub latency_total_mean : ℤ
  pub latency_execute : StreamCmdLatency
  pub latency_total : StreamCmdLatency
  pub circuit_breaker_request_volume_threshold : ℤ
  pub circuit_breaker_sleep_window : ℤ
  pub circuit_breaker_error_threshold_percent : ℤ
  pub execution_isolation_thread_timeout : ℤ
  pub execution_isolation_semaphore_max_concurrent_requests : ℤ
  pub fallback_isolation_semaphore_max_concurrent_requests : ℤ
  pub rolling_stats_window : ℤ
  pub circuit_breaker_force_open : Bool
  pub circuit_breaker_force_closed : Bool
  pub circuit_breaker_enabled : Bool
  pub execution_isolation_thread_interrupt_on_timeout : Bool
  pub request_cache_enabled : Bool
  pub request_log_enabled : Bool
  pub circuit_breaker_open : Bool
  pub total_count_fallback_success : ℤ
  pub total_count_fallback_failure : ℤ
  pub total_count_fallback_rejection : ℤ
  pub total_count_success : ℤ
  pub total_count_semaphore_rejected : ℤ
  pub total_count_failure : ℤ
  pub total_count_short_circuited : ℤ
  pub total_count_timeout : ℤ
  pub total_count_bad_requests : ℤ

-- `d.Nanoseconds() / time.Millisecond.Nanoseconds()`.
abbrev pub millis : ℤ → ℤ
millis d = div64 d (pos 1_000_000)

-- The nanoseconds since 1970, which wrap around.
abbrev pub unix_nano : ℤ → ℤ
unix_nano t = wrap64 (t -ℤ pos 62_135_596_800_000_000_000)

-- The counter of a kind of outcome.
abbrev pub counter : Kind → RunStats → RollingCounter
counter successes r = r.successes
counter rejects r = r.err_concurrency_limit_rejects
counter failures r = r.err_failures
counter short_circuits r = r.err_short_circuits
counter timeouts r = r.err_timeouts
counter bad_requests r = r.err_bad_requests
counter interrupts r = r.err_interrupts

abbrev pub put_counter : Kind → RollingCounter → RunStats → RunStats
put_counter successes c r = record r { successes = c }
put_counter rejects c r = record r { err_concurrency_limit_rejects = c }
put_counter failures c r = record r { err_failures = c }
put_counter short_circuits c r = record r { err_short_circuits = c }
put_counter timeouts c r = record r { err_timeouts = c }
put_counter bad_requests c r = record r { err_bad_requests = c }
put_counter interrupts c r = record r { err_interrupts = c }

-- `RollingSumAt` of a counter of the statistics.
unfoldable pub sum_at : Kind → ℤ → RunStats → Option (ℤ × RunStats)
sum_at kind now r = rolling_sum_at (counter kind r) now >>= λ (s, c). some (s, put_counter kind c r)

-- What is read of the statistics, in this order.
pub record Readings (f : Float64) : Type 0 where
  pub snap : List ℤ
  pub attempts : ℤ
  pub interrupted : ℤ
  pub errors : ℤ
  pub percentage : f.F
  pub fallback_success : ℤ
  pub fallback_failure : ℤ
  pub fallback_rejection : ℤ
  pub success : ℤ
  pub rejected : ℤ
  pub failure : ℤ
  pub short_circuited : ℤ
  pub timeout : ℤ
  pub bad_request : ℤ
  pub interrupted_again : ℤ
  pub timings : StreamCmdLatency

module _ (f : Float64) where
  -- `snap.Percentile(p)` in milliseconds.
  abbrev pub timing : List ℤ → f.F → Option ℤ
  timing snap p = percentile f snap p >>= λ d. some (millis d)

  -- The constant 99.5 is exactly 199 halves.
  unfoldable pub generate_latency_timings : List ℤ → Option StreamCmdLatency
  generate_latency_timings snap = do
    timing0 ← timing snap (f.of_int (pos 0))
    timing25 ← timing snap (f.of_int (pos 25))
    timing50 ← timing snap (f.of_int (pos 50))
    timing75 ← timing snap (f.of_int (pos 75))
    timing90 ← timing snap (f.of_int (pos 90))
    timing95 ← timing snap (f.of_int (pos 95))
    timing99 ← timing snap (f.of_int (pos 99))
    timing995 ← timing snap (f.div (f.of_int (pos 199)) (f.of_int (pos 2)))
    timing100 ← timing snap (f.of_int (pos 100))
    some (record {
      timing0 = timing0;
      timing25 = timing25;
      timing50 = timing50;
      timing75 = timing75;
      timing90 = timing90;
      timing95 = timing95;
      timing99 = timing99;
      timing995 = timing995;
      timing100 = timing100;
    })
