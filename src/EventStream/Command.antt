-- ===== src/EventStream/Command.antt =====
-- metriceventstream/metriceventstream.go: how the metric of a circuit is collected. `none` is a panic.
pub mod Reading
pub mod Collecting
use circuit.Prelude.{
  ℕ, ℤ, pos, Bool, true, false, not, Option, none, some, ◌>>=◌, List, [], map, get_elem?, set,
  add64, div64, wrap64, ◌-ℤ◌,
}
use circuit.Faststats.TimedCheck.{FuncId}
use circuit.Faststats.RollingBuckets.{RollingBuckets}
use circuit.Faststats.RollingCounter.{RollingCounter, rolling_sum_at, get_total_sum}
use circuit.Faststats.RollingPercentile.{snapshot_at}
use circuit.Faststats.SortedDurations.{Float64, percentile, mean}
use circuit.Rolling.Config.{zero_run_stats_config, read_clock}
use circuit.Rolling.RunStats.{RunStats, errors_at, legitimate_attempts_at, error_percentage_at}
use circuit.Rolling.RunStats.Counting.{
  Kind, successes, rejects, failures, short_circuits, timeouts, bad_requests, interrupts,
}
use circuit.Rolling.FallbackStats.{FallbackStats}
use circuit.Rolling.StatFactory.{
  Heap, Collector, foreign, find_command_metrics, find_fallback_metrics,
}
use circuit.Circuit.World.{shows_open}
use circuit.Circuit.Configure.{Circuit, RunListener, open_to_close, closed_to_open, listener}
use circuit.Hystrix.Opener.{Opener}
use circuit.Hystrix.Closer.{Closer}
use circuit.EventStream.Metric.{
  StreamCmdLatency, StreamCmdMetric, Readings, millis, unix_nano, sum_at, generate_latency_timings,
}

-- `RunStats{}` and `FallbackStats{}`.
abbrev zero_buckets : RollingBuckets
zero_buckets = record {
  num_buckets = pos 0;
  start_time = pos 0;
  bucket_width = pos 0;
  last_abs_index = pos 0;
}

abbrev zero_counter : RollingCounter
zero_counter = record { buckets = []; total_sum = pos 0; rolling_bucket = zero_buckets }

abbrev pub zero_run_stats : RunStats
zero_run_stats = record {
  successes = zero_counter;
  err_concurrency_limit_rejects = zero_counter;
  err_failures = zero_counter;
  err_short_circuits = zero_counter;
  err_timeouts = zero_counter;
  err_bad_requests = zero_counter;
  err_interrupts = zero_counter;
  latencies = record { buckets = []; rolling_bucket = zero_buckets };
  config = zero_run_stats_config;
}

abbrev pub zero_fallback_stats : FallbackStats
zero_fallback_stats = record {
  successes = zero_counter;
  err_concurrency_limit_rejects = zero_counter;
  err_failures = zero_counter;
}

-- A listener that is the circuit's own logic is no statistics.
abbrev pub run_collector : (FuncId → Collector) → RunListener → Collector
run_collector as_stats open_to_close = foreign 0
run_collector as_stats closed_to_open = foreign 0
run_collector as_stats (listener f) = as_stats f

-- The statistics at a pointer, or new ones for nil.
abbrev pub load : {A : Type 0} → A → Option ℕ → List A → Option A
load zero none xs = some zero
load zero (some i) xs = get_elem? xs i

abbrev pub store : {A : Type 0} → A → Option ℕ → List A → List A
store x none xs = xs
store x (some i) xs = set xs i x

module _ (f : Float64) where
  -- The calls of the literal's fields, which move the windows on.
  unfoldable pub take_readings :
      ℤ → RunStats → FallbackStats → Option (Readings f × RunStats × FallbackStats)
  take_readings now r fb = do
    (snap, latencies) ← snapshot_at r.latencies now
    (attempts, r₁) ← legitimate_attempts_at now (record r { latencies = latencies })
    (interrupted, r₂) ← sum_at interrupts now r₁
    (errors, r₃) ← errors_at now r₂
    (percentage, r₄) ← error_percentage_at f now r₃
    (fallback_success, f₁) ← rolling_sum_at fb.successes now
    (fallback_failure, f₂) ← rolling_sum_at fb.err_failures now
    (fallback_rejection, f₃) ← rolling_sum_at fb.err_concurrency_limit_rejects now
    (success, r₅) ← sum_at successes now r₄
    (rejected, r₆) ← sum_at rejects now r₅
    (failure, r₇) ← sum_at failures now r₆
    (short_circuited, r₈) ← sum_at short_circuits now r₇
    (timeout, r₉) ← sum_at timeouts now r₈
    (bad_request, r₁₀) ← sum_at bad_requests now r₉
    (interrupted', r₁₁) ← sum_at interrupts now r₁₀
    timings ← generate_latency_timings f snap
    some (
      record {
        snap = snap;
        attempts = attempts;
        interrupted = interrupted;
        errors = errors;
        percentage = percentage;
        fallback_success = fallback_success;
        fallback_failure = fallback_failure;
        fallback_rejection = fallback_rejection;
        success = success;
        rejected = rejected;
        failure = failure;
        short_circuited = short_circuited;
        timeout = timeout;
        bad_request = bad_request;
        interrupted_again = interrupted';
        timings = timings;
      },
      r₁₁,
      record fb { successes = f₁; err_failures = f₂; err_concurrency_limit_rejects = f₃ },
    )

  module _ {O C E : Type 0} (as_opener : O → Option Opener) (as_closer : C → Option Closer) where
    unfoldable pub attach_hystrix_properties : Circuit O C E → StreamCmdMetric → StreamCmdMetric
    attach_hystrix_properties cb into =
        let into' : StreamCmdMetric = elim (as_opener cb.world.opener) [
          | none ↦ into
          | some e ↦ record into {
            circuit_breaker_error_threshold_percent = e.config.error_threshold_percentage;
            circuit_breaker_request_volume_threshold = e.config.request_volume_threshold;
          }
        ] in
        elim (as_closer cb.world.closer) [
          | none ↦ into'
          | some c ↦ record into' { circuit_breaker_sleep_window = millis c.config.sleep_window }
        ]

    -- The composite literal, from the readings and the statistics after them.
    abbrev pub metric_of :
        ℤ → Circuit O C E → Readings f → RunStats → FallbackStats → StreamCmdMetric
    metric_of now cb x r fb = record {
      name = cb.name;
      time = millis (unix_nano now);
      reporting_hosts = pos 1;
      request_count = add64 x.attempts x.interrupted;
      error_count = x.errors;
      error_pct = f.to_int (f.mul (f.of_int (pos 100)) x.percentage);
      rolling_count_collapsed_requests = pos 0;
      rolling_count_exceptions_thrown = pos 0;
      rolling_count_responses_from_cache = pos 0;
      rolling_count_fallback_failure = x.fallback_failure;
      rolling_count_fallback_rejection = x.fallback_rejection;
      rolling_count_fallback_success = x.fallback_success;
      rolling_count_failure = x.failure;
      rolling_count_semaphore_rejected = x.rejected;
      rolling_count_short_circuited = x.short_circuited;
      rolling_count_success = x.success;
      rolling_count_thread_pool_rejected = pos 0;
      rolling_count_timeout = x.timeout;
      rolling_count_bad_requests = add64 x.bad_request x.interrupted_again;
      current_concurrent_execution_count = cb.world.concurrent_commands;
      latency_execute_mean = millis (mean x.snap);
      latency_total_mean = millis (mean x.snap);
      latency_execute = x.timings;
      latency_total = x.timings;
      circuit_breaker_request_volume_threshold = pos 0;
      circuit_breaker_sleep_window = pos 0;
      circuit_breaker_error_threshold_percent = pos 0;
      execution_isolation_thread_timeout = millis cb.not_thread_safe_config.execution.timeout;
      execution_isolation_semaphore_max_concurrent_requests =
          cb.not_thread_safe_config.execution.max_concurrent_requests;
      fallback_isolation_semaphore_max_concurrent_requests =
          cb.not_thread_safe_config.fallback.max_concurrent_requests;
      rolling_stats_window = millis r.config.rolling_stats_duration;
      circuit_breaker_force_open = cb.not_thread_safe_config.general.force_open;
      circuit_breaker_force_closed = cb.not_thread_safe_config.general.forced_closed;
      circuit_breaker_enabled = not cb.not_thread_safe_config.general.disabled;
      execution_isolation_thread_interrupt_on_timeout = false;
      request_cache_enabled = false;
      request_log_enabled = false;
      circuit_breaker_open = shows_open cb.world;
      total_count_fallback_success = get_total_sum fb.successes;
      total_count_fallback_failure = get_total_sum fb.err_failures;
      total_count_fallback_rejection = get_total_sum fb.err_concurrency_limit_rejects;
      total_count_success = get_total_sum r.successes;
      total_count_semaphore_rejected = get_total_sum r.err_concurrency_limit_rejects;
      total_count_failure = get_total_sum r.err_failures;
      total_count_short_circuited = get_total_sum r.err_short_circuits;
      total_count_timeout = get_total_sum r.err_timeouts;
      total_count_bad_requests =
          add64 (get_total_sum r.err_bad_requests) (get_total_sum r.err_interrupts);
    }

    -- The metric of a circuit with these statistics.
    unfoldable pub measure :
        ℤ
        → Circuit O C E
        → RunStats
        → FallbackStats
        → Option (StreamCmdMetric × RunStats × FallbackStats)
    measure now cb r fb =
        take_readings now r fb >>= λ (x, r', fb'). some (metric_of now cb x r' fb', r', fb')

    -- The statistics that the circuit tells its events are found, and read at the circuit's clock.
    unfoldable pub collect_command_metrics :
        (FuncId → Collector)
        → (FuncId → Collector)
        → (FuncId → ℤ)
        → Circuit O C E
        → Heap
        → Option (StreamCmdMetric × Heap)
    collect_command_metrics run_stats fallback_stats clock cb heap = do
      let p = find_command_metrics (map (run_collector run_stats) cb.cmd_metric_collector)
      let q = find_fallback_metrics (map fallback_stats cb.fallback_metric_collector)
      r ← load zero_run_stats p heap.run
      fb ← load zero_fallback_stats q heap.fallback
      now ← read_clock clock cb.not_thread_safe_config.general.time_keeper.now
      (metric, r', fb') ← measure now cb r fb
      some (
        attach_hystrix_properties cb metric,
        record { run = store r' p heap.run; fallback = store fb' q heap.fallback },
      )
