-- ===== src/Rolling/RunStats.antt =====
-- metrics/rolling/rolling.go: counts of the outcomes of a circuit and its latencies, over rolling
-- windows. A method is one atomic step, and `none` is a panic. What `Var` does with the windows is
-- `refresh`; the text that it exposes is not modelled.
pub mod Counting
pub mod Handling
pub mod Configured
pub mod Total
pub mod Latencies
use circuit.Prelude.{ℕ, ℤ, pos, Bool, Option, none, some, ◌>>=◌, add64, eqb_ℤ, if◌then◌else◌, List}
use circuit.Faststats.TimedCheck.{FuncId}
use circuit.Faststats.RollingCounter.{RollingCounter, new_rolling_counter, inc, rolling_sum_at}
use circuit.Faststats.RollingPercentile.{
  RollingPercentile, new_rolling_percentile, add_duration_at, snapshot_at,
}
use circuit.Faststats.SortedDurations.{Float64}
use circuit.Rolling.Config.{
  RunStatsConfig, merge_run, sanitize_run, default_run_stats_config, time_now, read_clock, divide,
}

pub record RunStats : Type 0 where
  pub successes : RollingCounter
  pub err_concurrency_limit_rejects : RollingCounter
  pub err_failures : RollingCounter
  pub err_short_circuits : RollingCounter
  pub err_timeouts : RollingCounter
  pub err_bad_requests : RollingCounter
  pub err_interrupts : RollingCounter
  pub latencies : RollingPercentile
  pub config : RunStatsConfig

-- The new windows for settings, from the time `now`; every old counter is replaced.
unfoldable pub renew : RunStatsConfig → ℤ → Option RunStats
renew config now = do
  bucket_width ← divide config.rolling_stats_duration config.rolling_stats_num_buckets
  let num_buckets = config.rolling_stats_num_buckets
  percentile_width ← divide config.rolling_percentile_duration config.rolling_percentile_num_buckets
  successes ← new_rolling_counter bucket_width num_buckets now
  rejects ← new_rolling_counter bucket_width num_buckets now
  failures ← new_rolling_counter bucket_width num_buckets now
  short_circuits ← new_rolling_counter bucket_width num_buckets now
  timeouts ← new_rolling_counter bucket_width num_buckets now
  bad_requests ← new_rolling_counter bucket_width num_buckets now
  interrupts ← new_rolling_counter bucket_width num_buckets now
  latencies ←
      new_rolling_percentile percentile_width config.rolling_percentile_num_buckets
        config.rolling_percentile_bucket_size now
  some (record {
    successes = successes;
    err_concurrency_limit_rejects = rejects;
    err_failures = failures;
    err_short_circuits = short_circuits;
    err_timeouts = timeouts;
    err_bad_requests = bad_requests;
    err_interrupts = interrupts;
    latencies = latencies;
    config = config;
  })

unfoldable pub set_config_not_thread_safe : (FuncId → ℤ) → RunStatsConfig → Option RunStats
set_config_not_thread_safe clock config =
    let config' = merge_run (sanitize_run config) default_run_stats_config in
    read_clock clock config'.now_func >>= λ now. renew config' now

-- The clock of the settings, or `time.Now`.
unfoldable pub now_of : (FuncId → ℤ) → Option FuncId → ℤ
now_of clock none = clock time_now
now_of clock (some f) = clock f

unfoldable pub now : (FuncId → ℤ) → RunStats → ℤ
unfolding now_of
now clock r = now_of clock r.config.now_func

unfoldable pub success : ℤ → ℤ → RunStats → Option RunStats
success now duration r = do
  c ← inc r.successes now
  l ← add_duration_at r.latencies duration now
  some (record r { successes = c; latencies = l })

unfoldable pub err_interrupt : ℤ → ℤ → RunStats → Option RunStats
err_interrupt now duration r = do
  c ← inc r.err_interrupts now
  l ← add_duration_at r.latencies duration now
  some (record r { err_interrupts = c; latencies = l })

unfoldable pub err_concurrency_limit_reject : ℤ → RunStats → Option RunStats
err_concurrency_limit_reject now r = inc r.err_concurrency_limit_rejects now >>= λ c.
    some (record r { err_concurrency_limit_rejects = c })

unfoldable pub err_failure : ℤ → ℤ → RunStats → Option RunStats
err_failure now duration r = do
  c ← inc r.err_failures now
  l ← add_duration_at r.latencies duration now
  some (record r { err_failures = c; latencies = l })

unfoldable pub err_short_circuit : ℤ → RunStats → Option RunStats
err_short_circuit now r =
    inc r.err_short_circuits now >>= λ c. some (record r { err_short_circuits = c })

unfoldable pub err_timeout : ℤ → ℤ → RunStats → Option RunStats
err_timeout now duration r = do
  c ← inc r.err_timeouts now
  l ← add_duration_at r.latencies duration now
  some (record r { err_timeouts = c; latencies = l })

unfoldable pub err_bad_request : ℤ → ℤ → RunStats → Option RunStats
err_bad_request now duration r = do
  c ← inc r.err_bad_requests now
  l ← add_duration_at r.latencies duration now
  some (record r { err_bad_requests = c; latencies = l })

unfoldable pub errors_at : ℤ → RunStats → Option (ℤ × RunStats)
errors_at now r = rolling_sum_at r.err_failures now >>= λ (failures, c).
    rolling_sum_at r.err_timeouts now >>= λ (timeouts, c').
    some (add64 failures timeouts, record r { err_failures = c; err_timeouts = c' })

unfoldable pub legitimate_attempts_at : ℤ → RunStats → Option (ℤ × RunStats)
legitimate_attempts_at now r = rolling_sum_at r.successes now >>= λ (successes, c).
    errors_at now (record r { successes = c }) >>= λ (errors, r'). some (add64 successes errors, r')

-- The two counts that `ErrorPercentageAt` divides.
unfoldable pub error_percentage_at : (f : Float64) → ℤ → RunStats → Option (f.F × RunStats)
error_percentage_at f now r = legitimate_attempts_at now r >>= λ (attempt_count, r').
    let divided = errors_at now r' >>= λ (err_count, r'').
    some (f.div (f.of_int err_count) (f.of_int attempt_count), r'') in
    if eqb_ℤ attempt_count (pos 0) then some (f.of_int (pos 0), r') else divided

unfoldable pub error_percentage : (f : Float64) → (FuncId → ℤ) → RunStats → Option (f.F × RunStats)
error_percentage f clock r = error_percentage_at f (now clock r) r

-- `for _, cntr := range r.rollingCounters() { cntr.RollingSumAt(now) }`, and the snapshot.
unfoldable pub refresh : ℤ → RunStats → Option (List ℤ × RunStats)
refresh now r = do
  (s₁, successes) ← rolling_sum_at r.successes now
  (s₂, rejects) ← rolling_sum_at r.err_concurrency_limit_rejects now
  (s₃, failures) ← rolling_sum_at r.err_failures now
  (s₄, short_circuits) ← rolling_sum_at r.err_short_circuits now
  (s₅, timeouts) ← rolling_sum_at r.err_timeouts now
  (s₆, bad_requests) ← rolling_sum_at r.err_bad_requests now
  (s₇, interrupts) ← rolling_sum_at r.err_interrupts now
  (snap, latencies) ← snapshot_at r.latencies now
  some (
    snap,
    record r {
      successes = successes;
      err_concurrency_limit_rejects = rejects;
      err_failures = failures;
      err_short_circuits = short_circuits;
      err_timeouts = timeouts;
      err_bad_requests = bad_requests;
      err_interrupts = interrupts;
      latencies = latencies;
    },
  )
