-- ===== src/Rolling/FallbackStats.antt =====
-- metrics/rolling/rolling.go: counts of the outcomes of a fallback over rolling windows. A method is one
-- atomic step, and `none` is a panic. `Var`, which only reads the totals, is `totals`.
pub mod Counting
pub mod Total
use circuit.Prelude.{ℤ, Option, some, ◌>>=◌, List, [], ◌∷◌}
use circuit.Faststats.TimedCheck.{FuncId}
use circuit.Faststats.RollingCounter.{RollingCounter, new_rolling_counter, inc, get_total_sum}
use circuit.Rolling.Config.{
  FallbackStatsConfig, merge_fallback, sanitize_fallback, default_fallback_stats_config, read_clock,
  divide,
}

pub record FallbackStats : Type 0 where
  pub successes : RollingCounter
  pub err_concurrency_limit_rejects : RollingCounter
  pub err_failures : RollingCounter

unfoldable pub renew : FallbackStatsConfig → ℤ → Option FallbackStats
renew config now = do
  bucket_width ← divide config.rolling_stats_duration config.rolling_stats_num_buckets
  let num_buckets = config.rolling_stats_num_buckets
  successes ← new_rolling_counter bucket_width num_buckets now
  rejects ← new_rolling_counter bucket_width num_buckets now
  failures ← new_rolling_counter bucket_width num_buckets now
  some (record {
    successes = successes;
    err_concurrency_limit_rejects = rejects;
    err_failures = failures;
  })

unfoldable pub set_config_not_thread_safe :
    (FuncId → ℤ) → FallbackStatsConfig → Option FallbackStats
set_config_not_thread_safe clock config =
    let config' = merge_fallback (sanitize_fallback config) default_fallback_stats_config in
    read_clock clock config'.now_func >>= λ now. renew config' now

unfoldable pub success : ℤ → FallbackStats → Option FallbackStats
success now r = inc r.successes now >>= λ c. some (record r { successes = c })

unfoldable pub err_concurrency_limit_reject : ℤ → FallbackStats → Option FallbackStats
err_concurrency_limit_reject now r = inc r.err_concurrency_limit_rejects now >>= λ c.
    some (record r { err_concurrency_limit_rejects = c })

unfoldable pub err_failure : ℤ → FallbackStats → Option FallbackStats
err_failure now r = inc r.err_failures now >>= λ c. some (record r { err_failures = c })

-- The totals of `Var`: successes, rejects and failures.
unfoldable pub totals : FallbackStats → List ℤ
totals r =
    get_total_sum r.successes
    ∷ get_total_sum r.err_concurrency_limit_rejects
    ∷ get_total_sum r.err_failures
    ∷ []
