-- ===== src/Rolling/FallbackStats/Total.antt =====
-- metrics/rolling/rolling.go: no settings make the configuration of fallback statistics panic.
use circuit.Prelude.{ℕ, ℤ, pos, some, ◌>>=◌, ◌<◌, ◌≡◌, ap, ◌∙◌, arith, div64}
use circuit.Faststats.TimedCheck.{FuncId}
use circuit.Rolling.Config.{
  FallbackStatsConfig, merge_fallback, sanitize_fallback, default_fallback_stats_config, time_now,
  read_clock,
}
use circuit.Rolling.Config.Repairing.{
  func_or, IsRepairedFallback, merge_fallback-sanitize_fallback, positive_or-pos,
}
use circuit.Rolling.RunStats.Total.{divide-some, new_rolling_counter-some}
use circuit.Rolling.FallbackStats.{FallbackStats, renew, set_config_not_thread_safe}

renew-some :
    (d : FallbackStatsConfig) (n : ℕ) (now : ℤ)
    → d.rolling_stats_num_buckets ≡ pos n
    → 0 < n
    → (r : FallbackStats) × (renew d now ≡ some r)
unfolding renew
renew-some d n now buckets p =
    let (c, new) = new_rolling_counter-some (div64 d.rolling_stats_duration (pos n)) n now in
    (
      record { successes = c; err_concurrency_limit_rejects = c; err_failures = c },
      simp (buckets, divide-some d.rolling_stats_duration n p, new),
    )

pub set_config-some :
    (clock : FuncId → ℤ) (c : FallbackStatsConfig)
    → (r : FallbackStats) × (set_config_not_thread_safe clock c ≡ some r)
unfolding set_config_not_thread_safe read_clock
set_config-some clock c =
    let d = merge_fallback (sanitize_fallback c) default_fallback_stats_config in
    let u : IsRepairedFallback c d = merge_fallback-sanitize_fallback c in
    let (n, e, p) = positive_or-pos c.rolling_stats_num_buckets (pos 10) (omega arith) in
    let (r, run) = renew-some d n (clock (func_or c.now_func time_now)) (u.buckets ∙ e) p in
    (r, ap (λ f. read_clock clock f >>= λ now. renew d now) u.now_func ∙ run)
