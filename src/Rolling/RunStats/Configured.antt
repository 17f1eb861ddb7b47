-- ===== src/Rolling/RunStats/Configured.antt =====
-- metrics/rolling/rolling.go: configured statistics answer as the windows of the outcomes do.
use circuit.Prelude.{
  ℕ, ℤ, pos, List, [], length, some, ◌>>=◌, ◌+◌, ◌/◌, ◌^◌, ◌<◌, ◌≡◌, ap, ◌∙◌, arith, wrap64,
  add64-wrap64_pos, div64-pos, eqb_ℤ, false,
}
use circuit.Faststats.TimedCheck.{FuncId}
use circuit.Faststats.RollingCounter.History.{index?, moved, Represents}
use circuit.Faststats.RollingCounter.Refinement
use circuit.Faststats.RollingCounter.Refinement.{IsUsable, rolling_sum_at-Represents}
use circuit.Faststats.RollingPercentile.Advancing as Percentile
use circuit.Rolling.Config.{
  RunStatsConfig, merge_run, sanitize_run, default_run_stats_config, time_now, read_clock, divide,
}
use circuit.Rolling.Config.Repairing.{positive_or, func_or, IsRepairedRun, merge_run-sanitize_run}
use circuit.Rolling.RunStats.{
  RunStats, renew, set_config_not_thread_safe, errors_at, legitimate_attempts_at,
}
use circuit.Rolling.RunStats.Counting.{
  Kind, successes, failures, timeouts, Event, handle_all, window, AllTimes, Holds,
}
use circuit.Rolling.RunStats.Handling.{handle_all-Holds}

-- Settings that give n buckets of w nanoseconds for the counters, and k buckets of v nanoseconds with m
-- slots each for the latencies.
pub record HasWindows (c : RunStatsConfig) (n w k v m : ℕ) : Type 0 where
  pub span : ℕ
  pub duration : positive_or c.rolling_stats_duration (pos 10_000_000_000) ≡ pos span
  pub span_fits : span < 2 ^ 63
  pub buckets : positive_or c.rolling_stats_num_buckets (pos 10) ≡ pos n
  pub width : span / n ≡ w
  pub usable : IsUsable n w
  pub percentile_span : ℕ
  pub percentile_duration :
      positive_or c.rolling_percentile_duration (pos 60_000_000_000) ≡ pos percentile_span
  pub percentile_span_fits : percentile_span < 2 ^ 63
  pub percentile_buckets : positive_or c.rolling_percentile_num_buckets (pos 6) ≡ pos k
  pub percentile_width : percentile_span / k ≡ v
  pub percentile_usable : IsUsable k v
  pub percentile_size : positive_or c.rolling_percentile_bucket_size (pos 100) ≡ pos m
  pub slots : 0 < m

pub divide-pos : (a b : ℕ) → a < 2 ^ 63 → 0 < b → divide (pos a) (pos b) ≡ some (pos (a / b))
unfolding divide
divide-pos a b h p =
    let nonzero : eqb_ℤ (pos b) (pos 0) ≡ false = ground arith in rw (nonzero, div64-pos a b h)

renew-Holds :
    (d : RunStatsConfig) (n w k v m : ℕ) (now : ℤ)
    → divide d.rolling_stats_duration d.rolling_stats_num_buckets ≡ some (pos w)
    → divide d.rolling_percentile_duration d.rolling_percentile_num_buckets ≡ some (pos v)
    → d.rolling_stats_num_buckets ≡ pos n
    → d.rolling_percentile_num_buckets ≡ pos k
    → d.rolling_percentile_bucket_size ≡ pos m
    → IsUsable n w
    → IsUsable k v
    → (r : RunStats) × (renew d now ≡ some r) × Holds n w now k v m [] r
unfolding renew
renew-Holds d n w k v m now width percentile_width n_buckets k_buckets size usable usable' =
    let (c, new, vc) = Refinement.new-Represents n w now usable in
    let (l, new', vl) = Percentile.new-Represents k v m now usable' in
    (
      record {
        successes = c;
        err_concurrency_limit_rejects = c;
        err_failures = c;
        err_short_circuits = c;
        err_timeouts = c;
        err_bad_requests = c;
        err_interrupts = c;
        latencies = l;
        config = d;
      },
      simp (width, percentile_width) (simp (n_buckets, k_buckets, size, new, new')),
      record {
        successes = vc;
        rejects = vc;
        failures = vc;
        short_circuits = vc;
        timeouts = vc;
        bad_requests = vc;
        interrupts = vc;
        latencies = vl;
      },
    )

abbrev pub start_of : (FuncId → ℤ) → RunStatsConfig → ℤ
start_of clock c = clock (func_or c.now_func time_now)

pub set_config-Holds :
    (clock : FuncId → ℤ) (c : RunStatsConfig) (n w k v m : ℕ)
    → HasWindows c n w k v m
    → (r : RunStats) × (set_config_not_thread_safe clock c ≡ some r)
      × Holds n w (start_of clock c) k v m [] r
unfolding set_config_not_thread_safe read_clock
set_config-Holds clock c n w k v m h =
    let d = merge_run (sanitize_run c) default_run_stats_config in
    let u : IsRepairedRun c d = merge_run-sanitize_run c in
    let width : divide d.rolling_stats_duration d.rolling_stats_num_buckets ≡ some (pos w) =
      rw (u.duration, h.duration, u.buckets, h.buckets)
        (divide-pos h.span n h.span_fits h.usable.some_buckets ∙ ap (λ x. some (pos x)) h.width) in
    let width' : divide d.rolling_percentile_duration d.rolling_percentile_num_buckets
        ≡ some (pos v) =
      rw (u.percentile_duration, h.percentile_duration, u.percentile_buckets, h.percentile_buckets)
        (divide-pos h.percentile_span k h.percentile_span_fits h.percentile_usable.some_buckets
          ∙ ap (λ x. some (pos x)) h.percentile_width) in
    let (r, run, held) =
      renew-Holds d n w k v m (start_of clock c) width width' (u.buckets ∙ h.buckets)
        (u.percentile_buckets ∙ h.percentile_buckets) (u.percentile_size ∙ h.percentile_size)
        h.usable h.percentile_usable in
    (r, ap (λ f. read_clock clock f >>= λ now. renew d now) u.now_func ∙ run, held)

-- How many outcomes of a kind are in the window at a time.
abbrev pub in_window : ℕ → ℕ → ℤ → Kind → ℤ → List Event → ℕ
in_window n w start kind now es =
    length (moved n (index? start w now) (window n w start kind es)).events

module _ (n w : ℕ) (start : ℤ) (k v m : ℕ) where
  errors_at-sum :
      (es : List Event) (now : ℤ) (r : RunStats)
      → Represents n w start (window n w start failures es) r.err_failures
      → Represents n w start (window n w start timeouts es) r.err_timeouts
      → (r' : RunStats) × (errors_at now r
          ≡ some (
            wrap64
                (pos (in_window n w start failures now es + in_window n w start timeouts now es)),
            r',
          ))
  unfolding errors_at
  errors_at-sum es now r vf vt =
      let fs = in_window n w start failures now es in
      let ts = in_window n w start timeouts now es in
      let (c, run, _) =
        rolling_sum_at-Represents n w start (window n w start failures es) r.err_failures now vf in
      let (c', run', _) =
        rolling_sum_at-Represents n w start (window n w start timeouts es) r.err_timeouts now vt in
      let r' = record r { err_failures = c; err_timeouts = c' } in
      (r', rw (run, run') (ap (λ e. some (e, r')) (add64-wrap64_pos fs ts)))

  legitimate_attempts_at-sum :
      (es : List Event) (now : ℤ) (r : RunStats)
      → Holds n w start k v m es r
      → (r' : RunStats) × (legitimate_attempts_at now r
          ≡ some (
            wrap64 (
                pos (
                  in_window n w start successes now es
                  + (in_window n w start failures now es + in_window n w start timeouts now es))),
            r',
          ))
  unfolding legitimate_attempts_at
  legitimate_attempts_at-sum es now r h =
      let ss = in_window n w start successes now es in
      let fs = in_window n w start failures now es in
      let ts = in_window n w start timeouts now es in
      let (c, run, _) =
        rolling_sum_at-Represents n w start (window n w start successes es) r.successes now
          h.successes in
      let (r', run') = errors_at-sum es now (record r { successes = c }) h.failures h.timeouts in
      (r', rw (run, run') (ap (λ a. some (a, r')) (add64-wrap64_pos ss (fs + ts))))

-- Statistics that are configured with usable settings, the defaults included, take any sequence of fewer
-- than 2^63 outcomes without a panic, and then at any time the errors are the failures and timeouts of the
-- window and the legitimate attempts these and the successes; an outcome of another kind counts in neither.
pub handle_all-counts :
    (clock : FuncId → ℤ) (c : RunStatsConfig) (n w k v m : ℕ) (es : List Event) (now : ℤ)
    → HasWindows c n w k v m
    → AllTimes es
    → length es < 2 ^ 63
    → let start = start_of clock c in
      let errors = in_window n w start failures now es + in_window n w start timeouts now es in
      let attempts = in_window n w start successes now es + errors in
      (r : RunStats) × ((set_config_not_thread_safe clock c >>= λ r₀. handle_all es r₀) ≡ some r)
      × ((r' : RunStats) × (errors_at now r ≡ some (wrap64 (pos errors), r')))
      × ((r' : RunStats) × (legitimate_attempts_at now r ≡ some (wrap64 (pos attempts), r')))
handle_all-counts clock c n w k v m es now h ints few =
    let start = start_of clock c in
    let (r₀, run, h₀) = set_config-Holds clock c n w k v m h in
    let (r, run', h₁) = handle_all-Holds n w start k v m h.slots es r₀ h₀ ints few in
    (
      r,
      rw run run',
      errors_at-sum n w start k v m es now r h₁.failures h₁.timeouts,
      legitimate_attempts_at-sum n w start k v m es now r h₁,
    )
