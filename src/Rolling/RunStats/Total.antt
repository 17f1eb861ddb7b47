-- ===== src/Rolling/RunStats/Total.antt =====
-- metrics/rolling/rolling.go: no settings make the configuration panic.
use circuit.Prelude.{
  ℕ, ℤ, pos, some, ◌>>=◌, ◌<◌, ◌≡◌, refl, ap, ◌∙◌, arith, replicate, div64, eqb_ℤ, false,
}
use circuit.Faststats.TimedCheck.{FuncId}
use circuit.Faststats.RollingCounter.{RollingCounter, new_rolling_counter}
use circuit.Faststats.DurationsBucket.{new_durations_bucket}
use circuit.Faststats.RollingPercentile.{RollingPercentile, new_rolling_percentile, make_buckets}
use circuit.Faststats.RollingPercentile.Advancing.{fill_buckets-replicate}
use circuit.Rolling.Config.{
  RunStatsConfig, merge_run, sanitize_run, default_run_stats_config, read_clock, divide,
}
use circuit.Rolling.Config.Repairing.{IsRepairedRun, merge_run-sanitize_run, positive_or-pos}
use circuit.Rolling.RunStats.{RunStats, renew, set_config_not_thread_safe}
use circuit.Rolling.RunStats.Configured.{start_of}

pub divide-some : (a : ℤ) (n : ℕ) → 0 < n → divide a (pos n) ≡ some (div64 a (pos n))
unfolding divide
divide-some a n p = let nonzero : eqb_ℤ (pos n) (pos 0) ≡ false = ground arith in rw nonzero

pub new_rolling_counter-some :
    (w : ℤ) (n : ℕ) (now : ℤ) → (c : RollingCounter) × (new_rolling_counter w (pos n) now ≡ some c)
unfolding new_rolling_counter
new_rolling_counter-some w n now = (_, refl)

new_rolling_percentile-some :
    (w : ℤ) (n m : ℕ) (now : ℤ)
    → (p : RollingPercentile) × (new_rolling_percentile w (pos n) (pos m) now ≡ some p)
unfolding new_rolling_percentile make_buckets
new_rolling_percentile-some w n m now = (
  record {
    buckets = replicate n (new_durations_bucket m);
    rolling_bucket = record {
      num_buckets = pos n;
      start_time = now;
      bucket_width = w;
      last_abs_index = pos 0;
    };
  },
  rw (fill_buckets-replicate n m),
)

renew-some :
    (d : RunStatsConfig) (n k m : ℕ) (now : ℤ)
    → d.rolling_stats_num_buckets ≡ pos n
    → d.rolling_percentile_num_buckets ≡ pos k
    → d.rolling_percentile_bucket_size ≡ pos m
    → 0 < n
    → 0 < k
    → (r : RunStats) × (renew d now ≡ some r)
unfolding renew
renew-some d n k m now n_buckets k_buckets size p q =
    let w = div64 d.rolling_stats_duration (pos n) in
    let v = div64 d.rolling_percentile_duration (pos k) in
    let (c, new) = new_rolling_counter-some w n now in
    let (l, new') = new_rolling_percentile-some v k m now in
    (
      record {
        successes = c;
        err_concurrency_limit_rejects = c;
        err_failures = c;
        err_short_circuits = c;
        err_timeouts = c;
        err_bad_requests = c;
        err_interrupts = c;
        latencies = l;
        config = d;
      },
      simp (
        n_buckets,
        k_buckets,
        size,
        divide-some d.rolling_stats_duration n p,
        divide-some d.rolling_percentile_duration k q,
        new,
        new',
      ),
    )

-- Whatever the settings are, negative numbers and a missing clock included, the configuration does not
-- panic, and the windows start at the reading of the given clock, or of `time.Now` if there is none.
pub set_config-some :
    (clock : FuncId → ℤ) (c : RunStatsConfig)
    → (r : RunStats) × (set_config_not_thread_safe clock c ≡ some r)
      × (renew (merge_run (sanitize_run c) default_run_stats_config) (start_of clock c) ≡ some r)
unfolding set_config_not_thread_safe read_clock
set_config-some clock c =
    let d = merge_run (sanitize_run c) default_run_stats_config in
    let u : IsRepairedRun c d = merge_run-sanitize_run c in
    let (n, en, p) = positive_or-pos c.rolling_stats_num_buckets (pos 10) (omega arith) in
    let (k, ek, q) = positive_or-pos c.rolling_percentile_num_buckets (pos 6) (omega arith) in
    let (m, em, _) = positive_or-pos c.rolling_percentile_bucket_size (pos 100) (omega arith) in
    let (r, run) =
      renew-some d n k m (start_of clock c) (u.buckets ∙ en) (u.percentile_buckets ∙ ek)
        (u.percentile_size ∙ em) p q in
    (r, ap (λ f. read_clock clock f >>= λ now. renew d now) u.now_func ∙ run, run)
