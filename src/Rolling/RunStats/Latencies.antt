-- ===== src/Rolling/RunStats/Latencies.antt =====
-- metrics/rolling/rolling.go: what the statistics expose of the latencies.
use circuit.Prelude.{ℕ, ℤ, List, length, some, ◌>>=◌, ◌*◌, ◌^◌, ◌<◌, ◌≡◌, refl}
use circuit.Faststats.TimedCheck.{FuncId}
use circuit.Faststats.RollingCounter.History.{index?}
use circuit.Faststats.RollingCounter.Refinement.{rolling_sum_at-Represents}
use circuit.Faststats.RollingPercentile.History.{moved, sorted_reports}
use circuit.Faststats.RollingPercentile.Refinement.{snapshot_at-Represents}
use circuit.Rolling.Config.{RunStatsConfig}
use circuit.Rolling.RunStats.{RunStats, set_config_not_thread_safe, refresh}
use circuit.Rolling.RunStats.Counting.{
  Event, handle_all, window, samples, AllTimes, Holds, successes, rejects, failures, short_circuits,
  timeouts, bad_requests, interrupts,
}
use circuit.Rolling.RunStats.Configured.{HasWindows, start_of, set_config-Holds}
use circuit.Rolling.RunStats.Handling.{handle_all-Holds}

refresh-Holds :
    (n w : ℕ) (start : ℤ) (k v m : ℕ) (es : List Event) (now : ℤ) (r : RunStats)
    → 0 < m
    → k * m < 2 ^ 63
    → Holds n w start k v m es r
    → (r' : RunStats) × (refresh now r
        ≡ some (sorted_reports k m (moved k (index? start v now) (samples k v start es)), r'))
unfolding refresh
refresh-Holds n w start k v m es now r slots fits h =
    let sum = rolling_sum_at-Represents n w start in
    let (c₁, e₁, _) = sum (window n w start successes es) r.successes now h.successes in
    let (c₂, e₂, _) =
      sum (window n w start rejects es) r.err_concurrency_limit_rejects now h.rejects in
    let (c₃, e₃, _) = sum (window n w start failures es) r.err_failures now h.failures in
    let (c₄, e₄, _) =
      sum (window n w start short_circuits es) r.err_short_circuits now h.short_circuits in
    let (c₅, e₅, _) = sum (window n w start timeouts es) r.err_timeouts now h.timeouts in
    let (c₆, e₆, _) =
      sum (window n w start bad_requests es) r.err_bad_requests now h.bad_requests in
    let (c₇, e₇, _) = sum (window n w start interrupts es) r.err_interrupts now h.interrupts in
    let (l, e₈, _) =
      snapshot_at-Represents k v m start slots now (samples k v start es) r.latencies h.latencies
        fits in
    (
      record r {
        successes = c₁;
        err_concurrency_limit_rejects = c₂;
        err_failures = c₃;
        err_short_circuits = c₄;
        err_timeouts = c₅;
        err_bad_requests = c₆;
        err_interrupts = c₇;
        latencies = l;
      },
      rw (e₁, e₂, e₃, e₄, e₅, e₆, e₇, e₈) refl,
    )

-- After fewer than 2^63 outcomes, statistics configured with usable settings expose, sorted, the
-- latencies of the window: those of every outcome but the rejected and the short-circuited, the latest m
-- of each bucket. No call panics.
pub handle_all-latencies :
    (clock : FuncId → ℤ) (c : RunStatsConfig) (n w k v m : ℕ) (es : List Event) (now : ℤ)
    → HasWindows c n w k v m
    → k * m < 2 ^ 63
    → AllTimes es
    → length es < 2 ^ 63
    → let start = start_of clock c in
      (r' : RunStats) × ((set_config_not_thread_safe clock c >>= λ r₀.
      handle_all es r₀ >>= λ r. refresh now r)
        ≡ some (sorted_reports k m (moved k (index? start v now) (samples k v start es)), r'))
handle_all-latencies clock c n w k v m es now h fits ints few =
    let start = start_of clock c in
    let (r₀, run, h₀) = set_config-Holds clock c n w k v m h in
    let (r, run', h₁) = handle_all-Holds n w start k v m h.slots es r₀ h₀ ints few in
    let (r', run'') = refresh-Holds n w start k v m es now r h.slots fits h₁ in
    (r', rw (run, run') run'')
