-- ===== src/EventStream/Command/Reading.antt =====
-- metriceventstream/metriceventstream.go: a metric is one picture of the windows at its time.
use circuit.Prelude.{
  ℕ, ℤ, pos, List, length, get_elem?, Option, some, ◌+◌, ◌*◌, ◌^◌, ◌<◌, ◌≤◌, ◌≡◌, ◌≤ℤ◌, refl,
  wrap64, add64-wrap64_pos,
}
use circuit.Faststats.RollingCounter.History
use circuit.Faststats.RollingCounter.History.{History, index?}
use circuit.Faststats.RollingCounter.Refinement.{rolling_sum_at-Represents}
use circuit.Faststats.RollingPercentile.History.{moved, sorted_reports}
use circuit.Faststats.RollingPercentile.Refinement.{snapshot_at-Represents}
use circuit.Faststats.SortedDurations.{Float64, min, max, mean}
use circuit.Faststats.SortedDurations.Floats.{IsFloat64}
use circuit.Hystrix.Opener.{Opener}
use circuit.Hystrix.Closer.{Closer}
use circuit.Circuit.Configure.{Circuit}
use circuit.Rolling.RunStats.{RunStats}
use circuit.Rolling.RunStats.Counting.{
  successes, rejects, failures, short_circuits, timeouts, bad_requests, interrupts, Event, samples,
  Holds,
}
use circuit.Rolling.RunStats.Configured.{in_window}
use circuit.Rolling.FallbackStats.{FallbackStats}
use circuit.EventStream.Metric.{
  StreamCmdLatency, StreamCmdMetric, Readings, millis, generate_latency_timings,
}
use circuit.EventStream.Command.{take_readings, metric_of, measure}
use circuit.EventStream.Metric.Timings.{HasPercentiles, InRange, generate_latency_timings-InRange}
use circuit.EventStream.Metric.Snapshots.{sorted_reports-IsSnapshot}
use circuit.EventStream.Metric.Looking.{
  seen, errors, attempts, share, Holds-Views, sum_at-Views, errors_at-Views,
  legitimate_attempts_at-Views, error_percentage_at-Views,
}

-- The counters of a fallback have windows with these histories.
pub record FallbackHolds (n w : ℕ) (start : ℤ) (ok faults refusals : History) (fb : FallbackStats)
    : Type 0 where
  pub successes : History.Represents n w start ok fb.successes
  pub failures : History.Represents n w start faults fb.err_failures
  pub rejects : History.Represents n w start refusals fb.err_concurrency_limit_rejects

-- How many events a window has at a time.
abbrev pub events_at : ℕ → ℕ → ℤ → ℤ → History → ℤ
events_at n w start now h = wrap64 (pos (length (History.moved n (index? start w now) h).events))

-- The snapshot of the latencies.
abbrev pub latencies : ℕ → ℕ → ℕ → ℤ → ℤ → List Event → List ℤ
latencies k v m start now es =
    sorted_reports k m (moved k (index? start v now) (samples k v start es))

module _ (f : Float64) (n w : ℕ) (start : ℤ) (now : ℤ) (es : List Event) where
  -- What the metric says of the runs in the window.
  pub record Counts (metric : StreamCmdMetric) : Type 0 where
    pub requests :
        metric.request_count
        ≡ wrap64 (pos (attempts n w start now es + in_window n w start interrupts now es))
    pub errors : metric.error_count ≡ wrap64 (pos (errors n w start now es))
    pub percentage :
        metric.error_pct ≡ f.to_int (f.mul (f.of_int (pos 100)) (share n w start now es f))
    pub succeeded : metric.rolling_count_success ≡ seen n w start now es successes
    pub failed : metric.rolling_count_failure ≡ seen n w start now es failures
    pub late : metric.rolling_count_timeout ≡ seen n w start now es timeouts
    pub short_circuited :
        metric.rolling_count_short_circuited ≡ seen n w start now es short_circuits
    pub rejected : metric.rolling_count_semaphore_rejected ≡ seen n w start now es rejects
    pub bad :
        metric.rolling_count_bad_requests
        ≡ wrap64
            (pos (in_window n w start bad_requests now es + in_window n w start interrupts now es))

-- What it says of the fallbacks.
pub record FallbackCounts (n w : ℕ) (start now : ℤ) (ok faults refusals : History)
    (metric : StreamCmdMetric) : Type 0 where
  pub succeeded : metric.rolling_count_fallback_success ≡ events_at n w start now ok
  pub failed : metric.rolling_count_fallback_failure ≡ events_at n w start now faults
  pub rejected : metric.rolling_count_fallback_rejection ≡ events_at n w start now refusals

-- What it says of the latencies.
pub record Latencies (snap : List ℤ) (metric : StreamCmdMetric) : Type 0 where
  pub lo : ℤ
  pub hi : ℤ
  pub least : min snap ≡ some lo
  pub greatest : max snap ≡ some hi
  pub total : InRange (millis lo) (millis hi) metric.latency_total
  pub run : InRange (millis lo) (millis hi) metric.latency_execute
  pub total_mean : metric.latency_total_mean ≡ millis (mean snap)
  pub run_mean : metric.latency_execute_mean ≡ millis (mean snap)

module _ (f : Float64) (n w : ℕ) (start : ℤ) (k v m : ℕ) (es : List Event) (now : ℤ) (n' w' : ℕ)
    (start' : ℤ) (ok faults refusals : History) where
  -- The readings of one look at the windows.
  abbrev readings : StreamCmdLatency → Readings f
  readings t = record {
    snap = latencies k v m start now es;
    attempts = wrap64 (pos (attempts n w start now es));
    interrupted = seen n w start now es interrupts;
    errors = wrap64 (pos (errors n w start now es));
    percentage = share n w start now es f;
    fallback_success = events_at n' w' start' now ok;
    fallback_failure = events_at n' w' start' now faults;
    fallback_rejection = events_at n' w' start' now refusals;
    success = seen n w start now es successes;
    rejected = seen n w start now es rejects;
    failure = seen n w start now es failures;
    short_circuited = seen n w start now es short_circuits;
    timeout = seen n w start now es timeouts;
    bad_request = seen n w start now es bad_requests;
    interrupted_again = seen n w start now es interrupts;
    timings = t;
  }

  take_readings-readings :
      (t : StreamCmdLatency) (r : RunStats) (fb : FallbackStats)
      → 0 < m
      → k * m < 2 ^ 63
      → Holds n w start k v m es r
      → FallbackHolds n' w' start' ok faults refusals fb
      → generate_latency_timings f (latencies k v m start now es) ≡ some t
      → (r' : RunStats) × (fb' : FallbackStats) × (take_readings f now r fb
          ≡ some (readings t, r', fb'))
  unfolding take_readings
  take_readings-readings t r fb slots fits h g timed =
      let (l, e₀, _) =
        snapshot_at-Represents k v m start slots now (samples k v start es) r.latencies h.latencies
          fits in
      let v₀ = Holds-Views n w start now es k v m r l h in
      let (r₁, e₁, v₁) =
        legitimate_attempts_at-Views n w start now es (record r { latencies = l }) v₀ in
      let (r₂, e₂, v₂) = sum_at-Views n w start now es interrupts r₁ v₁ in
      let (r₃, e₃, v₃) = errors_at-Views n w start now es r₂ v₂ in
      let (r₄, e₄, v₄) = error_percentage_at-Views n w start now es f r₃ v₃ in
      let (f₁, g₁, _) = rolling_sum_at-Represents n' w' start' ok fb.successes now g.successes in
      let (f₂, g₂, _) =
        rolling_sum_at-Represents n' w' start' faults fb.err_failures now g.failures in
      let (f₃, g₃, _) =
        rolling_sum_at-Represents n' w' start' refusals fb.err_concurrency_limit_rejects now
          g.rejects in
      let (r₅, e₅, v₅) = sum_at-Views n w start now es successes r₄ v₄ in
      let (r₆, e₆, v₆) = sum_at-Views n w start now es rejects r₅ v₅ in
      let (r₇, e₇, v₇) = sum_at-Views n w start now es failures r₆ v₆ in
      let (r₈, e₈, v₈) = sum_at-Views n w start now es short_circuits r₇ v₇ in
      let (r₉, e₉, v₉) = sum_at-Views n w start now es timeouts r₈ v₈ in
      let (r₁₀, e₁₀, v₁₀) = sum_at-Views n w start now es bad_requests r₉ v₉ in
      let (r₁₁, e₁₁, _) = sum_at-Views n w start now es interrupts r₁₀ v₁₀ in
      (
        r₁₁,
        record fb { successes = f₁; err_failures = f₂; err_concurrency_limit_rejects = f₃ },
        rw (e₀, e₁, e₂, e₃, e₄) (rw (g₁, g₂, g₃) (rw (e₅, e₆, e₇, e₈, e₉, e₁₀, e₁₁, timed) refl)),
      )

module _ {O C E : Type 0} (as_opener : O → Option Opener) (as_closer : C → Option Closer) where
  -- The metric of a circuit, read at any time from statistics that were told any outcomes, does not panic,
  -- for latencies in the window of at most 2^53 nanoseconds. Its counts are those of one look at the
  -- windows at that time, although the code reads some counters three times: the requests are the
  -- successes, failures, timeouts and interrupts, the errors the failures and timeouts. The timings lie
  -- between the least and the greatest latency of the window, in milliseconds.
  pub measure-Counts :
      (f : Float64) (n w : ℕ) (start : ℤ) (k v m : ℕ) (es : List Event) (now : ℤ) (n' w' : ℕ)
      (start' : ℤ) (ok faults refusals : History) (cb : Circuit O C E) (r : RunStats)
      (fb : FallbackStats)
      → IsFloat64 f
      → HasPercentiles f
      → 0 < m
      → k * m < 2 ^ 63
      → Holds n w start k v m es r
      → FallbackHolds n' w' start' ok faults refusals fb
      → length (latencies k v m start now es) ≤ 2 ^ 53
      → ((i : ℕ) (d : ℤ) → get_elem? (latencies k v m start now es) i ≡ some d → d ≤ℤ pos (2 ^ 53))
      → (metric : StreamCmdMetric) × (r' : RunStats) × (fb' : FallbackStats) × (measure f as_opener
            as_closer now cb r fb
          ≡ some (metric, r', fb'))
        × Counts f n w start now es metric
        × FallbackCounts n' w' start' now ok faults refusals metric
        × Latencies (latencies k v m start now es) metric
  unfolding measure
  measure-Counts f n w start k v m es now n' w' start' ok faults refusals cb r fb laws num slots
        fits h g few small =
      let snap = latencies k v m start now es in
      let (lo, hi, t, least, greatest, timed, range) =
        generate_latency_timings-InRange f snap laws num (
          sorted_reports-IsSnapshot k m (moved k (index? start v now) (samples k v start es)) few
            small) in
      let (r', fb', run) =
        take_readings-readings f n w start k v m es now n' w' start' ok faults refusals t r fb slots
          fits h g timed in
      (
        metric_of f as_opener as_closer now cb
            (readings f n w start k v m es now n' w' start' ok faults refusals t) r' fb',
        r',
        fb',
        rw run refl,
        record {
          requests =
              add64-wrap64_pos (attempts n w start now es) (in_window n w start interrupts now es);
          errors = refl;
          percentage = refl;
          succeeded = refl;
          failed = refl;
          late = refl;
          short_circuited = refl;
          rejected = refl;
          bad =
              add64-wrap64_pos (in_window n w start bad_requests now es)
                (in_window n w start interrupts now es);
        },
        record { succeeded = refl; failed = refl; rejected = refl },
        record {
          lo = lo;
          hi = hi;
          least = least;
          greatest = greatest;
          total = range;
          run = range;
          total_mean = refl;
          run_mean = refl;
        },
      )
