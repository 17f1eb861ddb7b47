-- ===== src/Rolling/RunStats/Handling.antt =====
-- metrics/rolling/rolling.go: every method counts its outcome and no other.
use circuit.Prelude.{
  ℕ, ℤ, List, [], ◌∷◌, length, Option, some, ◌+◌, ◌^◌, ◌<◌, ◌≤◌, ◌≡◌, refl, arith, IsInt64,
}
use circuit.Faststats.RollingCounter.History.{index?}
use circuit.Faststats.RollingCounter.Refinement.{inc-Represents}
use circuit.Faststats.RollingPercentile.{RollingPercentile, add_duration_at}
use circuit.Faststats.RollingPercentile.History
use circuit.Faststats.RollingPercentile.History.{sampled}
use circuit.Faststats.RollingPercentile.Calls.{length-sampled}
use circuit.Faststats.RollingPercentile.Refinement.{add_duration_at-Represents}
use circuit.Rolling.RunStats.{
  RunStats, success, err_interrupt, err_concurrency_limit_reject, err_failure, err_short_circuit,
  err_timeout, err_bad_request,
}
use circuit.Rolling.RunStats.Counting.{
  Kind, successes, rejects, failures, short_circuits, timeouts, bad_requests, interrupts, Event,
  handle, handle_all, window, samples, AllTimes, Holds,
}

length-samples :
    (n w : ℕ) (start : ℤ) (es : List Event) → length (samples n w start es).samples ≤ length es
length-samples n w start [] = omega arith
length-samples n w start (e ∷ es) =
    let h = samples n w start es in
    ground (arith, length-sampled n e.duration (index? start w e.at) h, length-samples n w start es)

module _ (n w : ℕ) (start : ℤ) (k v m : ℕ) (slots : 0 < m) where
  -- What a method returns.
  abbrev Handled : Kind → ℤ → ℤ → List Event → Option RunStats → Type 0
  Handled kind now d es result =
      (r : RunStats) × (result ≡ some r)
      × Holds n w start k v m (record { kind = kind; at = now; duration = d } ∷ es) r

  module _ (now d : ℤ) (es : List Event) (r : RunStats) (h : Holds n w start k v m es r) where
    reject-Handled : Handled rejects now d es (err_concurrency_limit_reject now r)
    unfolding err_concurrency_limit_reject
    reject-Handled =
        let (c, run, vc) =
          inc-Represents n w start (window n w start rejects es) r.err_concurrency_limit_rejects now
            h.rejects in
        (
          record r { err_concurrency_limit_rejects = c },
          rw run,
          record {
            successes = h.successes;
            rejects = vc;
            failures = h.failures;
            short_circuits = h.short_circuits;
            timeouts = h.timeouts;
            bad_requests = h.bad_requests;
            interrupts = h.interrupts;
            latencies = h.latencies;
          },
        )

    short_circuit-Handled : Handled short_circuits now d es (err_short_circuit now r)
    unfolding err_short_circuit
    short_circuit-Handled =
        let (c, run, vc) =
          inc-Represents n w start (window n w start short_circuits es) r.err_short_circuits now
            h.short_circuits in
        (
          record r { err_short_circuits = c },
          rw run,
          record {
            successes = h.successes;
            rejects = h.rejects;
            failures = h.failures;
            short_circuits = vc;
            timeouts = h.timeouts;
            bad_requests = h.bad_requests;
            interrupts = h.interrupts;
            latencies = h.latencies;
          },
        )

    module _ (int : IsInt64 d) (few : length es + 1 < 2 ^ 63) where
      -- The latency of an outcome that took time.
      timed_latency :
          (l : RollingPercentile) × (add_duration_at r.latencies d now ≡ some l)
          × History.Represents k v m start
              (sampled k d (index? start v now) (samples k v start es))
              l
      timed_latency =
          add_duration_at-Represents k v m start slots d now (samples k v start es) r.latencies
            h.latencies int (omega (arith, length-samples k v start es))

      success-Handled : Handled successes now d es (success now d r)
      unfolding success
      success-Handled =
          let (c, run, vc) =
            inc-Represents n w start (window n w start successes es) r.successes now h.successes in
          let (l, run', vl) = timed_latency in
          (
            record r { successes = c; latencies = l },
            rw (run, run') refl,
            record {
              successes = vc;
              rejects = h.rejects;
              failures = h.failures;
              short_circuits = h.short_circuits;
              timeouts = h.timeouts;
              bad_requests = h.bad_requests;
              interrupts = h.interrupts;
              latencies = vl;
            },
          )

      failure-Handled : Handled failures now d es (err_failure now d r)
      unfolding err_failure
      failure-Handled =
          let (c, run, vc) =
            inc-Represents n w start (window n w start failures es) r.err_failures now h.failures in
          let (l, run', vl) = timed_latency in
          (
            record r { err_failures = c; latencies = l },
            rw (run, run') refl,
            record {
              successes = h.successes;
              rejects = h.rejects;
              failures = vc;
              short_circuits = h.short_circuits;
              timeouts = h.timeouts;
              bad_requests = h.bad_requests;
              interrupts = h.interrupts;
              latencies = vl;
            },
          )

      timeout-Handled : Handled timeouts now d es (err_timeout now d r)
      unfolding err_timeout
      timeout-Handled =
          let (c, run, vc) =
            inc-Represents n w start (window n w start timeouts es) r.err_timeouts now h.timeouts in
          let (l, run', vl) = timed_latency in
          (
            record r { err_timeouts = c; latencies = l },
            rw (run, run') refl,
            record {
              successes = h.successes;
              rejects = h.rejects;
              failures = h.failures;
              short_circuits = h.short_circuits;
              timeouts = vc;
              bad_requests = h.bad_requests;
              interrupts = h.interrupts;
              latencies = vl;
            },
          )

      bad_request-Handled : Handled bad_requests now d es (err_bad_request now d r)
      unfolding err_bad_request
      bad_request-Handled =
          let (c, run, vc) =
            inc-Represents n w start (window n w start bad_requests es) r.err_bad_requests now
              h.bad_requests in
          let (l, run', vl) = timed_latency in
          (
            record r { err_bad_requests = c; latencies = l },
            rw (run, run') refl,
            record {
              successes = h.successes;
              rejects = h.rejects;
              failures = h.failures;
              short_circuits = h.short_circuits;
              timeouts = h.timeouts;
              bad_requests = vc;
              interrupts = h.interrupts;
              latencies = vl;
            },
          )

      interrupt-Handled : Handled interrupts now d es (err_interrupt now d r)
      unfolding err_interrupt
      interrupt-Handled =
          let (c, run, vc) =
            inc-Represents n w start (window n w start interrupts es) r.err_interrupts now
              h.interrupts in
          let (l, run', vl) = timed_latency in
          (
            record r { err_interrupts = c; latencies = l },
            rw (run, run') refl,
            record {
              successes = h.successes;
              rejects = h.rejects;
              failures = h.failures;
              short_circuits = h.short_circuits;
              timeouts = h.timeouts;
              bad_requests = h.bad_requests;
              interrupts = vc;
              latencies = vl;
            },
          )

  handle-Holds :
      (kind : Kind) (now d : ℤ) (es : List Event) (r : RunStats)
      → Holds n w start k v m es r
      → IsInt64 d
      → length es + 1 < 2 ^ 63
      → Handled kind now d es (handle kind now d r)
  unfolding handle
  handle-Holds successes now d es r h int few = success-Handled now d es r h int few
  handle-Holds rejects now d es r h int few = reject-Handled now d es r h
  handle-Holds failures now d es r h int few = failure-Handled now d es r h int few
  handle-Holds short_circuits now d es r h int few = short_circuit-Handled now d es r h
  handle-Holds timeouts now d es r h int few = timeout-Handled now d es r h int few
  handle-Holds bad_requests now d es r h int few = bad_request-Handled now d es r h int few
  handle-Holds interrupts now d es r h int few = interrupt-Handled now d es r h int few

  pub handle_all-Holds :
      (es : List Event) (r : RunStats)
      → Holds n w start k v m [] r
      → AllTimes es
      → length es < 2 ^ 63
      → (r' : RunStats) × (handle_all es r ≡ some r') × Holds n w start k v m es r'
  unfolding handle_all
  handle_all-Holds [] r h ints few = (r, refl, h)
  handle_all-Holds (e ∷ es) r h ints few =
      let (r₁, run, h₁) = handle_all-Holds es r h ints.1 (omega arith) in
      let (r₂, run', h₂) = handle-Holds e.kind e.at e.duration es r₁ h₁ ints.0 (omega arith) in
      (r₂, rw run run', h₂)
