-- ===== src/Rolling/RunStats/Counting.antt =====
-- metrics/rolling/rolling.go: each counter has the window of its own outcomes, and the latencies the
-- window of every outcome that took time.
use circuit.Prelude.{
  ℕ, ℤ, Bool, true, false, List, [], ◌∷◌, Option, some, ◌>>=◌, if◌then◌else◌, ◌==◌, IsInt64,
}
use circuit.Faststats.RollingCounter.{RollingCounter}
use circuit.Faststats.RollingCounter.History.{History, no_events, index?, recorded, Represents}
use circuit.Faststats.RollingPercentile.History
use circuit.Faststats.RollingPercentile.History.{Samples, no_samples, sampled}
use circuit.Rolling.RunStats.{
  RunStats, success, err_interrupt, err_concurrency_limit_reject, err_failure, err_short_circuit,
  err_timeout, err_bad_request,
}

-- The outcomes, as the methods name them.
pub data Kind : Type 0 where
  successes rejects failures short_circuits timeouts bad_requests interrupts : Kind

pub record Event : Type 0 where
  pub kind : Kind
  pub at : ℤ
  pub duration : ℤ

unfoldable pub handle : Kind → ℤ → ℤ → RunStats → Option RunStats
handle successes now d r = success now d r
handle rejects now d r = err_concurrency_limit_reject now r
handle failures now d r = err_failure now d r
handle short_circuits now d r = err_short_circuit now r
handle timeouts now d r = err_timeout now d r
handle bad_requests now d r = err_bad_request now d r
handle interrupts now d r = err_interrupt now d r

-- The events, the latest one first.
unfoldable pub handle_all : List Event → RunStats → Option RunStats
unfolding handle
handle_all [] r = some r
handle_all (e ∷ es) r = handle_all es r >>= λ r'. handle e.kind e.at e.duration r'

abbrev code : Kind → ℕ
code successes = 0
code rejects = 1
code failures = 2
code short_circuits = 3
code timeouts = 4
code bad_requests = 5
code interrupts = 6

-- Whether the outcome took time: the others did not run.
abbrev pub timed : Kind → Bool
timed rejects = false
timed short_circuits = false
timed _ = true

-- The window of the outcomes of one kind.
abbrev pub window : ℕ → ℕ → ℤ → Kind → List Event → History
window n w start k [] = no_events
window n w start k (e ∷ es) =
    let h = window n w start k es in
    if code k == code e.kind then recorded n (index? start w e.at) h else h

-- The window of the latencies.
abbrev pub samples : ℕ → ℕ → ℤ → List Event → Samples
samples n w start [] = no_samples
samples n w start (e ∷ es) =
    let h = samples n w start es in
    if timed e.kind then sampled n e.duration (index? start w e.at) h else h

abbrev pub AllTimes : List Event → Type 0
AllTimes [] = Unit {0}
AllTimes (e ∷ es) = IsInt64 e.duration × AllTimes es

module _ (n w : ℕ) (start : ℤ) where
  abbrev Counts : Kind → List Event → RollingCounter → Type 0
  Counts k es c = Represents n w start (window n w start k es) c

  -- The statistics after the events; the latencies are in k buckets of m slots and v nanoseconds.
  pub record Holds (k v m : ℕ) (es : List Event) (r : RunStats) : Type 0 where
    pub successes : Counts successes es r.successes
    pub rejects : Counts rejects es r.err_concurrency_limit_rejects
    pub failures : Counts failures es r.err_failures
    pub short_circuits : Counts short_circuits es r.err_short_circuits
    pub timeouts : Counts timeouts es r.err_timeouts
    pub bad_requests : Counts bad_requests es r.err_bad_requests
    pub interrupts : Counts interrupts es r.err_interrupts
    pub latencies : History.Represents k v m start (samples k v start es) r.latencies
