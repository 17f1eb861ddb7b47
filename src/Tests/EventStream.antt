-- ===== src/Tests/EventStream.antt =====
-- metriceventstream: the metric of a circuit with rolling statistics.
use circuit.Prelude.{
  ℕ, zero, suc, ℤ, pos, false, some, none, [], ◌∷◌, Option, ◌==◌, ◌≡◌, ◌≤ℤ◌, refl, arith, get_elem?,
  time_sub, ◌-ℤ◌, subst, sym, ◌^◌,
}
use circuit.Faststats.TimedCheck.{FuncId}
use circuit.Faststats.RollingCounter.History.{no_events}
use circuit.Faststats.RollingCounter.Refinement.{IsUsable, new-Represents}
use circuit.Faststats.RollingPercentile.History.{
  sorted_reports, slot_durations, live_samples, reports,
}
use circuit.Sorting.{sort_by, insert_by}
use circuit.Circuit.Config.{default_command_properties, reset}
use circuit.Circuit.Configure.{Circuit, open_to_close, closed_to_open, listener}
use circuit.Hystrix.Opener.{Opener}
use circuit.Hystrix.Closer.{Closer, closer_factory, default_configure_closer}
use circuit.Rolling.Config.{zero_run_stats_config, read_clock}
use circuit.Rolling.RunStats.{RunStats}
use circuit.Rolling.RunStats.Configured.{set_config-Holds}
use circuit.Rolling.RunStats.Counting.{Holds}
use circuit.Rolling.RunStats.Handling.{handle_all-Holds}
use circuit.Rolling.FallbackStats.{FallbackStats}
use circuit.Rolling.StatFactory.{
  Heap, Collector, stats, find_command_metrics, find_fallback_metrics,
}
use circuit.EventStream.Streams.{
  Streams, put, connect, write, collect, offer, connects, writes, sends, offers, newcomer, fresh,
  Reachable, started, stepped,
}
use circuit.EventStream.Streams.Order.{Delivered, Reachable-streams}
use circuit.EventStream.Metric.{StreamCmdMetric}
use circuit.EventStream.Metric.Timings.{HasPercentiles}
use circuit.EventStream.Command.{attach_hystrix_properties, collect_command_metrics}
use circuit.EventStream.Command.Reading.{
  FallbackHolds, latencies, Counts, FallbackCounts, Latencies,
}
use circuit.EventStream.Command.Collecting.{Found, collect_command_metrics-Counts}
use circuit.Tests.Percentile.{whole, whole-IsFloat64}
use circuit.Tests.Rolling.{clock, defaults, events, events_times}

-- The circuit tells its runs to listener 3, which is its statistics, and its fallbacks to listener 4.
abbrev circuit_with_stats : Circuit (Unit {0}) Closer (Unit {0})
circuit_with_stats = record {
  name = 1;
  not_thread_safe_config = default_command_properties;
  lost_errors = none;
  time_now = some 0;
  cmd_metric_collector = open_to_close ∷ closed_to_open ∷ listener 3 ∷ [];
  fallback_metric_collector = 4 ∷ [];
  circuit_metrics_collector = [];
  world = record {
    config = reset default_command_properties;
    is_err_interrupt = none;
    is_open = false;
    concurrent_commands = pos 0;
    concurrent_fallbacks = pos 0;
    opener = tt;
    closer = closer_factory default_configure_closer;
    pending_transitions = [];
    delivering_transitions = false;
    env = tt;
  };
}

abbrev pointers : FuncId → Collector
pointers f = stats 0

-- The statistics after the events, and those of a fallback that never ran.
abbrev told : RunStats
told =
    (handle_all-Holds 10 1_000_000_000 (pos 1000) 6 10_000_000_000 100 (omega arith) events
      (set_config-Holds clock zero_run_stats_config 10 1_000_000_000 6 10_000_000_000 100
        defaults).0
      (set_config-Holds clock zero_run_stats_config 10 1_000_000_000 6 10_000_000_000 100
        defaults).2
      events_times (omega arith)).0

told-Holds : Holds 10 1_000_000_000 (pos 1000) 6 10_000_000_000 100 events told
told-Holds =
    (handle_all-Holds 10 1_000_000_000 (pos 1000) 6 10_000_000_000 100 (omega arith) events
      (set_config-Holds clock zero_run_stats_config 10 1_000_000_000 6 10_000_000_000 100
        defaults).0
      (set_config-Holds clock zero_run_stats_config 10 1_000_000_000 6 10_000_000_000 100
        defaults).2
      events_times (omega arith)).2

usable : IsUsable 2 10
usable = omega arith

abbrev unused : FallbackStats
unused =
    let c = (new-Represents 2 10 (pos 1000) usable).0 in
    record { successes = c; err_concurrency_limit_rejects = c; err_failures = c }

unused-Holds : FallbackHolds 2 10 (pos 1000) no_events no_events no_events unused
unused-Holds =
    let v = (new-Represents 2 10 (pos 1000) usable).2 in
    record { successes = v; failures = v; rejects = v }

abbrev heap : Heap
heap = record { run = told ∷ []; fallback = unused ∷ [] }

abbrev no_opener : Unit {0} → Option Opener
no_opener o = none

abbrev hystrix_closer : Closer → Option Closer
hystrix_closer c = some c

abbrev later : FuncId → ℤ
later f = pos 6_000_000_000

found :
    Found no_opener hystrix_closer pointers pointers later circuit_with_stats heap 0 0 told unused
      (pos 6_000_000_000)
unfolding find_command_metrics find_fallback_metrics read_clock
found = record {
  pointer = refl;
  fallback_pointer = refl;
  points = refl;
  fallback_points = refl;
  reads = refl;
}

percentiles : HasPercentiles whole
percentiles = record { numbers = λ d. refl; halves = refl }

snapshot :
    latencies 6 10_000_000_000 100 (pos 1000) (pos 6_000_000_000) events
    ≡ pos 20 ∷ pos 50 ∷ pos 70 ∷ []
unfolding sorted_reports reports slot_durations live_samples sort_by insert_by time_sub ◌-ℤ◌
snapshot = refl

short : (i : ℕ) (d : ℤ) → get_elem? (pos 20 ∷ pos 50 ∷ pos 70 ∷ []) i ≡ some d → d ≤ℤ pos (2 ^ 53)
short zero d e = ground (arith, e)
short (suc zero) d e = ground (arith, e)
short (suc (suc zero)) d e = ground (arith, e)
short (suc (suc (suc i))) d e = absurd (ground (arith, e))

collect_command_metrics-Counts_example :
    (metric : StreamCmdMetric) × (heap' : Heap) × (collect_command_metrics whole no_opener
        hystrix_closer pointers pointers later circuit_with_stats heap
      ≡ some (
        attach_hystrix_properties whole no_opener hystrix_closer circuit_with_stats metric,
        heap',
      ))
    × Counts whole 10 1_000_000_000 (pos 1000) (pos 6_000_000_000) events metric
    × FallbackCounts 2 10 (pos 1000) (pos 6_000_000_000) no_events no_events no_events metric
    × Latencies (latencies 6 10_000_000_000 100 (pos 1000) (pos 6_000_000_000) events) metric
    × ((i : ℕ) → (i == 0) ≡ false → get_elem? heap'.run i ≡ get_elem? heap.run i)
    × ((i : ℕ) → (i == 0) ≡ false → get_elem? heap'.fallback i ≡ get_elem? heap.fallback i)
collect_command_metrics-Counts_example =
    collect_command_metrics-Counts no_opener hystrix_closer pointers pointers later whole 10
      1_000_000_000 (pos 1000) 6 10_000_000_000 100 events (pos 6_000_000_000) 2 10 (pos 1000)
      no_events no_events no_events circuit_with_stats heap 0 0 told unused whole-IsFloat64
      percentiles found (omega arith) (omega arith) told-Holds unused-Holds
      (rw snapshot (omega arith))
      (subst (λ s. (i : ℕ) (d : ℤ) → get_elem? s i ≡ some d → d ≤ℤ pos (2 ^ 53)) (sym snapshot)
        short)

-- Client 7 connects, and event 5 is offered and written to it.
abbrev joined : Streams
joined = record fresh { clients = put 7 (connect newcomer) fresh.clients }

abbrev sending : Streams
sending = record {
  clients = λ i. collect 5 (joined.clients i);
  current = some 5;
  sent = 5 ∷ [];
  closed = false;
}

abbrev offered : Streams
offered = record sending { clients = put 7 (offer 5 (sending.clients 7)) sending.clients }

abbrev written : Streams
written = record offered { clients = put 7 (write 5 [] (offered.clients 7)) offered.clients }

written-Reachable : Reachable written
unfolding connect collect offer
written-Reachable =
    stepped
      (stepped (stepped (stepped started (connects 7 fresh refl)) (sends 5 joined refl))
        (offers 7 5 sending refl refl))
      (writes 7 5 [] offered refl refl)

Reachable-streams_example : Delivered written (written.clients 7)
Reachable-streams_example = Reachable-streams written 7 written-Reachable
