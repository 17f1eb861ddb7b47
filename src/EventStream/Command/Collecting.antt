-- ===== src/EventStream/Command/Collecting.antt =====
-- metriceventstream/metriceventstream.go: the metric of a circuit that has rolling statistics.
use circuit.Prelude.{
  ℕ, zero, suc, ℤ, pos, List, [], ◌∷◌, map, set, length, get_elem?, Option, some, ◌==◌, false, ◌*◌,
  ◌^◌, ◌<◌, ◌≤◌, ◌≡◌, ◌≤ℤ◌, refl, arith,
}
use circuit.Faststats.TimedCheck.{FuncId}
use circuit.Faststats.RollingCounter.History.{History}
use circuit.Faststats.SortedDurations.{Float64}
use circuit.Faststats.SortedDurations.Floats.{IsFloat64}
use circuit.Hystrix.Opener.{Opener}
use circuit.Hystrix.Closer.{Closer}
use circuit.Circuit.Configure.{Circuit}
use circuit.Rolling.Config.{read_clock}
use circuit.Rolling.RunStats.{RunStats}
use circuit.Rolling.RunStats.Counting.{Event, Holds}
use circuit.Rolling.FallbackStats.{FallbackStats}
use circuit.Rolling.StatFactory.{Heap, Collector, find_command_metrics, find_fallback_metrics}
use circuit.EventStream.Metric.{StreamCmdMetric}
use circuit.EventStream.Command.{attach_hystrix_properties, collect_command_metrics, run_collector}
use circuit.EventStream.Metric.Timings.{HasPercentiles}
use circuit.EventStream.Command.Reading.{
  FallbackHolds, latencies, Counts, FallbackCounts, Latencies, measure-Counts,
}

get_elem?-set_other :
    {A : Type 0}
    → (xs : List A) (i j : ℕ) (x : A) → (j == i) ≡ false
    → get_elem? (set xs i x) j ≡ get_elem? xs j
get_elem?-set_other [] i j x h = refl
get_elem?-set_other (y ∷ xs) zero zero x h = absurd (ground (arith, h))
get_elem?-set_other (y ∷ xs) zero (suc j) x h = refl
get_elem?-set_other (y ∷ xs) (suc i) zero x h = refl
get_elem?-set_other (y ∷ xs) (suc i) (suc j) x h = get_elem?-set_other xs i j x (ground (arith, h))

module _ {O C E : Type 0} (as_opener : O → Option Opener) (as_closer : C → Option Closer)
    (run_stats fallback_stats : FuncId → Collector) (clock : FuncId → ℤ) where
  -- The statistics that the collectors of a circuit point to, and the reading of its clock.
  pub record Found (cb : Circuit O C E) (heap : Heap) (p q : ℕ) (r : RunStats) (fb : FallbackStats)
      (now : ℤ) : Type 0 where
    pub pointer :
        find_command_metrics (map (run_collector run_stats) cb.cmd_metric_collector) ≡ some p
    pub fallback_pointer :
        find_fallback_metrics (map fallback_stats cb.fallback_metric_collector) ≡ some q
    pub points : get_elem? heap.run p ≡ some r
    pub fallback_points : get_elem? heap.fallback q ≡ some fb
    pub reads : read_clock clock cb.not_thread_safe_config.general.time_keeper.now ≡ some now

  -- The metric of a circuit, read at its clock's time from the statistics that it tells its events,
  -- does not panic, for at most 2^53 latencies in the window of at most 2^53 nanoseconds each. Its
  -- counts are those of one look at the windows at that time, although the code reads some counters
  -- three times: the requests are the successes, failures, timeouts and interrupts, the errors the
  -- failures and timeouts. The timings lie between the least and the greatest latency of the window,
  -- in milliseconds. The statistics of other circuits are not touched.
  pub collect_command_metrics-Counts :
      (f : Float64) (n w : ℕ) (start : ℤ) (k v m : ℕ) (es : List Event) (now : ℤ) (n' w' : ℕ)
      (start' : ℤ) (ok faults refusals : History) (cb : Circuit O C E) (heap : Heap) (p q : ℕ)
      (r : RunStats) (fb : FallbackStats)
      → IsFloat64 f
      → HasPercentiles f
      → Found cb heap p q r fb now
      → 0 < m
      → k * m < 2 ^ 63
      → Holds n w start k v m es r
      → FallbackHolds n' w' start' ok faults refusals fb
      → length (latencies k v m start now es) ≤ 2 ^ 53
      → ((i : ℕ) (d : ℤ) → get_elem? (latencies k v m start now es) i ≡ some d → d ≤ℤ pos (2 ^ 53))
      → (metric : StreamCmdMetric) × (heap' : Heap) × (collect_command_metrics f as_opener as_closer
            run_stats fallback_stats clock cb heap
          ≡ some (attach_hystrix_properties f as_opener as_closer cb metric, heap'))
        × Counts f n w start now es metric
        × FallbackCounts n' w' start' now ok faults refusals metric
        × Latencies (latencies k v m start now es) metric
        × ((i : ℕ) → (i == p) ≡ false → get_elem? heap'.run i ≡ get_elem? heap.run i)
        × ((i : ℕ) → (i == q) ≡ false → get_elem? heap'.fallback i ≡ get_elem? heap.fallback i)
  unfolding collect_command_metrics
  collect_command_metrics-Counts f n w start k v m es now n' w' start' ok faults refusals cb heap p
        q r fb laws num found slots fits h g few small =
      let (metric, r', fb', run, counts, fallback_counts, times) =
        measure-Counts as_opener as_closer f n w start k v m es now n' w' start' ok faults refusals
          cb r fb laws num slots fits h g few small in
      (
        metric,
        record { run = set heap.run p r'; fallback = set heap.fallback q fb' },
        rw (found.pointer, found.fallback_pointer)
            (rw (found.points, found.fallback_points, found.reads, run) refl),
        counts,
        fallback_counts,
        times,
        λ i other. get_elem?-set_other heap.run p i r' other,
        λ i other. get_elem?-set_other heap.fallback q i fb' other,
      )
