-- ===== src/Tests/Rolling.antt =====
-- metrics/rolling/rolling.go: runs and instances.
use circuit.Prelude.{
  ℕ, ℤ, pos, negsuc, List, [], ◌∷◌, some, ◌>>=◌, ◌≡◌, ◌≤ℤ◌, refl, arith, wrap64, IsInt64, ◌+◌,
}
use circuit.Faststats.TimedCheck.{FuncId}
use circuit.Faststats.RollingCounter.History.{index?}
use circuit.Faststats.RollingPercentile.History.{moved, sorted_reports}
use circuit.Rolling.Config.{zero_run_stats_config, zero_fallback_stats_config}
use circuit.Rolling.RunStats
use circuit.Rolling.RunStats.{RunStats, renew, errors_at, legitimate_attempts_at, refresh}
use circuit.Rolling.RunStats.Counting
use circuit.Rolling.RunStats.Counting.{
  Event, successes, failures, timeouts, rejects, handle_all, samples,
}
use circuit.Rolling.RunStats.Configured.{HasWindows, in_window, handle_all-counts}
use circuit.Rolling.RunStats.Latencies.{handle_all-latencies}
use circuit.Rolling.StatFactory.{Heap, StatFactory, Collectors, create_config}
use circuit.Rolling.StatFactory.Sharing.{Shares, create_config-Shares}

abbrev pub clock : FuncId → ℤ
clock f = pos 1000

-- The defaults: ten buckets of a second, and six of ten seconds with 100 slots.
pub defaults : HasWindows zero_run_stats_config 10 1_000_000_000 6 10_000_000_000 100
defaults = record {
  span = 10_000_000_000;
  duration = refl;
  span_fits = omega arith;
  buckets = refl;
  width = refl;
  usable = omega arith;
  percentile_span = 60_000_000_000;
  percentile_duration = refl;
  percentile_span_fits = omega arith;
  percentile_buckets = refl;
  percentile_width = refl;
  percentile_usable = omega arith;
  percentile_size = refl;
  slots = omega arith;
}

-- The latest one first.
abbrev pub events : List Event
events =
    record { kind = timeouts; at = pos 5_000_000_000; duration = pos 70 }
    ∷ record { kind = rejects; at = pos 4_000_000_000; duration = pos 0 }
    ∷ record { kind = failures; at = pos 3_000_000_000; duration = pos 20 }
    ∷ record { kind = successes; at = pos 2_000_000_000; duration = pos 50 }
    ∷ []

int64 : (d : ℤ) → (negsuc 99 ≤ℤ d) × (d ≤ℤ pos 100) → IsInt64 d
int64 d h = record { low = omega (arith, h.0); high = omega (arith, h.1) }

pub events_times : Counting.AllTimes events
events_times = (
  int64 (pos 70) (omega arith),
  (int64 (pos 0) (omega arith), (int64 (pos 20) (omega arith), (int64 (pos 50) (omega arith), tt))),
)

abbrev counted : Counting.Kind → ℕ
counted k = in_window 10 1_000_000_000 (pos 1000) k (pos 6_000_000_000) events

handle_all-counts_example :
    (r : RunStats) × ((RunStats.set_config_not_thread_safe clock zero_run_stats_config >>= λ r₀.
    handle_all events r₀)
      ≡ some r)
    × ((r' : RunStats) × (errors_at (pos 6_000_000_000) r
          ≡ some (wrap64 (pos (counted failures + counted timeouts)), r')))
    × ((r' : RunStats) × (legitimate_attempts_at (pos 6_000_000_000) r
          ≡ some (wrap64 (pos (counted successes + (counted failures + counted timeouts))), r')))
handle_all-counts_example =
    handle_all-counts clock zero_run_stats_config 10 1_000_000_000 6 10_000_000_000 100 events
      (pos 6_000_000_000) defaults events_times (omega arith)

handle_all-latencies_example :
    (r' : RunStats) × ((RunStats.set_config_not_thread_safe clock zero_run_stats_config >>= λ r₀.
    handle_all events r₀ >>= λ r. refresh (pos 6_000_000_000) r)
      ≡ some (
        sorted_reports 6 100 (
            moved 6
              (index? (pos 1000) 10_000_000_000 (pos 6_000_000_000))
              (samples 6 10_000_000_000 (pos 1000) events)),
        r',
      ))
handle_all-latencies_example =
    handle_all-latencies clock zero_run_stats_config 10 1_000_000_000 6 10_000_000_000 100 events
      (pos 6_000_000_000) defaults (omega arith) events_times (omega arith)

abbrev factory : StatFactory
factory = record {
  run_config = zero_run_stats_config;
  fallback_config = zero_fallback_stats_config;
  run_stats_by_circuit = (7, 3) ∷ [];
  fallback_stats_by_circuit = [];
}

abbrev no_stats : Heap
no_stats = record { run = []; fallback = [] }

create_config-Shares_example :
    (out : Collectors) × (s' : StatFactory) × (heap' : Heap) × (create_config clock 5 factory
        no_stats
      ≡ some (out, s', heap'))
    × Shares clock 5 factory s' no_stats heap' out
create_config-Shares_example = create_config-Shares clock 5 factory no_stats
