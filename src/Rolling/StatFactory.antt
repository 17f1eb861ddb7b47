-- ===== src/Rolling/StatFactory.antt =====
-- metrics/rolling/rolling.go: the factory that keeps the statistics of each circuit by its name, a
-- number. A pointer is an index into the statistics that were allocated, so that the circuit and the
-- factory share them. A method is one step under the mutex.
pub mod Sharing
use circuit.Prelude.{ℕ, ℤ, List, [], ◌∷◌, ◌++◌, Option, some, none, ◌>>=◌, length}
use circuit.Faststats.TimedCheck.{FuncId}
use circuit.Manager.{lookup, assign}
use circuit.Rolling.Config.{
  RunStatsConfig, FallbackStatsConfig, merge_run, merge_fallback, zero_run_stats_config,
  zero_fallback_stats_config,
}
use circuit.Rolling.RunStats
use circuit.Rolling.RunStats.{RunStats}
use circuit.Rolling.FallbackStats
use circuit.Rolling.FallbackStats.{FallbackStats}

-- What the environment allocated.
pub record Heap : Type 0 where
  pub run : List RunStats
  pub fallback : List FallbackStats

pub record StatFactory : Type 0 where
  pub run_config : RunStatsConfig
  pub fallback_config : FallbackStatsConfig
  pub run_stats_by_circuit : List (ℕ × ℕ)
  pub fallback_stats_by_circuit : List (ℕ × ℕ)

-- A collector of a circuit: a pointer to statistics, or an implementation of someone else.
pub data Collector : Type 0 where
  stats : ℕ → Collector
  foreign : ℕ → Collector

-- The collectors of the settings that the factory returns.
pub record Collectors : Type 0 where
  pub run : List Collector
  pub fallback : List Collector

unfoldable pub create_config :
    (FuncId → ℤ) → ℕ → StatFactory → Heap → Option (Collectors × StatFactory × Heap)
create_config clock name s heap = do
  rs ← RunStats.set_config_not_thread_safe clock (merge_run zero_run_stats_config s.run_config)
  fs ←
      FallbackStats.set_config_not_thread_safe clock
        (merge_fallback zero_fallback_stats_config s.fallback_config)
  let r = length heap.run
  let f = length heap.fallback
  some (
    record { run = stats r ∷ []; fallback = stats f ∷ [] },
    record s {
      run_stats_by_circuit = assign name r s.run_stats_by_circuit;
      fallback_stats_by_circuit = assign name f s.fallback_stats_by_circuit;
    },
    record { run = heap.run ++ rs ∷ []; fallback = heap.fallback ++ fs ∷ [] },
  )

-- The pointer of a circuit, or nil.
unfoldable pub run_stats : ℕ → StatFactory → Option ℕ
run_stats name s = lookup name s.run_stats_by_circuit

unfoldable pub fallback_stats : ℕ → StatFactory → Option ℕ
fallback_stats name s = lookup name s.fallback_stats_by_circuit

-- The first collector that is statistics of this package.
unfoldable pub find_command_metrics : List Collector → Option ℕ
find_command_metrics [] = none
find_command_metrics (stats r ∷ cs) = some r
find_command_metrics (foreign c ∷ cs) = find_command_metrics cs

unfoldable pub find_fallback_metrics : List Collector → Option ℕ
find_fallback_metrics [] = none
find_fallback_metrics (stats r ∷ cs) = some r
find_fallback_metrics (foreign c ∷ cs) = find_fallback_metrics cs
