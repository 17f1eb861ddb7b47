-- ===== src/Rolling/StatFactory/Sharing.antt =====
-- metrics/rolling/rolling.go: the factory and the circuit share the statistics.
use circuit.Prelude.{
  ℕ, zero, suc, ℤ, List, [], ◌∷◌, ◌++◌, map, length, get_elem?, some, none, ◌==◌, false, ◌<◌, ◌≡◌,
  refl, sym, ◌∙◌, arith,
}
use circuit.Faststats.TimedCheck.{FuncId}
use circuit.Manager.{lookup, assign}
use circuit.Manager.Creating.{lookup-assign}
use circuit.Rolling.Config.{
  merge_run, merge_fallback, zero_run_stats_config, zero_fallback_stats_config,
}
use circuit.Rolling.RunStats
use circuit.Rolling.RunStats.{RunStats}
use circuit.Rolling.RunStats.Total
use circuit.Rolling.FallbackStats
use circuit.Rolling.FallbackStats.{FallbackStats}
use circuit.Rolling.FallbackStats.Total as FallbackTotal
use circuit.Rolling.StatFactory.{
  Heap, StatFactory, Collector, stats, foreign, Collectors, create_config, run_stats,
  fallback_stats, find_command_metrics, find_fallback_metrics,
}

module _ {A : Type 0} where
  get_elem?-end : (xs : List A) (x : A) → get_elem? (xs ++ x ∷ []) (length xs) ≡ some x
  get_elem?-end [] x = refl
  get_elem?-end (y ∷ xs) x = get_elem?-end xs x

  get_elem?-front :
      (xs ys : List A) (i : ℕ) → i < length xs → get_elem? (xs ++ ys) i ≡ get_elem? xs i
  get_elem?-front [] ys i h = elim h [ ]
  get_elem?-front (x ∷ xs) ys zero h = refl
  get_elem?-front (x ∷ xs) ys (suc i) h = get_elem?-front xs ys i (omega arith)

lookup-assign_self : (name r : ℕ) (m : List (ℕ × ℕ)) → lookup name (assign name r m) ≡ some r
lookup-assign_self name r m = ground (arith, lookup-assign name name r m)

lookup-assign_other :
    (name other r : ℕ) (m : List (ℕ × ℕ))
    → (other == name) ≡ false
    → lookup other (assign name r m) ≡ lookup other m
lookup-assign_other name other r m h = ground (arith, lookup-assign name other r m)

-- Collectors of others before it hide nothing.
find_command_metrics-stats :
    (before : List ℕ) (r : ℕ) (after : List Collector)
    → find_command_metrics (map foreign before ++ stats r ∷ after) ≡ some r
unfolding find_command_metrics
find_command_metrics-stats [] r after = refl
find_command_metrics-stats (c ∷ before) r after = find_command_metrics-stats before r after

find_fallback_metrics-stats :
    (before : List ℕ) (r : ℕ) (after : List Collector)
    → find_fallback_metrics (map foreign before ++ stats r ∷ after) ≡ some r
unfolding find_fallback_metrics
find_fallback_metrics-stats [] r after = refl
find_fallback_metrics-stats (c ∷ before) r after = find_fallback_metrics-stats before r after

-- The factory and the environment after a creation under a name, with the collectors of the circuit.
pub record Shares (clock : FuncId → ℤ) (name : ℕ) (s s' : StatFactory) (heap heap' : Heap)
    (out : Collectors) : Type 0 where
  pub rs : RunStats
  pub fs : FallbackStats
  pub configured :
      RunStats.set_config_not_thread_safe clock (merge_run zero_run_stats_config s.run_config)
      ≡ some rs
  pub fallback_configured :
      FallbackStats.set_config_not_thread_safe clock
        (merge_fallback zero_fallback_stats_config s.fallback_config)
      ≡ some fs
  pub pointer : ℕ
  pub fallback_pointer : ℕ
  pub points : get_elem? heap'.run pointer ≡ some rs
  pub fallback_points : get_elem? heap'.fallback fallback_pointer ≡ some fs
  pub fresh : get_elem? heap.run pointer ≡ none
  pub kept : run_stats name s' ≡ some pointer
  pub fallback_kept : fallback_stats name s' ≡ some fallback_pointer
  pub found :
      (before : List ℕ) (after : List Collector)
      → find_command_metrics (map foreign before ++ (out.run ++ after)) ≡ run_stats name s'
  pub fallback_found :
      (before : List ℕ) (after : List Collector)
      → find_fallback_metrics (map foreign before ++ (out.fallback ++ after))
        ≡ fallback_stats name s'
  pub others :
      (other : ℕ)
      → (other == name) ≡ false
      → run_stats other s' ≡ run_stats other s × fallback_stats other s' ≡ fallback_stats other s
  pub untouched : (p : ℕ) → p < length heap.run → get_elem? heap'.run p ≡ get_elem? heap.run p

get_elem?-past : {A : Type 0} → (xs : List A) → get_elem? xs (length xs) ≡ none
get_elem?-past [] = refl
get_elem?-past (x ∷ xs) = get_elem?-past xs

-- `CreateConfig` does not panic, whatever the factory's settings. It allocates statistics that are
-- configured with those settings and keeps them under the circuit's name; a circuit that gets the
-- returned collectors, after any collectors of others, is found to have the very same statistics; and
-- the statistics of the other names stay as they are.
pub create_config-Shares :
    (clock : FuncId → ℤ) (name : ℕ) (s : StatFactory) (heap : Heap)
    → (out : Collectors) × (s' : StatFactory) × (heap' : Heap) × (create_config clock name s heap
        ≡ some (out, s', heap'))
      × Shares clock name s s' heap heap' out
unfolding create_config run_stats fallback_stats
create_config-Shares clock name s heap =
    let (rs, run, _) = Total.set_config-some clock (merge_run zero_run_stats_config s.run_config) in
    let (fs, run') =
      FallbackTotal.set_config-some clock
        (merge_fallback zero_fallback_stats_config s.fallback_config) in
    let r = length heap.run in
    let f = length heap.fallback in
    let runs = s.run_stats_by_circuit in
    let fallbacks = s.fallback_stats_by_circuit in
    (
      record { run = stats r ∷ []; fallback = stats f ∷ [] },
      record s {
        run_stats_by_circuit = assign name r runs;
        fallback_stats_by_circuit = assign name f fallbacks;
      },
      record { run = heap.run ++ rs ∷ []; fallback = heap.fallback ++ fs ∷ [] },
      rw (run, run'),
      record {
        rs = rs;
        fs = fs;
        configured = run;
        fallback_configured = run';
        pointer = r;
        fallback_pointer = f;
        points = get_elem?-end heap.run rs;
        fallback_points = get_elem?-end heap.fallback fs;
        fresh = get_elem?-past heap.run;
        kept = lookup-assign_self name r runs;
        fallback_kept = lookup-assign_self name f fallbacks;
        found = λ before after.
            find_command_metrics-stats before r after ∙ sym (lookup-assign_self name r runs);
        fallback_found = λ before after.
            find_fallback_metrics-stats before f after ∙ sym (lookup-assign_self name f fallbacks);
        others = λ other h.
            (lookup-assign_other name other r runs h, lookup-assign_other name other f fallbacks h);
        untouched = λ p q. get_elem?-front heap.run (rs ∷ []) p q;
      },
    )
