-- ===== src/Circuit/Config/Merging.antt =====
-- config.go: merging keeps what is set first.
use mathlib.Core.List.{append_assoc}
use circuit.Prelude.{
  ℕ, ℤ, Bool, true, false, Option, some, none, List, [], ◌∷◌, ◌++◌, if◌then◌else◌, ◌==◌, ◌≡◌, ◌∙◌,
  refl, sym, ap, arith,
}
use circuit.Circuit.Config.{
  GeneralConfig, ExecutionConfig, Config, or_number, or_flag, or_nil, merge_time_keeper,
  merge_execution, merge_fallback, find, put_new, merge_custom_config, merge_general, merge_metrics,
  merge,
}

find-append :
    (k : ℕ) (g other : List (ℕ × ℕ)) → find k (g ++ other) ≡ or_nil (find k g) (find k other)
unfolding find
find-append k [] other = refl
find-append k ((key, v) ∷ g) other = ground (arith, find-append k g other)

find-put_new :
    (k key v : ℕ) (g : List (ℕ × ℕ))
    → find k (put_new g key v) ≡ or_nil (find k g) (if k == key then some v else none)
unfolding put_new find
find-put_new k key v g = ground (arith, find-append k g ((key, v) ∷ []))

-- A key of the merged custom settings has the receiver's value if it is there, and else the other's.
pub find-merge_custom_config :
    (k : ℕ) (g other : List (ℕ × ℕ))
    → find k (merge_custom_config g other) ≡ or_nil (find k g) (find k other)
unfolding merge_custom_config find
find-merge_custom_config k g [] = ground arith
find-merge_custom_config k g ((key, v) ∷ other) =
    ground (arith, find-merge_custom_config k (put_new g key v) other, find-put_new k key v g)

put_new_old : (g : List (ℕ × ℕ)) (k v old : ℕ) → find k g ≡ some old → put_new g k v ≡ g
unfolding put_new
put_new_old g k v old h = ground (arith, h)

put_new_missing : (g : List (ℕ × ℕ)) (k v : ℕ) → find k g ≡ none → put_new g k v ≡ g ++ (k, v) ∷ []
unfolding put_new
put_new_missing g k v h = ground (arith, h)

put_new_found :
    (g : List (ℕ × ℕ)) (k v : ℕ) (first : Option ℕ) (old : ℕ)
    → find k g ≡ or_nil first (some old)
    → put_new g k v ≡ g
put_new_found g k v none old h = put_new_old g k v old h
put_new_found g k v (some a) old h = put_new_old g k v a h

merge_custom_config-snoc :
    (g other : List (ℕ × ℕ)) (k v : ℕ)
    → merge_custom_config g (other ++ (k, v) ∷ []) ≡ put_new (merge_custom_config g other) k v
unfolding merge_custom_config
merge_custom_config-snoc g [] k v = refl
merge_custom_config-snoc g ((key, w) ∷ other) k v =
    merge_custom_config-snoc (put_new g key w) other k v

merge_custom_config-put_new :
    (g other : List (ℕ × ℕ)) (k v : ℕ)
    → merge_custom_config g (put_new other k v) ≡ put_new (merge_custom_config g other) k v
merge_custom_config-put_new g other k v = by_value (find k other) refl
  where
    by_value :
        (found : Option ℕ)
        → find k other ≡ found
        → merge_custom_config g (put_new other k v) ≡ put_new (merge_custom_config g other) k v
    by_value none h =
        ap (merge_custom_config g) (put_new_missing other k v h)
        ∙ merge_custom_config-snoc g other k v
    by_value (some old) h =
        ap (merge_custom_config g) (put_new_old other k v old h)
        ∙ sym (
            put_new_found (merge_custom_config g other) k v (find k g) old
              (find-merge_custom_config k g other ∙ ap (or_nil (find k g)) h))

merge_custom_config_assoc :
    (a b c : List (ℕ × ℕ))
    → merge_custom_config (merge_custom_config a b) c
      ≡ merge_custom_config a (merge_custom_config b c)
unfolding merge_custom_config
merge_custom_config_assoc a b [] = refl
merge_custom_config_assoc a b ((k, v) ∷ c) =
    ap (λ m. merge_custom_config m c) (sym (merge_custom_config-put_new a b k v))
    ∙ merge_custom_config_assoc a (put_new b k v) c

or_number_assoc : (a b c : ℤ) → or_number (or_number a b) c ≡ or_number a (or_number b c)
or_number_assoc a b c = ground arith

or_flag_assoc : (a b c : Bool) → or_flag (or_flag a b) c ≡ or_flag a (or_flag b c)
or_flag_assoc true b c = refl
or_flag_assoc false b c = refl

or_nil_assoc : {A : Type 0} → (a b c : Option A) → or_nil (or_nil a b) c ≡ or_nil a (or_nil b c)
or_nil_assoc none b c = refl
or_nil_assoc (some a) b c = refl

merge_general_assoc :
    (a b c : GeneralConfig)
    → merge_general (merge_general a b) c ≡ merge_general a (merge_general b c)
unfolding merge_general merge_time_keeper
merge_general_assoc a b c = λ i. record {
  closed_to_open_factory =
      or_nil_assoc a.closed_to_open_factory b.closed_to_open_factory c.closed_to_open_factory i;
  open_to_closed_factory =
      or_nil_assoc a.open_to_closed_factory b.open_to_closed_factory c.open_to_closed_factory i;
  custom_config = merge_custom_config_assoc a.custom_config b.custom_config c.custom_config i;
  force_open = or_flag_assoc a.force_open b.force_open c.force_open i;
  forced_closed = or_flag_assoc a.forced_closed b.forced_closed c.forced_closed i;
  disabled = or_flag_assoc a.disabled b.disabled c.disabled i;
  go_lost_errors = or_nil_assoc a.go_lost_errors b.go_lost_errors c.go_lost_errors i;
  time_keeper = record {
    now = or_nil_assoc a.time_keeper.now b.time_keeper.now c.time_keeper.now i;
    after_func =
        or_nil_assoc a.time_keeper.after_func b.time_keeper.after_func c.time_keeper.after_func i;
  };
}

merge_execution_assoc :
    (a b c : ExecutionConfig)
    → merge_execution (merge_execution a b) c ≡ merge_execution a (merge_execution b c)
unfolding merge_execution
merge_execution_assoc a b c = λ i. record {
  ignore_interrupts = or_flag_assoc a.ignore_interrupts b.ignore_interrupts c.ignore_interrupts i;
  is_err_interrupt = or_nil_assoc a.is_err_interrupt b.is_err_interrupt c.is_err_interrupt i;
  max_concurrent_requests =
      or_number_assoc a.max_concurrent_requests b.max_concurrent_requests c.max_concurrent_requests
        i;
  timeout = or_number_assoc a.timeout b.timeout c.timeout i;
}

-- Merging is associative: what is merged step by step does not depend on the grouping, in any field,
-- the custom settings and the listeners included.
pub merge_assoc : (a b c : Config) → merge (merge a b) c ≡ merge a (merge b c)
unfolding merge merge_fallback merge_metrics
merge_assoc a b c = λ i. record {
  general = merge_general_assoc a.general b.general c.general i;
  execution = merge_execution_assoc a.execution b.execution c.execution i;
  fallback = record {
    max_concurrent_requests =
        or_number_assoc a.fallback.max_concurrent_requests b.fallback.max_concurrent_requests
          c.fallback.max_concurrent_requests i;
    disabled = or_flag_assoc a.fallback.disabled b.fallback.disabled c.fallback.disabled i;
  };
  metrics = record {
    run = append_assoc a.metrics.run b.metrics.run c.metrics.run i;
    fallback = append_assoc a.metrics.fallback b.metrics.fallback c.metrics.fallback i;
    circuit = append_assoc a.metrics.circuit b.metrics.circuit c.metrics.circuit i;
  };
}
