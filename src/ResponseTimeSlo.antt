-- ===== src/ResponseTimeSlo.antt =====
-- metrics/responsetimeslo/responsetime.go: which requests meet the objective. A collector acts on the
-- environment, and is told `true` for `Passed` and `false` for `Failed`. Expvar is not modelled.
pub mod Counts
use circuit.Prelude.{
  ℕ, ℤ, pos, Bool, true, false, List, [], ◌∷◌, map, eqb_ℤ, leb_ℤ, ltb_ℤ, add64, if◌then◌else◌,
}
use circuit.Circuit.Logic.{
  RunEvent, success, err_failure, err_timeout, err_bad_request, err_interrupt,
  err_concurrency_limit_reject, err_short_circuit, tell_all,
}

pub record SloConfig : Type 0 where
  pub maximum_healthy_time : ℤ

unfoldable pub merge : SloConfig → SloConfig → SloConfig
merge c other = record {
  maximum_healthy_time =
      if eqb_ℤ c.maximum_healthy_time (pos 0)
      then other.maximum_healthy_time
      else c.maximum_healthy_time;
}

abbrev pub default_config : SloConfig
default_config = record { maximum_healthy_time = pos 250_000_000 }

pub record Tracker (E : Type 0) : Type 0 where
  pub maximum_healthy_time : ℤ
  pub meets_slo_count : ℤ
  pub fails_slo_count : ℤ
  pub collectors : List (Bool → E → E)
  pub config : SloConfig

pub record SloFactory (E : Type 0) : Type 0 where
  pub config : SloConfig
  pub config_constructor : List (ℕ → SloConfig)
  pub collector_constructors : List (ℕ → Bool → E → E)

-- From the last constructor to the first.
unfoldable pub merge_constructors : ℕ → List (ℕ → SloConfig) → SloConfig → SloConfig
merge_constructors name [] c = c
merge_constructors name (constructor ∷ constructors) c =
    merge (merge_constructors name constructors c) (constructor name)

unfoldable pub get_config : {E : Type 0} → SloFactory E → ℕ → SloConfig
get_config r name =
    merge
      (merge
        (merge_constructors name r.config_constructor (record { maximum_healthy_time = pos 0 }))
        r.config)
      default_config

module _ {E : Type 0} where
  unfoldable pub set_config_thread_safe : SloConfig → Tracker E → Tracker E
  set_config_thread_safe config r = record r {
    config = config;
    maximum_healthy_time = config.maximum_healthy_time;
  }

  -- The tracker that `CommandProperties` adds to a circuit.
  unfoldable pub command_properties : SloFactory E → ℕ → Tracker E
  command_properties r name = set_config_thread_safe (get_config r name) (record {
    maximum_healthy_time = pos 0;
    meets_slo_count = pos 0;
    fails_slo_count = pos 0;
    collectors = map (λ constructor. constructor name) r.collector_constructors;
    config = record { maximum_healthy_time = pos 0 };
  })

  unfoldable pub failure : Tracker E → E → Tracker E × E
  failure r e = (
    record r { fails_slo_count = add64 r.fails_slo_count (pos 1) },
    tell_all r.collectors false e,
  )

  unfoldable pub healthy : Tracker E → E → Tracker E × E
  healthy r e =
      (record r { meets_slo_count = add64 r.meets_slo_count (pos 1) }, tell_all r.collectors true e)

  -- The methods of `RunMetrics`.
  unfoldable pub observe : RunEvent → Tracker E → E → Tracker E × E
  observe (success now duration) r e =
      if leb_ℤ duration r.maximum_healthy_time then healthy r e else failure r e
  observe (err_failure now duration) r e = failure r e
  observe (err_timeout now duration) r e = failure r e
  observe (err_concurrency_limit_reject now) r e = failure r e
  observe (err_short_circuit now) r e = failure r e
  observe (err_bad_request now duration) r e = (r, e)
  observe (err_interrupt now duration) r e =
      if ltb_ℤ r.maximum_healthy_time duration then failure r e else (r, e)
