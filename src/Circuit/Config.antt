-- ===== src/Circuit/Config.antt =====
-- config.go: the settings of a circuit, how they merge, and the atomic copy of them. A nil map and an
-- empty one read alike and are both the empty list; the keys and values of the custom settings, and the
-- functions that the code only keeps, are numbers. That `mergeCustomConfig` writes to a map that its
-- caller may share is not modelled.
pub mod Merging
use circuit.Prelude.{
  ℕ, ℤ, pos, Bool, true, false, not, Option, some, none, List, [], ◌∷◌, ◌++◌, eqb_ℤ, if◌then◌else◌,
  ◌==◌,
}
use circuit.Faststats.TimedCheck.{FuncId}
use circuit.Circuit.Errors.{Err}
use circuit.Circuit.World.{AtomicCircuitConfig}

pub record TimeKeeper : Type 0 where
  pub now : Option FuncId
  pub after_func : Option FuncId

pub record GeneralConfig : Type 0 where
  pub disabled : Bool
  pub force_open : Bool
  pub forced_closed : Bool
  pub go_lost_errors : Option FuncId
  pub closed_to_open_factory : Option FuncId
  pub open_to_closed_factory : Option FuncId
  pub custom_config : List (ℕ × ℕ)
  pub time_keeper : TimeKeeper

pub record ExecutionConfig : Type 0 where
  pub timeout : ℤ
  pub max_concurrent_requests : ℤ
  pub ignore_interrupts : Bool
  pub is_err_interrupt : Option (Err → Bool)

pub record FallbackConfig : Type 0 where
  pub disabled : Bool
  pub max_concurrent_requests : ℤ

pub record MetricsCollectors : Type 0 where
  pub run : List FuncId
  pub fallback : List FuncId
  pub circuit : List FuncId

pub record Config : Type 0 where
  pub general : GeneralConfig
  pub execution : ExecutionConfig
  pub fallback : FallbackConfig
  pub metrics : MetricsCollectors

-- A zero value takes the other one's.
abbrev pub or_number : ℤ → ℤ → ℤ
or_number a b = if eqb_ℤ a (pos 0) then b else a

abbrev pub or_flag : Bool → Bool → Bool
or_flag a b = if not a then b else a

abbrev pub or_nil : {A : Type 0} → Option A → Option A → Option A
or_nil none b = b
or_nil (some a) b = some a

unfoldable pub merge_time_keeper : TimeKeeper → TimeKeeper → TimeKeeper
merge_time_keeper t other = record {
  now = or_nil t.now other.now;
  after_func = or_nil t.after_func other.after_func;
}

unfoldable pub merge_execution : ExecutionConfig → ExecutionConfig → ExecutionConfig
merge_execution c other = record {
  ignore_interrupts = or_flag c.ignore_interrupts other.ignore_interrupts;
  is_err_interrupt = or_nil c.is_err_interrupt other.is_err_interrupt;
  max_concurrent_requests = or_number c.max_concurrent_requests other.max_concurrent_requests;
  timeout = or_number c.timeout other.timeout;
}

unfoldable pub merge_fallback : FallbackConfig → FallbackConfig → FallbackConfig
merge_fallback c other = record {
  max_concurrent_requests = or_number c.max_concurrent_requests other.max_concurrent_requests;
  disabled = or_flag c.disabled other.disabled;
}

-- The value of a key.
unfoldable pub find : ℕ → List (ℕ × ℕ) → Option ℕ
find k [] = none
find k ((key, value) ∷ rest) = if k == key then some value else find k rest

-- `if _, exists := g.CustomConfig[k]; !exists`.
unfoldable pub put_new : List (ℕ × ℕ) → ℕ → ℕ → List (ℕ × ℕ)
put_new g k v = elim (find k g) [ none ↦ g ++ (k, v) ∷ [] | some old ↦ g ]

unfoldable pub merge_custom_config : List (ℕ × ℕ) → List (ℕ × ℕ) → List (ℕ × ℕ)
merge_custom_config g [] = g
merge_custom_config g ((k, v) ∷ other) = merge_custom_config (put_new g k v) other

unfoldable pub merge_general : GeneralConfig → GeneralConfig → GeneralConfig
merge_general g other = record {
  closed_to_open_factory = or_nil g.closed_to_open_factory other.closed_to_open_factory;
  open_to_closed_factory = or_nil g.open_to_closed_factory other.open_to_closed_factory;
  custom_config = merge_custom_config g.custom_config other.custom_config;
  force_open = or_flag g.force_open other.force_open;
  forced_closed = or_flag g.forced_closed other.forced_closed;
  disabled = or_flag g.disabled other.disabled;
  go_lost_errors = or_nil g.go_lost_errors other.go_lost_errors;
  time_keeper = merge_time_keeper g.time_keeper other.time_keeper;
}

unfoldable pub merge_metrics : MetricsCollectors → MetricsCollectors → MetricsCollectors
merge_metrics m other = record {
  run = m.run ++ other.run;
  fallback = m.fallback ++ other.fallback;
  circuit = m.circuit ++ other.circuit;
}

unfoldable pub merge : Config → Config → Config
merge c other = record {
  execution = merge_execution c.execution other.execution;
  fallback = merge_fallback c.fallback other.fallback;
  metrics = merge_metrics c.metrics other.metrics;
  general = merge_general c.general other.general;
}

-- `Config{}`.
abbrev pub empty_config : Config
empty_config = record {
  general = record {
    disabled = false;
    force_open = false;
    forced_closed = false;
    go_lost_errors = none;
    closed_to_open_factory = none;
    open_to_closed_factory = none;
    custom_config = [];
    time_keeper = record { now = none; after_func = none };
  };
  execution = record {
    timeout = pos 0;
    max_concurrent_requests = pos 0;
    ignore_interrupts = false;
    is_err_interrupt = none;
  };
  fallback = record { disabled = false; max_concurrent_requests = pos 0 };
  metrics = record { run = []; fallback = []; circuit = [] };
}

-- `neverOpensFactory`, `neverClosesFactory`, `time.Now` and `time.AfterFunc`.
abbrev pub never_opens_factory : FuncId
never_opens_factory = 0

abbrev pub never_closes_factory : FuncId
never_closes_factory = 1

abbrev pub time_now : FuncId
time_now = 2

abbrev pub time_after_func : FuncId
time_after_func = 3

-- `defaultCommandProperties`; a second is 10^9 nanoseconds.
abbrev pub default_command_properties : Config
default_command_properties = record {
  general = record empty_config.general {
    closed_to_open_factory = some never_opens_factory;
    open_to_closed_factory = some never_closes_factory;
    time_keeper = record { now = some time_now; after_func = some time_after_func };
  };
  execution = record empty_config.execution {
    timeout = pos 1_000_000_000;
    max_concurrent_requests = pos 10;
  };
  fallback = record { disabled = false; max_concurrent_requests = pos 10 };
  metrics = empty_config.metrics;
}

-- `atomicCircuitConfig.reset` sets every field.
unfoldable pub reset : Config → AtomicCircuitConfig
reset config = record {
  forced_closed = config.general.forced_closed;
  force_open = config.general.force_open;
  disabled = config.general.disabled;
  execution_timeout = config.execution.timeout;
  max_concurrent_requests = config.execution.max_concurrent_requests;
  ignore_interrupts = config.execution.ignore_interrupts;
  fallback_disabled = config.fallback.disabled;
  fallback_max_concurrent_requests = config.fallback.max_concurrent_requests;
}
