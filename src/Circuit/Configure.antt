-- ===== src/Circuit/Configure.antt =====
-- circuit.go: how a circuit is built and configured. A function that the settings name by a number is
-- called by what `Functions` gives for it; a call of a nil one panics.
pub mod Rebuilding
use circuit.Prelude.{
  ℕ, ℤ, pos, Bool, true, false, Option, some, none, List, [], ◌∷◌, ◌++◌, map, ◌>>=◌, if◌then◌else◌,
}
use circuit.Faststats.TimedCheck.{FuncId}
use circuit.Circuit.Logic.{Transition, OpenerLogic, CloserLogic}
use circuit.Circuit.World.{World}
use circuit.Circuit.Config.{Config, merge, default_command_properties, reset}

-- The factories, which may act on the environment, the clocks, and the two methods of `Configurable`,
-- which do nothing to logic that is not configurable.
pub record Functions (O C E : Type 0) : Type 0 where
  pub closed_to_open_factory : FuncId → E → O × E
  pub open_to_closed_factory : FuncId → E → C × E
  pub time_now : FuncId → E → ℤ × E
  pub opener_logic : OpenerLogic O
  pub closer_logic : CloserLogic C
  pub opener_thread_safe : Config → O → O
  pub opener_not_thread_safe : Config → O → O
  pub closer_thread_safe : Config → C → C
  pub closer_not_thread_safe : Config → C → C

-- A member of `CmdMetricCollector`.
pub data RunListener : Type 0 where
  open_to_close : RunListener
  closed_to_open : RunListener
  listener : FuncId → RunListener

pub record Circuit (O C E : Type 0) : Type 0 where
  pub name : ℕ
  pub not_thread_safe_config : Config
  pub lost_errors : Option FuncId
  pub time_now : Option FuncId
  pub cmd_metric_collector : List RunListener
  pub fallback_metric_collector : List FuncId
  pub circuit_metrics_collector : List FuncId
  pub world : World O C E

-- What `SetConfigNotThreadSafe` finds: all else it overwrites.
pub record Idle (E : Type 0) : Type 0 where
  pub name : ℕ
  pub is_open : Bool
  pub concurrent_commands : ℤ
  pub concurrent_fallbacks : ℤ
  pub pending_transitions : List Transition
  pub delivering_transitions : Bool
  pub env : E

abbrev pub idle : {O C E : Type 0} → Circuit O C E → Idle E
idle c = record {
  name = c.name;
  is_open = c.world.is_open;
  concurrent_commands = c.world.concurrent_commands;
  concurrent_fallbacks = c.world.concurrent_fallbacks;
  pending_transitions = c.world.pending_transitions;
  delivering_transitions = c.world.delivering_transitions;
  env = c.world.env;
}

-- `&Circuit{name: name, ...}`: all else is zero.
abbrev pub zero_circuit : {E : Type 0} → ℕ → E → Idle E
zero_circuit name e = record {
  name = name;
  is_open = false;
  concurrent_commands = pos 0;
  concurrent_fallbacks = pos 0;
  pending_transitions = [];
  delivering_transitions = false;
  env = e;
}

module _ {O C E : Type 0} (fs : Functions O C E) where
  unfoldable pub set_config_thread_safe : Config → Circuit O C E → Circuit O C E
  set_config_thread_safe config c = record c {
    not_thread_safe_config = config;
    world = record c.world {
      config = reset config;
      is_err_interrupt = config.execution.is_err_interrupt;
      closer = fs.closer_thread_safe config c.world.closer;
      opener = fs.opener_thread_safe config c.world.opener;
    };
  }

  -- The circuit with new logic and collectors.
  unfoldable pub rebuilt : Config → Idle E → O → C → E → Circuit O C E
  rebuilt config i opener closer e = set_config_thread_safe config (record {
    name = i.name;
    not_thread_safe_config = config;
    lost_errors = config.general.go_lost_errors;
    time_now = config.general.time_keeper.now;
    cmd_metric_collector = open_to_close ∷ closed_to_open ∷ map listener config.metrics.run;
    fallback_metric_collector = config.metrics.fallback;
    circuit_metrics_collector = config.metrics.circuit;
    world = record {
      config = reset config;
      is_err_interrupt = config.execution.is_err_interrupt;
      is_open = i.is_open;
      concurrent_commands = i.concurrent_commands;
      concurrent_fallbacks = i.concurrent_fallbacks;
      opener = fs.opener_not_thread_safe config opener;
      closer = fs.closer_not_thread_safe config closer;
      pending_transitions = i.pending_transitions;
      delivering_transitions = i.delivering_transitions;
      env = e;
    };
  })

  -- New logic of an open circuit is told that it is open.
  unfoldable pub tell_open : Circuit O C E → Option (Circuit O C E)
  tell_open c =
      if c.world.is_open
      then (c.time_now >>= λ clock.
          let (t, e) = fs.time_now clock c.world.env in
          let opened : Transition = record { to_open = true; at = t } in
          some (record c {
            world = record c.world {
              closer = fs.closer_logic.notice opened c.world.closer;
              opener = fs.opener_logic.notice opened c.world.opener;
              env = e;
            };
          }))
      else some c

  unfoldable pub set_config_not_thread_safe : Config → Idle E → Option (Circuit O C E)
  set_config_not_thread_safe config i = config.general.open_to_closed_factory >>= λ f.
      config.general.closed_to_open_factory >>= λ g.
      let (closer, e) = fs.open_to_closed_factory f i.env in
      let (opener, e') = fs.closed_to_open_factory g e in
      tell_open (rebuilt config i opener closer e')

  unfoldable pub new_circuit_from_config : ℕ → Config → E → Option (Circuit O C E)
  new_circuit_from_config name config e =
      set_config_not_thread_safe (merge config default_command_properties) (zero_circuit name e)
