-- ===== src/Circuit/World.antt =====
-- circuit.go and config.go: the state of a circuit and its environment.
use circuit.Prelude.{ℤ, Bool, true, false, Option, List, if◌then◌else◌}
use circuit.Circuit.Errors.{Err}
use circuit.Circuit.Logic.{RunEvent, FallbackEvent, Transition, Parts, tell_all}

-- `atomicCircuitConfig`.
pub record AtomicCircuitConfig : Type 0 where
  pub execution_timeout : ℤ
  pub max_concurrent_requests : ℤ
  pub fallback_disabled : Bool
  pub fallback_max_concurrent_requests : ℤ
  pub force_open : Bool
  pub forced_closed : Bool
  pub disabled : Bool
  pub ignore_interrupts : Bool

pub record World (O C E : Type 0) : Type 0 where
  pub config : AtomicCircuitConfig
  -- `notThreadSafeConfig.Execution.IsErrInterrupt`, nil or not.
  pub is_err_interrupt : Option (Err → Bool)
  pub is_open : Bool
  pub concurrent_commands : ℤ
  pub concurrent_fallbacks : ℤ
  pub opener : O
  pub closer : C
  pub pending_transitions : List Transition
  pub delivering_transitions : Bool
  pub env : E

-- `IsOpen`, of a circuit that is not nil.
unfoldable pub shows_open : {O C E : Type 0} → World O C E → Bool
shows_open w =
    if w.config.force_open then true else if w.config.forced_closed then false else w.is_open

module _ {O C E : Type 0} (p : Parts O C E) where
  -- `c.now()`.
  unfoldable pub now : World O C E → ℤ × World O C E
  now w = let (t, e) = p.time_now w.env in (t, record w { env = e })

  -- `CmdMetricCollector`: the closer, the opener and then the user's listeners.
  unfoldable pub emit : RunEvent → World O C E → World O C E
  emit event w = record w {
    closer = p.open_to_close.observe event w.closer;
    opener = p.closed_to_open.observe event w.opener;
    env = tell_all p.run_metrics event w.env;
  }

  unfoldable pub emit_fallback : FallbackEvent → World O C E → World O C E
  emit_fallback event w = record w { env = tell_all p.fallback_metrics event w.env }

  -- The questions to the logic.
  unfoldable pub should_open : ℤ → World O C E → Bool × World O C E
  should_open t w =
      let (yes?, o) = p.closed_to_open.should_open t w.opener in (yes?, record w { opener = o })

  unfoldable pub prevent : ℤ → World O C E → Bool × World O C E
  prevent t w =
      let (yes?, o) = p.closed_to_open.prevent t w.opener in (yes?, record w { opener = o })

  unfoldable pub should_close : ℤ → World O C E → Bool × World O C E
  should_close t w =
      let (yes?, c) = p.open_to_close.should_close t w.closer in (yes?, record w { closer = c })

  unfoldable pub allow : ℤ → World O C E → Bool × World O C E
  allow t w = let (yes?, c) = p.open_to_close.allow t w.closer in (yes?, record w { closer = c })
