-- ===== src/Circuit/Logic.antt =====
-- metrics.go and closers.go: the events of a circuit, and the interfaces of what it is built from.
-- A method that has no result is a case of the event that it stands for.
use circuit.Prelude.{ℤ, Bool, Option, List, [], ◌∷◌}
use circuit.Circuit.Errors.{Err}

-- `RunMetrics`: at a time, and with the duration of the run if there was one.
pub data RunEvent : Type 0 where
  success err_failure err_timeout err_bad_request err_interrupt : ℤ → ℤ → RunEvent
  err_concurrency_limit_reject err_short_circuit : ℤ → RunEvent

-- `FallbackMetrics`.
pub data FallbackEvent : Type 0 where
  fallback_success fallback_failure : ℤ → ℤ → FallbackEvent
  fallback_reject : ℤ → FallbackEvent

-- `Opened` and `Closed` of `Metrics`.
pub record Transition : Type 0 where
  pub to_open : Bool
  pub at : ℤ

-- `ClosedToOpen`. A question may change the state, as a look at a rolling window does.
pub record OpenerLogic (O : Type 0) : Type 0 where
  pub observe : RunEvent → O → O
  pub notice : Transition → O → O
  pub should_open : ℤ → O → Bool × O
  pub prevent : ℤ → O → Bool × O

-- `OpenToClosed`.
pub record CloserLogic (C : Type 0) : Type 0 where
  pub observe : RunEvent → C → C
  pub notice : Transition → C → C
  pub should_close : ℤ → C → Bool × C
  pub allow : ℤ → C → Bool × C

-- The parts of a circuit: its logic, the user's listeners, which act on the environment, the clock,
-- and the error of the caller's context.
pub record Parts (O C E : Type 0) : Type 0 where
  pub closed_to_open : OpenerLogic O
  pub open_to_close : CloserLogic C
  pub run_metrics : List (RunEvent → E → E)
  pub fallback_metrics : List (FallbackEvent → E → E)
  pub circuit_metrics : List (Transition → E → E)
  pub time_now : E → ℤ × E
  pub context_err : E → Option Err

-- A collection tells each of its members in order.
unfoldable pub tell_all : {A E : Type 0} → List (A → E → E) → A → E → E
tell_all [] a e = e
tell_all (tell ∷ tells) a e = tell_all tells a (tell a e)
