-- ===== src/Tests/Execute.antt =====
-- circuit.go: runs of a circuit with the logic of the packages simplelogic and hystrix.
use circuit.Prelude.{
  leb_ℤ, ℤ, pos, true, false, some, none, List, [], ◌∷◌, ◌≡◌, refl, arith, ◌+ℤ◌, add64, wrap64,
  sub64, ◌-ℤ◌, time_add,
}
use circuit.Circuit.Errors.{
  is_bad_request, reference, is_bad_request-reference, plain, bad_request, wrap, err_circuit_open,
  err_throttled_concurrent_commands,
}
use circuit.Circuit.Logic.{
  RunEvent, success, err_failure, err_short_circuit, err_concurrency_limit_reject, Parts, tell_all,
}
use circuit.Circuit.World.{
  AtomicCircuitConfig, World, shows_open, now, emit, should_open, should_close,
}
use circuit.Circuit.Transitions.{
  attempt_to_open, transition_to, commit_transition, ask, flip, notify_state_machines,
  deliver_pending_transitions, drain, notify_listeners,
}
use circuit.Circuit.Execute.{
  returned, RunFunc, FallbackFunc, judge, check_err_bad_request, check_err_timeout,
  check_err_interrupt, check_err_failure, check_success, count_failure, execute, fallback,
  is_interrupt,
}
use circuit.Circuit.Execute.Kept.{Kept}
use circuit.Circuit.Execute.Counters.{execute-Kept}
use circuit.Circuit.Execute.Refusals.{asked, entered, execute-refused, execute-throttled}
use circuit.Circuit.Execute.Outcomes.{MayOpen, MayClose, judge-opens, judge-closes}
use circuit.Hystrix.Closer
use circuit.Hystrix.Closer.Logic
use circuit.Hystrix.Closer.{ConfigureCloser, Closer, closer_factory, opened}
use circuit.Hystrix.Closer.Logic.{closer_logic}
use circuit.SimpleLogic
use circuit.SimpleLogic.Opening.{with_opener, judge-threshold}
use circuit.SimpleLogic.{ConsecutiveErrOpener, consecutive_err_logic}

-- The environment: the clock, which a reading moves on, and what the listener heard.
record Env : Type 0 where
  clock : ℤ
  log : List RunEvent

abbrev parts : Parts ConsecutiveErrOpener Closer Env
parts = record {
  closed_to_open = consecutive_err_logic;
  open_to_close = closer_logic;
  run_metrics = (λ event e. record e { log = event ∷ e.log }) ∷ [];
  fallback_metrics = [];
  circuit_metrics = [];
  time_now = λ e. (e.clock, record e { clock = e.clock +ℤ pos 1 });
  context_err = λ e. none;
}

abbrev config : AtomicCircuitConfig
config = record {
  execution_timeout = pos 100;
  max_concurrent_requests = pos 1;
  fallback_disabled = false;
  fallback_max_concurrent_requests = pos 1;
  force_open = false;
  forced_closed = false;
  disabled = false;
  ignore_interrupts = false;
}

abbrev closer_config : ConfigureCloser
closer_config = record {
  after_func = none;
  sleep_window = pos 10;
  half_open_attempts = pos 1;
  required_concurrent_successful = pos 1;
}

-- A closed circuit that opens at the first failure.
abbrev closed_circuit : World ConsecutiveErrOpener Closer Env
closed_circuit = record {
  config = config;
  is_err_interrupt = none;
  is_open = false;
  concurrent_commands = pos 0;
  concurrent_fallbacks = pos 0;
  opener = record { consecutive_count = pos 0; close_threshold = pos 1 };
  closer = closer_factory closer_config;
  pending_transitions = [];
  delivering_transitions = false;
  env = record { clock = pos 50; log = [] };
}

abbrev forced_circuit : World ConsecutiveErrOpener Closer Env
forced_circuit = record closed_circuit { config = record config { force_open = true } }

abbrev busy_circuit : World ConsecutiveErrOpener Closer Env
busy_circuit = record closed_circuit { concurrent_commands = pos 1 }

abbrev fails : RunFunc ConsecutiveErrOpener Closer Env
fails deadline w = (returned (some (plain 7)), w)

abbrev recovers : FallbackFunc ConsecutiveErrOpener Closer Env
recovers err w = (returned none, w)

execute-Kept_example :
    Kept closed_circuit (execute parts false (some fails) (some recovers) closed_circuit).1
execute-Kept_example =
    execute-Kept parts false fails (some recovers) closed_circuit
      (λ d w. record { commands = refl; fallbacks = refl })
      (λ e w. record { commands = refl; fallbacks = refl })
      (record { low = omega arith; high = omega arith })
      (record { low = omega arith; high = omega arith })

execute-refused_example :
    execute parts false (some fails) (some recovers) forced_circuit
    ≡ fallback parts (some recovers) err_circuit_open (
        emit parts
          (err_short_circuit (now parts forced_circuit).0)
          (asked parts (now parts forced_circuit).0 (now parts forced_circuit).1))
unfolding now shows_open
execute-refused_example = execute-refused parts fails (some recovers) forced_circuit refl refl

execute-throttled_example :
    execute parts false (some fails) (some recovers) busy_circuit
    ≡ fallback parts (some recovers) err_throttled_concurrent_commands (
        emit parts
          (err_concurrency_limit_reject (now parts busy_circuit).0)
          (entered parts (now parts busy_circuit).0 (now parts busy_circuit).1))
unfolding now ◌+ℤ◌ shows_open consecutive_err_logic SimpleLogic.prevent
execute-throttled_example =
    execute-throttled parts fails (some recovers) busy_circuit refl refl refl
      (record { low = omega arith; high = omega arith })
      (record { low = omega arith; high = omega arith }) (omega arith) (omega arith)

opens_run :
    (judge parts (some (plain 7)) (pos 150) (pos 60) (pos 10) closed_circuit).1.is_open ≡ true
unfolding judge check_err_bad_request check_err_timeout check_err_interrupt check_err_failure
    check_success count_failure is_bad_request is_interrupt attempt_to_open should_open should_close
    transition_to commit_transition ask flip notify_state_machines deliver_pending_transitions drain
    notify_listeners emit tell_all now consecutive_err_logic closer_logic SimpleLogic.observe
    SimpleLogic.should_open SimpleLogic.notice add64 wrap64 ◌+ℤ◌
opens_run = refl

judge-opens_example : MayOpen parts (err_failure (pos 60) (pos 10)) (pos 60) closed_circuit
unfolding is_bad_request is_interrupt
judge-opens_example =
    judge-opens parts (some (plain 7)) (pos 150) (pos 60) (pos 10) closed_circuit refl opens_run

-- Opened at 20 and probed from 45 to 60.
abbrev open_circuit : World ConsecutiveErrOpener Closer Env
open_circuit = record closed_circuit {
  is_open = true;
  closer = opened (pos 20) (closer_factory closer_config);
}

closes_run : (judge parts none (pos 150) (pos 60) (pos 15) open_circuit).1.is_open ≡ false
unfolding judge check_err_bad_request check_err_timeout check_err_interrupt check_err_failure
    check_success count_failure is_bad_request is_interrupt attempt_to_open should_open should_close
    transition_to commit_transition ask flip notify_state_machines deliver_pending_transitions drain
    notify_listeners emit tell_all now consecutive_err_logic closer_logic SimpleLogic.observe
    SimpleLogic.should_open SimpleLogic.notice add64 wrap64 ◌+ℤ◌ Closer.should_close Logic.observe
    Logic.notice Closer.success opened time_add sub64 ◌-ℤ◌ closer_factory
closes_run = refl

judge-closes_example : MayClose parts (success (pos 60) (pos 15)) (pos 60) (pos 15) open_circuit
judge-closes_example =
    judge-closes parts none (pos 150) (pos 60) (pos 15) open_circuit refl closes_run

is_bad_request-reference_example :
    is_bad_request (some (wrap (bad_request true))) ≡ reference (some (wrap (bad_request true)))
is_bad_request-reference_example = is_bad_request-reference (some (wrap (bad_request true)))

judge-threshold_example :
    (judge
      (with_opener parts)
      (some (plain 7))
      (pos 150)
      (pos 60)
      (pos 10)
      closed_circuit).1.is_open
    ≡ leb_ℤ closed_circuit.opener.close_threshold (pos 1)
unfolding is_bad_request is_interrupt
judge-threshold_example =
    judge-threshold parts (some (plain 7)) (pos 150) (pos 60) (pos 10) 0 closed_circuit refl refl
      refl refl (omega arith)
