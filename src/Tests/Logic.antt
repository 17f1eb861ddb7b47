-- ===== src/Tests/Logic.antt =====
-- closers/hystrix in a circuit: runs that open it and that close it.
use circuit.Prelude.{
  ℤ, pos, true, false, not, some, none, [], ◌≡◌, refl, arith, leb_ℤ, ◌+ℤ◌, ◌-ℤ◌, time_sub, Option,
  inl,
}
use circuit.Faststats.RollingCounter.Refinement.{IsUsable, new-Represents}
use circuit.Faststats.RollingCounter.History.{no_events}
use circuit.Circuit.Errors.{plain, is_bad_request}
use circuit.Circuit.Logic.{Parts, err_failure}
use circuit.Circuit.World.{AtomicCircuitConfig, World}
use circuit.Circuit.Execute.{judge, is_interrupt}
use circuit.Hystrix.Opener.{Opener, default_configure_opener}
use circuit.Hystrix.Opener.Threshold.{Tally, Holds}
use circuit.Hystrix.Opener.Logic.{opener_logic}
use circuit.Hystrix.Opener.Opening.{with_opener, decided, Ready, judge-decided}
use circuit.Hystrix.Closer.{ConfigureCloser, Closer, closer_factory, opened}
use circuit.Hystrix.Closer.Logic.{closer_logic}
use circuit.Hystrix.Closer.Closing.{with_closer, with_this, judge-recovers}

-- The environment is the clock, which a reading moves on.
abbrev parts : Parts (Option Opener) Closer ℤ
parts = record {
  closed_to_open = opener_logic;
  open_to_close = closer_logic;
  run_metrics = [];
  fallback_metrics = [];
  circuit_metrics = [];
  time_now = λ t. (t, t +ℤ pos 1);
  context_err = λ t. none;
}

abbrev config : AtomicCircuitConfig
config = record {
  execution_timeout = pos 100;
  max_concurrent_requests = pos 1;
  fallback_disabled = false;
  fallback_max_concurrent_requests = pos 1;
  force_open = false;
  forced_closed = false;
  disabled = false;
  ignore_interrupts = false;
}

-- Nothing has happened in the window, which has two buckets of 10 ns.
abbrev start_tally : Tally
start_tally = record { attempts = no_events; errors = no_events }

usable : IsUsable 2 10
usable = omega arith

abbrev start_opener : Opener
start_opener =
    let c = (new-Represents 2 10 (pos 100) usable).0 in
    record {
      errors_count = c;
      legitimate_attempts_count = c;
      error_percentage = pos 50;
      request_volume = pos 1;
      config = default_configure_opener;
    }

start-Holds : Holds 2 10 (pos 100) start_tally start_opener
start-Holds =
    let v = (new-Represents 2 10 (pos 100) usable).2 in record { attempts = v; errors = v }

abbrev closer_config : ConfigureCloser
closer_config = record {
  after_func = none;
  sleep_window = pos 10;
  half_open_attempts = pos 1;
  required_concurrent_successful = pos 1;
}

abbrev closed_circuit : World (Option Opener) Closer ℤ
closed_circuit = record {
  config = config;
  is_err_interrupt = none;
  is_open = false;
  concurrent_commands = pos 0;
  concurrent_fallbacks = pos 0;
  opener = some start_opener;
  closer = closer_factory closer_config;
  pending_transitions = [];
  delivering_transitions = false;
  env = pos 105;
}

-- Opened at 20 and probed from 45 to 60.
abbrev open_circuit : World (Option Opener) Closer ℤ
open_circuit = record closed_circuit {
  is_open = true;
  closer = opened (pos 20) (closer_factory closer_config);
  env = pos 60;
}

start-Ready : Ready 2 10 (pos 100) 50 (pos 105) start_tally start_opener
unfolding time_sub ◌-ℤ◌
start-Ready = record {
  holds = start-Holds;
  percentage = refl;
  attempts_fit = omega arith;
  percentage_fits = omega arith;
  errors_fit = omega arith;
}

judge-decided_example :
    (judge
      (with_opener parts)
      (some (plain 7))
      (pos 150)
      (pos 105)
      (pos 5)
      closed_circuit).1.is_open
    ≡ decided 2 10 (pos 100) 50 (pos 105) start_tally start_opener
unfolding is_bad_request is_interrupt
judge-decided_example =
    judge-decided parts (some (plain 7)) (pos 150) (pos 105) (pos 5) (err_failure (pos 105) (pos 5))
      2 10 (pos 100) 50 start_tally start_opener closed_circuit refl (inl refl) refl refl refl
      start-Ready

judge-recovers_example :
    (judge (with_closer parts) none (pos 150) (pos 60) (pos 15) open_circuit).1.is_open
    ≡ not (
        leb_ℤ open_circuit.closer.close_on_current_count
          (pos (with_this (pos 60) (pos 15) open_circuit.closer.opened_at 0)))
unfolding is_bad_request is_interrupt closer_factory opened
judge-recovers_example =
    judge-recovers parts none (pos 150) (pos 60) (pos 15) 0 open_circuit refl refl refl refl
      (omega arith)
