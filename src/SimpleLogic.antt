-- ===== src/SimpleLogic.antt =====
-- closers/simplelogic/closers.go: `ConsecutiveErrOpener`, which opens a circuit on consecutive errors.
pub mod Streak
pub mod Opening
use circuit.Prelude.{ℤ, pos, Bool, true, false, not, add64, leb_ℤ, eqb_ℤ, if◌then◌else◌}
use circuit.Circuit.Logic.{
  RunEvent, success, err_failure, err_timeout, err_bad_request, err_interrupt,
  err_concurrency_limit_reject, err_short_circuit, Transition, OpenerLogic,
}

pub record ConsecutiveErrOpener : Type 0 where
  pub consecutive_count : ℤ
  pub close_threshold : ℤ

pub record ConfigConsecutiveErrOpener : Type 0 where
  pub error_threshold : ℤ

unfoldable pub merge :
    ConfigConsecutiveErrOpener → ConfigConsecutiveErrOpener → ConfigConsecutiveErrOpener
merge c other = record {
  error_threshold =
      if eqb_ℤ c.error_threshold (pos 0) then other.error_threshold else c.error_threshold;
}

abbrev pub default_config : ConfigConsecutiveErrOpener
default_config = record { error_threshold = pos 10 }

unfoldable pub set_config_thread_safe :
    ConfigConsecutiveErrOpener → ConsecutiveErrOpener → ConsecutiveErrOpener
set_config_thread_safe props c = record c { close_threshold = props.error_threshold }

unfoldable pub set_config_not_thread_safe :
    ConfigConsecutiveErrOpener → ConsecutiveErrOpener → ConsecutiveErrOpener
set_config_not_thread_safe props c = set_config_thread_safe props c

-- `ConsecutiveErrOpenerFactory`: from the zero struct.
unfoldable pub consecutive_err_opener_factory : ConfigConsecutiveErrOpener → ConsecutiveErrOpener
consecutive_err_opener_factory config =
    set_config_thread_safe (merge config default_config)
      (record { consecutive_count = pos 0; close_threshold = pos 0 })

-- `Success` to `ErrShortCircuit`.
unfoldable pub observe : RunEvent → ConsecutiveErrOpener → ConsecutiveErrOpener
observe (success now total) c =
    if not (eqb_ℤ c.consecutive_count (pos 0)) then record c { consecutive_count = pos 0 } else c
observe (err_failure now total) c = record c {
  consecutive_count = add64 c.consecutive_count (pos 1);
}
observe (err_timeout now total) c = record c {
  consecutive_count = add64 c.consecutive_count (pos 1);
}
observe (err_bad_request now total) c = c
observe (err_interrupt now total) c = c
observe (err_concurrency_limit_reject now) c = c
observe (err_short_circuit now) c = c

-- `Opened` and `Closed`.
unfoldable pub notice : Transition → ConsecutiveErrOpener → ConsecutiveErrOpener
notice t c = record c { consecutive_count = pos 0 }

unfoldable pub prevent : ℤ → ConsecutiveErrOpener → Bool
prevent now c = false

unfoldable pub should_open : ℤ → ConsecutiveErrOpener → Bool
should_open now c = leb_ℤ c.close_threshold c.consecutive_count

-- The opener as the logic of a circuit.
unfoldable pub consecutive_err_logic : OpenerLogic ConsecutiveErrOpener
consecutive_err_logic = record {
  observe = observe;
  notice = notice;
  should_open = λ now c. (should_open now c, c);
  prevent = λ now c. (prevent now c, c);
}
