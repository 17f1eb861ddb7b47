-- ===== src/Hystrix/Closer.antt =====
-- closers/hystrix/closer.go: half-open probes, and the streak of successes that closes a circuit.
-- A method is one atomic step. JSON is not modelled.
pub mod Streak
pub mod Probes
pub mod Logic
pub mod Closing
use circuit.Prelude.{
  ℕ, ℤ, pos, negsuc, leb_ℤ, ltb_ℤ, eqb_ℤ, Bool, true, false, Option, some, none, add64, time_add,
  time_sub, after, if◌then◌else◌, ltb, leb, ◌==◌, sub64,
}
use circuit.Faststats.TimedCheck.{
  FuncId, TimedCheck, zero_check, set_sleep_duration, set_event_count_to_allow, sleep_start, check,
}

pub record ConfigureCloser : Type 0 where
  pub after_func : Option FuncId
  pub sleep_window : ℤ
  pub half_open_attempts : ℤ
  pub required_concurrent_successful : ℤ

abbrev pub or_else : ℤ → ℤ → ℤ
or_else a b = if eqb_ℤ a (pos 0) then b else a

abbrev pub or_func : Option FuncId → Option FuncId → Option FuncId
or_func none g = g
or_func (some f) g = some f

unfoldable pub merge : ConfigureCloser → ConfigureCloser → ConfigureCloser
merge c other = record {
  after_func = or_func c.after_func other.after_func;
  sleep_window = or_else c.sleep_window other.sleep_window;
  half_open_attempts = or_else c.half_open_attempts other.half_open_attempts;
  required_concurrent_successful =
      or_else c.required_concurrent_successful other.required_concurrent_successful;
}

abbrev pub default_configure_closer : ConfigureCloser
default_configure_closer = record {
  after_func = none;
  sleep_window = pos 5_000_000_000;
  half_open_attempts = pos 1;
  required_concurrent_successful = pos 1;
}

pub record Closer : Type 0 where
  pub reopen_circuit_check : TimedCheck
  pub concurrent_successful_attempts : ℤ
  pub close_on_current_count : ℤ
  pub opened_at : Option ℤ
  pub closed_at : Option ℤ
  pub sleep_window_ns : ℤ
  pub config : ConfigureCloser

unfoldable pub set_config_thread_safe : ConfigureCloser → Closer → Closer
set_config_thread_safe config s = record s {
  config = config;
  reopen_circuit_check =
      set_event_count_to_allow config.half_open_attempts
        (set_sleep_duration config.sleep_window s.reopen_circuit_check);
  sleep_window_ns = config.sleep_window;
  close_on_current_count = config.required_concurrent_successful;
}

unfoldable pub set_config_not_thread_safe : ConfigureCloser → Closer → Closer
unfolding set_config_thread_safe
set_config_not_thread_safe config s =
    let check = record s.reopen_circuit_check { time_after_func = config.after_func } in
    set_config_thread_safe config (record s { reopen_circuit_check = check })

unfoldable pub closer_factory : ConfigureCloser → Closer
unfolding merge set_config_not_thread_safe zero_check set_sleep_duration set_event_count_to_allow
closer_factory config = set_config_not_thread_safe (merge config default_configure_closer) (record {
  reopen_circuit_check = zero_check;
  concurrent_successful_attempts = pos 0;
  close_on_current_count = pos 0;
  opened_at = none;
  closed_at = none;
  sleep_window_ns = pos 0;
  config = record {
    after_func = none;
    sleep_window = pos 0;
    half_open_attempts = pos 0;
    required_concurrent_successful = pos 0;
  };
})

-- `CompareAndSwap(nil, &now)`.
abbrev pub fill : Option ℤ → ℤ → Option ℤ
fill none now = some now
fill (some t) now = some t

unfoldable pub arm : ℤ → Bool → Closer → Closer
arm now force s = record s {
  reopen_circuit_check = sleep_start now s.reopen_circuit_check;
  opened_at = if force then some now else fill s.opened_at now;
  concurrent_successful_attempts = pos 0;
}

unfoldable pub opened : ℤ → Closer → Closer
unfolding arm
opened now s = arm now true s

unfoldable pub closed : ℤ → Closer → Closer
closed now s = record s {
  closed_at = some now;
  opened_at = none;
  concurrent_successful_attempts = pos 0;
}

-- Whether `Closed` was told less than a sleep window before.
abbrev pub just_closed : Option ℤ → ℤ → ℤ → Bool
just_closed none now window = false
just_closed (some t) now window = ltb_ℤ (time_sub now t) window

unfoldable pub allow : ℤ → Closer → Bool × Closer
unfolding arm
allow now s = elim s.opened_at [
  | none ↦
      if just_closed s.closed_at now s.sleep_window_ns then (false, s) else (false, arm now false s)
  | some _ ↦
      let (ok, c) = check now s.reopen_circuit_check in (ok, record s { reopen_circuit_check = c })
]

-- `now.Add(-duration).After(*openedAt)`; the negation of a Duration wraps.
abbrev pub started_while_open : ℤ → ℤ → Option ℤ → Bool
started_while_open now duration none = false
started_while_open now duration (some t) = after (time_add now (sub64 (pos 0) duration)) t

unfoldable pub success : ℤ → ℤ → Closer → Closer
success now duration s =
    if started_while_open now duration s.opened_at
    then record s {
      concurrent_successful_attempts = add64 s.concurrent_successful_attempts (pos 1);
    }
    else s

unfoldable pub err_bad_request : ℤ → ℤ → Closer → Closer
err_bad_request now duration s = s

unfoldable pub err_interrupt : ℤ → ℤ → Closer → Closer
err_interrupt now duration s = s

unfoldable pub err_concurrency_limit_reject : ℤ → Closer → Closer
err_concurrency_limit_reject now s = s

unfoldable pub err_short_circuit : ℤ → Closer → Closer
err_short_circuit now s = s

unfoldable pub err_failure : ℤ → ℤ → Closer → Closer
err_failure now duration s =
    if started_while_open now duration s.opened_at
    then record s { concurrent_successful_attempts = pos 0 }
    else s

unfoldable pub err_timeout : ℤ → ℤ → Closer → Closer
err_timeout now duration s =
    if started_while_open now duration s.opened_at
    then record s { concurrent_successful_attempts = pos 0 }
    else s

unfoldable pub should_close : ℤ → Closer → Bool
should_close now s = leb_ℤ s.close_on_current_count s.concurrent_successful_attempts
