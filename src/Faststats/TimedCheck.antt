-- ===== src/Faststats/TimedCheck.antt =====
-- faststats/timedcheck.go: lets so many checks pass in each sleep. A method is one atomic step. A
-- timer that was set may call back at any later time, also after `Stop`; its callback is `fire`.
-- Strings are not modelled.
pub mod Rate
pub mod Timers
pub mod Json
use circuit.Prelude.{
  ℕ, ℤ, pos, leb_ℤ, eqb_ℤ, Bool, true, false, List, [], ◌∷◌, Option, some, none, add64, time_add,
  after, if◌then◌else◌, leb, ltb, ◌==◌,
}

-- A function value, which the code only compares with nil and passes on.
abbrev pub FuncId : Type 0
FuncId = ℕ

-- A timer, by the version that its callback has kept.
pub record Timer : Type 0 where
  pub version : ℤ
  pub duration : ℤ

pub record TimedCheck : Type 0 where
  pub sleep_duration : ℤ
  pub event_count_to_allow : ℤ
  pub is_fast_fail : Bool
  pub is_fail_fast_version : ℤ
  pub time_after_func : Option FuncId
  pub next_open_time : ℤ
  pub currently_allowed_event_count : ℤ
  pub last_set_timer : Option Timer

-- The zero value of the struct.
unfoldable pub zero_check : TimedCheck
zero_check = record {
  sleep_duration = pos 0;
  event_count_to_allow = pos 0;
  is_fast_fail = false;
  is_fail_fast_version = pos 0;
  time_after_func = none;
  next_open_time = pos 0;
  currently_allowed_event_count = pos 0;
  last_set_timer = none;
}

unfoldable pub set_sleep_duration : ℤ → TimedCheck → TimedCheck
set_sleep_duration new_duration c = record c { sleep_duration = new_duration }

unfoldable pub set_event_count_to_allow : ℤ → TimedCheck → TimedCheck
set_event_count_to_allow new_count c = record c { event_count_to_allow = new_count }

-- `resetOpenTimeWithLock`; the timer that it stops is the one that it replaces.
unfoldable pub reset_open_time : ℤ → TimedCheck → TimedCheck
reset_open_time now c =
    let current_version = add64 c.is_fail_fast_version (pos 1) in
    record c {
      next_open_time = time_add now c.sleep_duration;
      currently_allowed_event_count = pos 0;
      is_fast_fail = true;
      is_fail_fast_version = current_version;
      last_set_timer = some (record { version = current_version; duration = c.sleep_duration });
    }

-- The callback of a timer.
unfoldable pub fire : ℤ → TimedCheck → TimedCheck
fire current_version c =
    if eqb_ℤ current_version c.is_fail_fast_version then record c { is_fast_fail = false } else c

unfoldable pub sleep_start : ℤ → TimedCheck → TimedCheck
unfolding reset_open_time
sleep_start now c = reset_open_time now c

-- What `Check` does under the write lock.
unfoldable pub check_locked : ℤ → TimedCheck → Bool × TimedCheck
unfolding reset_open_time
check_locked now c =
    if after c.next_open_time now
    then (false, c)
    else let count = add64 c.currently_allowed_event_count (pos 1) in
      let c' = record c { currently_allowed_event_count = count } in
      (true, if leb_ℤ c.event_count_to_allow count then reset_open_time now c' else c')

unfoldable pub check : ℤ → TimedCheck → Bool × TimedCheck
unfolding check_locked
check now c =
    if c.is_fast_fail
    then (false, c)
    else if after c.next_open_time now
    then (false, c)
    else check_locked now c
