-- ===== src/Hystrix/Opener.antt =====
-- closers/hystrix/opener.go: opens on a number of attempts and a percentage of errors in the
-- rolling window. `now` of a configuration is the clock's reading, for `Now` is a function of the
-- environment. JSON is not modelled, nor `errPercentage`, which only it uses.
pub mod Threshold
pub mod History
pub mod Logic
pub mod Opening
use circuit.Prelude.{
  ℕ, ℤ, pos, leb_ℤ, ltb_ℤ, eqb_ℤ, Bool, true, false, Option, some, none, ◌>>=◌, ◌||◌, mul64, div64,
  if◌then◌else◌, ltb, leb, ◌==◌,
}
use circuit.Faststats.TimedCheck.{FuncId}
use circuit.Faststats.RollingCounter.{
  RollingCounter, new_rolling_counter, inc, rolling_sum_at, reset,
}

pub record ConfigureOpener : Type 0 where
  pub error_threshold_percentage : ℤ
  pub request_volume_threshold : ℤ
  pub now_func : Option FuncId
  pub rolling_duration : ℤ
  pub num_buckets : ℤ

-- A zero field takes the other configuration's value.
abbrev pub or_else : ℤ → ℤ → ℤ
or_else a b = if eqb_ℤ a (pos 0) then b else a

abbrev pub or_func : Option FuncId → Option FuncId → Option FuncId
or_func none g = g
or_func (some f) g = some f

unfoldable pub merge : ConfigureOpener → ConfigureOpener → ConfigureOpener
merge c other = record {
  error_threshold_percentage =
      or_else c.error_threshold_percentage other.error_threshold_percentage;
  request_volume_threshold = or_else c.request_volume_threshold other.request_volume_threshold;
  now_func = or_func c.now_func other.now_func;
  rolling_duration = or_else c.rolling_duration other.rolling_duration;
  num_buckets = or_else c.num_buckets other.num_buckets;
}

-- `time.Now`.
abbrev pub time_now : FuncId
time_now = 0

abbrev pub default_configure_opener : ConfigureOpener
default_configure_opener = record {
  error_threshold_percentage = pos 50;
  request_volume_threshold = pos 20;
  now_func = some time_now;
  rolling_duration = pos 10_000_000_000;
  num_buckets = pos 10;
}

pub record Opener : Type 0 where
  pub errors_count : RollingCounter
  pub legitimate_attempts_count : RollingCounter
  pub error_percentage : ℤ
  pub request_volume : ℤ
  pub config : ConfigureOpener

unfoldable pub set_config_thread_safe : ConfigureOpener → Opener → Opener
set_config_thread_safe props e = record e {
  config = props;
  error_percentage = props.error_threshold_percentage;
  request_volume = props.request_volume_threshold;
}

-- The settings with the defaults where they are unset or invalid.
unfoldable pub repair : ConfigureOpener → ConfigureOpener
repair props =
    let d = default_configure_opener in
    record props {
      num_buckets = if leb_ℤ props.num_buckets (pos 0) then d.num_buckets else props.num_buckets;
      rolling_duration =
          if leb_ℤ props.rolling_duration (pos 0)
          then d.rolling_duration
          else props.rolling_duration;
    }

unfoldable pub set_config_not_thread_safe : ℤ → ConfigureOpener → Opener → Option Opener
unfolding repair set_config_thread_safe
set_config_not_thread_safe now props₀ e =
    let props = repair props₀ in
    let e' = set_config_thread_safe props e in
    let width = div64 props.rolling_duration props.num_buckets in
    new_rolling_counter width props.num_buckets now >>= λ errors.
    new_rolling_counter width props.num_buckets now >>= λ attempts.
    some (record e' { errors_count = errors; legitimate_attempts_count = attempts })

-- `OpenerFactory`, from the zero Opener.
unfoldable pub opener_factory : ConfigureOpener → ℤ → Opener → Option Opener
unfolding merge set_config_not_thread_safe
opener_factory config now zero_opener =
    set_config_not_thread_safe now (merge config default_configure_opener) zero_opener

-- `Opened` and `Closed` reset both counts.
unfoldable pub closed : ℤ → Opener → Option Opener
closed now e = reset e.errors_count now >>= λ errors.
    reset e.legitimate_attempts_count now >>= λ attempts.
    some (record e { errors_count = errors; legitimate_attempts_count = attempts })

unfoldable pub opened : ℤ → Opener → Option Opener
opened now e = reset e.errors_count now >>= λ errors.
    reset e.legitimate_attempts_count now >>= λ attempts.
    some (record e { errors_count = errors; legitimate_attempts_count = attempts })

unfoldable pub success : ℤ → Opener → Option Opener
success now e = inc e.legitimate_attempts_count now >>= λ attempts.
    some (record e { legitimate_attempts_count = attempts })

unfoldable pub prevent : ℤ → Opener → Bool
prevent now e = false

unfoldable pub err_bad_request : ℤ → Opener → Opener
err_bad_request now e = e

unfoldable pub err_interrupt : ℤ → Opener → Opener
err_interrupt now e = e

unfoldable pub err_failure : ℤ → Opener → Option Opener
err_failure now e = inc e.legitimate_attempts_count now >>= λ attempts.
    inc e.errors_count now >>= λ errors.
    some (record e { errors_count = errors; legitimate_attempts_count = attempts })

unfoldable pub err_timeout : ℤ → Opener → Option Opener
err_timeout now e = inc e.legitimate_attempts_count now >>= λ attempts.
    inc e.errors_count now >>= λ errors.
    some (record e { errors_count = errors; legitimate_attempts_count = attempts })

unfoldable pub err_concurrency_limit_reject : ℤ → Opener → Opener
err_concurrency_limit_reject now e = e

unfoldable pub err_short_circuit : ℤ → Opener → Opener
err_short_circuit now e = e

-- Both sums move their window, so the opener is returned too.
unfoldable pub should_open : ℤ → Opener → Option (Bool × Opener)
should_open now e = rolling_sum_at e.legitimate_attempts_count now >>= λ (attempt_count, attempts).
    let e' = record e { legitimate_attempts_count = attempts } in
    if eqb_ℤ attempt_count (pos 0) || ltb_ℤ attempt_count e.request_volume
    then some (false, e')
    else rolling_sum_at e.errors_count now >>= λ (errors_sum, errors). some (
      leb_ℤ (mul64 e.error_percentage attempt_count) (mul64 errors_sum (pos 100)),
      record e' { errors_count = errors },
    )
