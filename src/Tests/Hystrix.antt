-- ===== src/Tests/Hystrix.antt =====
-- closers/hystrix and faststats/timedcheck.go: runs and instances.
use circuit.Prelude.{
  ◌>>=◌, time_sub, pos, true, false, some, none, List, [], ◌∷◌, ◌≡◌, refl, arith, leb_ℤ, time_add,
  ◌+ℤ◌, sub64, wrap64, ◌-ℤ◌, add64, ◌*◌, ◌≤◌,
}
use circuit.Faststats.TimedCheck.{
  TimedCheck, zero_check, sleep_start, set_sleep_duration, set_event_count_to_allow, check,
}
use circuit.Faststats.TimedCheck.Timers.{fires, check-fires-sleep_start}
use circuit.Faststats.TimedCheck.Rate
use circuit.Faststats.TimedCheck.Rate.{passed, Before, sleep_start-rate}
use circuit.Faststats.RollingCounter.Slots.{live}
use circuit.Faststats.RollingCounter.Refinement.{IsUsable, new-Represents}
use circuit.Hystrix.Opener.{Opener, default_configure_opener, should_open, opener_factory, repair}
use circuit.Hystrix.Opener
use circuit.Hystrix.Opener.History
use circuit.Hystrix.Opener.History.{
  tallies, complete, HasWindow, attempts_at, errors_at, opener_factory-decision,
}
use circuit.Hystrix.Opener.Threshold
use circuit.Hystrix.Opener.Threshold.{
  Tally, tally, Holds, decision, failures, react-Holds, should_open-decision,
}
use circuit.Hystrix.Closer.{
  ConfigureCloser, closer_factory, opened, set_config_thread_safe, should_close,
}
use circuit.Hystrix.Closer.Streak
use circuit.Hystrix.Closer.Streak.{reacts, episodes, new_episode, should_close-streak}
use circuit.Hystrix.Closer.Probes.{granted, seen, opened-rate}

-- Opened at 100; a success that began before does not count, two that began later do.
abbrev two : ConfigureCloser
two = record {
  after_func = none;
  sleep_window = pos 10;
  half_open_attempts = pos 1;
  required_concurrent_successful = pos 2;
}

abbrev probes : List Streak.Event
probes =
    Streak.opens (pos 100)
    ∷ Streak.successes (pos 105) (pos 20)
    ∷ Streak.successes (pos 115) (pos 3)
    ∷ Streak.successes (pos 118) (pos 2)
    ∷ []

should_close-streak_example :
    should_close (pos 120) (reacts probes (closer_factory two))
    ≡ leb_ℤ
        (closer_factory two).close_on_current_count
        (pos (episodes (closer_factory two).sleep_window_ns probes new_episode).streak)
should_close-streak_example = should_close-streak two probes (pos 120) (omega arith)

should_close_run : should_close (pos 120) (reacts probes (closer_factory two)) ≡ true
unfolding should_close reacts closer_factory time_add ◌+ℤ◌ sub64 wrap64 ◌-ℤ◌ add64
should_close_run = refl

-- Probes at 112, 113 and 125 after an opening at 100: the first and the third pass.
abbrev requests : List Streak.Event
requests =
    Streak.fires (pos 1)
    ∷ Streak.allows (pos 112)
    ∷ Streak.fires (pos 2)
    ∷ Streak.allows (pos 113)
    ∷ Streak.successes (pos 114) (pos 1)
    ∷ Streak.allows (pos 125)
    ∷ []

opened-rate_example :
    granted requests (opened (pos 100) (set_config_thread_safe two (closer_factory two))) ≤ 2 * 1
unfolding seen ◌+ℤ◌
opened-rate_example =
    opened-rate 10 1 2 (pos 100) two requests (closer_factory two) refl (omega arith) (omega arith)
      (omega arith) tt (omega arith, (omega arith, (omega arith, tt)))

abbrev sleeper : TimedCheck
sleeper = set_event_count_to_allow (pos 1) (set_sleep_duration (pos 10) zero_check)

abbrev checks : List Rate.Event
checks = Rate.fires (pos 1) ∷ Rate.checks (pos 112) ∷ Rate.locks (pos 113) ∷ []

sleep_start-rate_example : passed checks (sleep_start (pos 100) sleeper) ≤ 1 * 1
unfolding set_sleep_duration set_event_count_to_allow ◌+ℤ◌
sleep_start-rate_example =
    sleep_start-rate 10 1 1 (pos 100) checks sleeper refl (omega arith) (omega arith) (omega arith)
      (omega arith, (omega arith, tt))

check-fires-sleep_start_example :
    fires (pos 0 ∷ []) (sleep_start (pos 100) sleeper) ≡ sleep_start (pos 100) sleeper
    × check (pos 200) (fires (pos 0 ∷ []) (sleep_start (pos 100) sleeper))
      ≡ (false, sleep_start (pos 100) sleeper)
unfolding sleep_start set_sleep_duration set_event_count_to_allow zero_check add64 wrap64 ◌+ℤ◌
check-fires-sleep_start_example =
    check-fires-sleep_start (pos 100) (pos 200) (pos 0 ∷ []) sleeper (λ e. ground (arith, e), tt)

-- The default window, an opening and two outcomes after it; the latest one first.
abbrev outcomes : List Threshold.Event
outcomes =
    Threshold.failures (pos 3_000_000_000)
    ∷ Threshold.successes (pos 2_000_000_000)
    ∷ Threshold.opens (pos 1_000_000_000)
    ∷ Threshold.failures (pos 500)
    ∷ []

default_window : HasWindow default_configure_opener 10 1_000_000_000 50
unfolding Opener.merge repair
default_window = record {
  span = 10_000_000_000;
  duration = refl;
  span_fits = omega arith;
  buckets = refl;
  width = refl;
  usable = omega arith;
  percentage = refl;
}

abbrev any_opener : Opener
any_opener =
    let usable : IsUsable 2 10 = omega arith in
    let c = (new-Represents 2 10 (pos 0) usable).0 in
    record {
      errors_count = c;
      legitimate_attempts_count = c;
      error_percentage = pos 0;
      request_volume = pos 0;
      config = default_configure_opener;
    }

attempts_run : attempts_at 10 1_000_000_000 (pos 0) outcomes (pos 4_000_000_000) ≡ 2
unfolding tallies tally time_sub ◌-ℤ◌ live
attempts_run = refl

errors_run : errors_at 10 1_000_000_000 (pos 0) outcomes (pos 4_000_000_000) ≡ 1
unfolding tallies tally time_sub ◌-ℤ◌ live
errors_run = refl

opener_factory-decision_example :
    (e : Opener) × (e' : Opener) × ((opener_factory default_configure_opener (pos 0) any_opener
        >>= λ e₀. History.reacts outcomes e₀)
      ≡ some e)
    × (should_open (pos 4_000_000_000) e
        ≡ some (
          decision 50
              (complete default_configure_opener).request_volume_threshold
              (attempts_at 10 1_000_000_000 (pos 0) outcomes (pos 4_000_000_000))
              (errors_at 10 1_000_000_000 (pos 0) outcomes (pos 4_000_000_000)),
          e',
        ))
opener_factory-decision_example =
    opener_factory-decision default_configure_opener 10 1_000_000_000 50 (pos 0) (pos 4_000_000_000)
      outcomes any_opener default_window (rw attempts_run (omega arith))
      (rw attempts_run (omega arith)) (rw errors_run (omega arith))
