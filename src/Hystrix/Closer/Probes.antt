-- ===== src/Hystrix/Closer/Probes.antt =====
-- closers/hystrix/closer.go: how many half-open probes an open episode grants.
use circuit.Prelude.{
  ℕ, suc, ℤ, pos, List, [], ◌∷◌, some, if◌then◌else◌, ◌≡◌, ◌^◌, ◌*◌, ◌<◌, ◌≤◌, ◌+◌, ◌≤ℤ◌, ◌+ℤ◌,
  refl, arith, ap, ◌∙◌,
}
use circuit.Faststats.TimedCheck.{set_sleep_duration, set_event_count_to_allow, check, fire}
use circuit.Faststats.TimedCheck.Rate
use circuit.Hystrix.Closer.{
  Closer, ConfigureCloser, set_config_thread_safe, opened, allow, success, err_failure, err_timeout,
}
use circuit.Hystrix.Closer.Streak.{
  Event, successes, failures, timeouts, opens, closes, allows, fires, react,
}

-- Nothing opens or closes the circuit.
abbrev pub OneEpisode : List Event → Type 0
OneEpisode [] = Unit {0}
OneEpisode (opens now ∷ events) = ⊥
OneEpisode (closes now ∷ events) = ⊥
OneEpisode (_ ∷ events) = OneEpisode events

-- The probes that are granted.
unfoldable pub granted : List Event → Closer → ℕ
unfolding react
granted [] s = 0
granted (allows now ∷ events) s =
    (if (allow now s).0 then 1 else 0) + granted events (react (allows now) s)
granted (ev ∷ events) s = granted events (react ev s)

-- What the timed check sees.
unfoldable pub seen : List Event → List Rate.Event
seen [] = []
seen (allows now ∷ events) = Rate.checks now ∷ seen events
seen (fires version ∷ events) = Rate.fires version ∷ seen events
seen (_ ∷ events) = seen events

success_same :
    (now duration : ℤ) (s : Closer)
    → ((success now duration s).opened_at ≡ s.opened_at)
      × ((success now duration s).reopen_circuit_check ≡ s.reopen_circuit_check)
unfolding success
success_same now duration s = ground arith

err_failure_same :
    (now duration : ℤ) (s : Closer)
    → ((err_failure now duration s).opened_at ≡ s.opened_at)
      × ((err_failure now duration s).reopen_circuit_check ≡ s.reopen_circuit_check)
unfolding err_failure
err_failure_same now duration s = ground arith

err_timeout_same :
    (now duration : ℤ) (s : Closer)
    → ((err_timeout now duration s).opened_at ≡ s.opened_at)
      × ((err_timeout now duration s).reopen_circuit_check ≡ s.reopen_circuit_check)
unfolding err_timeout
err_timeout_same now duration s = ground arith

allow_armed :
    (now : ℤ) (s : Closer) (t : ℤ)
    → s.opened_at ≡ some t
    → allow now s ≡ (
      (check now s.reopen_circuit_check).0,
      record s { reopen_circuit_check = (check now s.reopen_circuit_check).1 },
    )
unfolding allow
allow_armed now s t o = ground arith

granted-passed :
    (events : List Event) (s : Closer) (t : ℤ)
    → OneEpisode events
    → s.opened_at ≡ some t
    → granted events s ≡ Rate.passed (seen events) s.reopen_circuit_check
unfolding granted seen Rate.passed
granted-passed [] s t h o = refl
granted-passed (successes now duration ∷ events) s t h o =
    let (open_same, check_same) = success_same now duration s in
    granted-passed events (success now duration s) t h (open_same ∙ o)
    ∙ ap (Rate.passed (seen events)) check_same
granted-passed (failures now duration ∷ events) s t h o =
    let (open_same, check_same) = err_failure_same now duration s in
    granted-passed events (err_failure now duration s) t h (open_same ∙ o)
    ∙ ap (Rate.passed (seen events)) check_same
granted-passed (timeouts now duration ∷ events) s t h o =
    let (open_same, check_same) = err_timeout_same now duration s in
    granted-passed events (err_timeout now duration s) t h (open_same ∙ o)
    ∙ ap (Rate.passed (seen events)) check_same
granted-passed (allows now ∷ events) s t h o = ground (
  arith,
  allow_armed now s t o,
  granted-passed events (record s { reopen_circuit_check = (check now s.reopen_circuit_check).1 }) t
      h o,
)
granted-passed (fires version ∷ events) s t h o = omega (
  arith,
  granted-passed events (record s { reopen_circuit_check = fire version s.reopen_circuit_check }) t
      h o,
)
granted-passed (opens now ∷ events) s t h o = absurd h
granted-passed (closes now ∷ events) s t h o = absurd h
granted-passed (_ ∷ events) s t h o = granted-passed events s t h o

-- In one open episode, opened at `start` under a sleep window `d`, at most `m * n` probes are granted
-- before `start + (m + 1) * d`, where n (at least 1) is no less than the half-open attempts; whatever
-- requests end in between and whenever the timers call back.
pub opened-rate :
    (d n m : ℕ) (start : ℤ) (config : ConfigureCloser) (events : List Event) (s : Closer)
    → config.sleep_window ≡ pos d
    → config.half_open_attempts ≤ℤ pos n
    → 0 < n
    → n < 2 ^ 63
    → OneEpisode events
    → Rate.Before (start +ℤ pos (suc m * d)) (seen events)
    → granted events (opened start (set_config_thread_safe config s)) ≤ m * n
unfolding opened set_config_thread_safe set_sleep_duration set_event_count_to_allow
opened-rate d n m start config events s sleep limit p fits one b =
    let c =
      set_event_count_to_allow config.half_open_attempts
        (set_sleep_duration config.sleep_window s.reopen_circuit_check) in
    rw (granted-passed events (opened start (set_config_thread_safe config s)) start one refl)
      (Rate.sleep_start-rate d n m start (seen events) c sleep limit p fits b)
