-- ===== src/Hystrix/Closer/Streak.antt =====
-- closers/hystrix/closer.go: the circuit closes on a streak of probes that all succeeded.
use circuit.Prelude.{
  ℕ, suc, ℤ, pos, leb_ℤ, List, [], ◌∷◌, Option, some, none, wrap64, wrap64-suc, wrap64-eq,
  if◌then◌else◌, ◌≡◌, ◌^◌, ◌<◌, refl, arith, sym, ap, subst, ◌∙◌, length, ◌≤◌, ◌+◌,
}
use circuit.Faststats.TimedCheck.{fire}
use circuit.Hystrix.Closer.{
  Closer, ConfigureCloser, closer_factory, opened, closed, allow, success, err_failure, err_timeout,
  err_bad_request, err_interrupt, err_concurrency_limit_reject, err_short_circuit, should_close,
  started_while_open, just_closed,
}

pub data Event : Type 0 where
  successes failures timeouts bad_requests interrupts : ℤ → ℤ → Event
  rejects short_circuits opens closes allows fires : ℤ → Event

unfoldable pub react : Event → Closer → Closer
unfolding opened closed allow success err_failure err_timeout err_bad_request err_interrupt
    err_concurrency_limit_reject err_short_circuit
react (successes now duration) s = success now duration s
react (failures now duration) s = err_failure now duration s
react (timeouts now duration) s = err_timeout now duration s
react (bad_requests now duration) s = err_bad_request now duration s
react (interrupts now duration) s = err_interrupt now duration s
react (rejects now) s = err_concurrency_limit_reject now s
react (short_circuits now) s = err_short_circuit now s
react (opens now) s = opened now s
react (closes now) s = closed now s
react (allows now) s = (allow now s).1
react (fires version) s = record s { reopen_circuit_check = fire version s.reopen_circuit_check }

-- The open episode: since when the closer is armed, when it was last closed, and the successes in a
-- row of the requests that started in the episode.
pub record Episode : Type 0 where
  pub since : Option ℤ
  pub ended : Option ℤ
  pub streak : ℕ

-- The episode after an event: only a request that started after the episode's start counts.
unfoldable pub episode : ℤ → Event → Episode → Episode
episode window (successes now duration) x =
    if started_while_open now duration x.since then record x { streak = suc x.streak } else x
episode window (failures now duration) x =
    if started_while_open now duration x.since then record x { streak = 0 } else x
episode window (timeouts now duration) x =
    if started_while_open now duration x.since then record x { streak = 0 } else x
episode window (bad_requests now duration) x = x
episode window (interrupts now duration) x = x
episode window (rejects now) x = x
episode window (short_circuits now) x = x
episode window (opens now) x = record x { since = some now; streak = 0 }
episode window (closes now) x = record { since = none; ended = some now; streak = 0 }
episode window (allows now) x = elim x.since [
  | none ↦ if just_closed x.ended now window then x else record x { since = some now; streak = 0 }
  | some t ↦ x
]
episode window (fires version) x = x

pub record Follows (x : Episode) (s : Closer) : Type 0 where
  pub since : s.opened_at ≡ x.since
  pub ended : s.closed_at ≡ x.ended
  pub streak : s.concurrent_successful_attempts ≡ wrap64 (pos x.streak)

react-Follows :
    (ev : Event) (x : Episode) (s : Closer)
    → Follows x s
    → Follows (episode s.sleep_window_ns ev x) (react ev s)
unfolding react episode
react-Follows (successes now duration) x s v = ground (arith, wrap64-suc x.streak)
react-Follows (failures now duration) x s v = ground (arith, wrap64-eq (pos 0))
react-Follows (timeouts now duration) x s v = ground (arith, wrap64-eq (pos 0))
react-Follows (opens now) x s v = ground (arith, wrap64-eq (pos 0))
react-Follows (closes now) x s v = ground (arith, wrap64-eq (pos 0))
react-Follows (allows now) x s v = ground (arith, wrap64-eq (pos 0))
react-Follows (fires version) x s v = record { since = v.since; ended = v.ended; streak = v.streak }
react-Follows _ x s v = v

-- Before any event.
abbrev pub new_episode : Episode
new_episode = record { since = none; ended = none; streak = 0 }

new-Follows : (config : ConfigureCloser) → Follows new_episode (closer_factory config)
unfolding closer_factory
new-Follows config = record {
  since = refl;
  ended = refl;
  streak = sym (wrap64-eq (pos 0) (omega arith));
}

react_settings :
    (ev : Event) (s : Closer)
    → ((react ev s).sleep_window_ns ≡ s.sleep_window_ns)
      × ((react ev s).close_on_current_count ≡ s.close_on_current_count)
unfolding react
react_settings (allows now) s = ground arith
react_settings _ s = ground arith

unfoldable pub reacts : List Event → Closer → Closer
unfolding react
reacts [] s = s
reacts (ev ∷ events) s = reacts events (react ev s)

unfoldable pub episodes : ℤ → List Event → Episode → Episode
unfolding episode
episodes window [] x = x
episodes window (ev ∷ events) x = episodes window events (episode window ev x)

reacts-Follows :
    (events : List Event) (x : Episode) (s : Closer)
    → Follows x s
    → Follows (episodes s.sleep_window_ns events x) (reacts events s)
unfolding reacts episodes
reacts-Follows [] x s v = v
reacts-Follows (ev ∷ events) x s v =
    subst
      (λ window.
        Follows (episodes window events (episode s.sleep_window_ns ev x))
          (reacts events (react ev s)))
      (react_settings ev s).0
      (reacts-Follows events (episode s.sleep_window_ns ev x) (react ev s) (react-Follows ev x s v))

reacts_settings :
    (events : List Event) (s : Closer)
    → (reacts events s).close_on_current_count ≡ s.close_on_current_count
unfolding reacts
reacts_settings [] s = refl
reacts_settings (ev ∷ events) s = reacts_settings events (react ev s) ∙ (react_settings ev s).1

streak-le :
    (window : ℤ) (events : List Event) (x : Episode)
    → (episodes window events x).streak ≤ length events + x.streak
unfolding episodes episode
streak-le window [] x = omega arith
streak-le window (ev ∷ events) x =
    omega (arith, streak-le window events (episode window ev x), one_more window ev x)
  where
    one_more : (window : ℤ) (ev : Event) (x : Episode) → (episode window ev x).streak ≤ suc x.streak
    one_more window (successes now duration) x = ground arith
    one_more window (failures now duration) x = ground arith
    one_more window (timeouts now duration) x = ground arith
    one_more window (allows now) x = ground arith
    one_more window _ x = omega arith

-- After any events of a new closer, `ShouldClose` says yes exactly if the successes in a row of
-- requests that started in the current open episode reach the required number.
pub should_close-streak :
    (config : ConfigureCloser) (events : List Event) (now : ℤ)
    → length events < 2 ^ 63
    → let s = closer_factory config in
      should_close now (reacts events s)
      ≡ leb_ℤ s.close_on_current_count (pos (episodes s.sleep_window_ns events new_episode).streak)
unfolding should_close
should_close-streak config events now h =
    let s = closer_factory config in
    let v = reacts-Follows events new_episode s (new-Follows config) in
    let small = streak-le s.sleep_window_ns events new_episode in
    rw (reacts_settings events s, v.streak)
      (ap (λ t. leb_ℤ s.close_on_current_count t)
        (wrap64-eq (pos (episodes s.sleep_window_ns events new_episode).streak) (omega arith)))
