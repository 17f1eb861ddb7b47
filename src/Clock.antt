-- ===== src/Clock.antt =====
-- internal/clock/clock.go: a clock that stands still between calls and fires timers when it is set. A
-- callback is a function of the environment, which may also use the clock, or the send of `After`. A
-- method's part under the mutex is one step; the sleep of `TickUntil` passes no time of the clock.
pub mod Firing
use circuit.Prelude.{
  ℕ, zero, suc, ℤ, pos, Bool, true, false, List, [], ◌∷◌, ◌++◌, Option, some, none, ltb_ℤ, leb_ℤ,
  before, time_add, if◌then◌else◌, ◌==◌,
}
use circuit.Sorting.{sort_by}

pub data Callback : Type 0 where
  func : ℕ → Callback
  send : ℕ → Callback

pub record TimedCallback : Type 0 where
  pub at : ℤ
  pub f : Callback

pub record MockClock : Type 0 where
  pub current_time : ℤ
  pub callbacks : List TimedCallback

-- The clock with the channels of `After`, by what was sent to them, and the environment.
pub record World (E : Type 0) : Type 0 where
  pub clock : MockClock
  pub channels : ℕ → List ℤ
  pub env : E

unfoldable pub now : {E : Type 0} → World E → ℤ
now w = w.clock.current_time

-- The two arrays of `triggerCallbacks`.
unfoldable pub new_array : ℤ → List TimedCallback → List TimedCallback
new_array t [] = []
new_array t (c ∷ cs) = let rest = new_array t cs in if before t c.at then c ∷ rest else rest

unfoldable pub to_call : ℤ → List TimedCallback → List TimedCallback
to_call t [] = []
to_call t (c ∷ cs) = let rest = to_call t cs in if before t c.at then rest else c ∷ rest

module _ {E : Type 0} (run : ℕ → World E → World E) where
  -- `c <- m.Now()`, or a call.
  unfoldable pub call : Callback → World E → World E
  unfolding now
  call (func f) w = run f w
  call (send c) w = record w {
    channels = λ d. if d == c then w.channels c ++ now w ∷ [] else w.channels d;
  }

  unfoldable pub call_all : List TimedCallback → World E → World E
  call_all [] w = w
  call_all (c ∷ cs) w = call_all cs (call c.f w)

  unfoldable pub trigger_callbacks : World E → World E
  trigger_callbacks w =
      let t = w.clock.current_time in
      let cs = w.clock.callbacks in
      call_all (sort_by (λ c. c.at) (to_call t cs))
        (record w { clock = record w.clock { callbacks = new_array t cs } })

  -- The new time is returned.
  unfoldable pub set : ℤ → World E → ℤ × World E
  set t w = (t, trigger_callbacks (record w { clock = record w.clock { current_time = t } }))

  unfoldable pub add : ℤ → World E → ℤ × World E
  add d w =
      let t = time_add w.clock.current_time d in
      (t, trigger_callbacks (record w { clock = record w.clock { current_time = t } }))

  -- The timer that is returned is stopped already.
  unfoldable pub after_func : ℤ → Callback → World E → World E
  after_func d f w = if leb_ℤ d (pos 0) then call f w else record w {
    clock = record w.clock {
      callbacks = w.clock.callbacks ++ record { at = time_add w.clock.current_time d; f = f } ∷ [];
    };
  }

  -- The new channel is c.
  unfoldable pub after : ℤ → ℕ → World E → World E
  after d c w = after_func d (send c) w

  -- `TickUntil`, with the rounds that are allowed; none if they run out.
  unfoldable pub tick_until : ℕ → (World E → Bool × World E) → ℤ → World E → Option (World E)
  tick_until zero should_stop mock_incr w = none
  tick_until (suc rounds) should_stop mock_incr w =
      let (stop, w') = should_stop w in
      let rest = tick_until rounds should_stop mock_incr (add mock_incr w').1 in
      if stop then some w' else rest
