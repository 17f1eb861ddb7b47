-- ===== src/Tests/Clock.antt =====
-- internal/clock/clock.go: runs and instances.
use circuit.Prelude.{ℕ, pos, List, [], ◌∷◌, some, ◌>>=◌, ◌≡◌, refl, ◌+ℤ◌, time_add, leb_ℤ}
use circuit.Sorting.{sort_by}
use circuit.Clock.{
  func, TimedCallback, World, now, new_array, to_call, call, call_all, trigger_callbacks, set, add,
  after_func, after, tick_until,
}
use circuit.Clock.Firing.{Fires, add-Fires}

-- The environment is the list of the callbacks that ran, the latest one first.
abbrev run : ℕ → World (List ℕ) → World (List ℕ)
run f w = record w { env = f ∷ w.env }

abbrev new_clock : World (List ℕ)
new_clock = record {
  clock = record { current_time = pos 100; callbacks = [] };
  channels = λ c. [];
  env = [];
}

-- The callbacks 1 and 3 at 110, in this order, 2 at 105, and a channel at 120.
abbrev registered : World (List ℕ)
registered = after run (pos 20) 7 (
    after_func run (pos 10) (func 3)
      (after_func run (pos 5) (func 2) (after_func run (pos 10) (func 1) new_clock)))

add_run : (add run (pos 10) registered).1.env ≡ 3 ∷ 1 ∷ 2 ∷ []
unfolding add after after_func trigger_callbacks call_all call new_array to_call sort_by time_add
    ◌+ℤ◌
add_run = refl

after_run : (add run (pos 25) registered).1.channels 7 ≡ pos 125 ∷ []
unfolding add after after_func trigger_callbacks call_all call new_array to_call sort_by time_add
    ◌+ℤ◌
after_run = refl

-- The clock ticks by 4 until it shows at least 120, which it does after five ticks.
tick_until_run :
    (tick_until run 9 (λ w. (leb_ℤ (pos 120) (now w), w)) (pos 4) registered >>= λ w. some w.env)
    ≡ some (3 ∷ 1 ∷ 2 ∷ [])
unfolding tick_until add after after_func trigger_callbacks call_all call new_array to_call sort_by
    time_add ◌+ℤ◌ now
tick_until_run = refl

add-Fires_example :
    (due : List TimedCallback) × (kept : List TimedCallback) × Fires
      (time_add registered.clock.current_time (pos 10))
      registered.clock.callbacks
      due
      kept
    × (add run (pos 10) registered ≡ (
      time_add registered.clock.current_time (pos 10),
      call_all run due (record registered {
        clock = record {
          current_time = time_add registered.clock.current_time (pos 10);
          callbacks = kept;
        };
      }),
    ))
    × (set run (time_add registered.clock.current_time (pos 10)) registered
        ≡ add run (pos 10) registered)
add-Fires_example = add-Fires run (pos 10) registered
