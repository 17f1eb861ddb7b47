-- ===== src/Tests/SimpleLogic.antt =====
-- closers/simplelogic: a run.
use circuit.Prelude.{pos, List, [], ◌∷◌, ◌≡◌, refl, arith, leb_ℤ}
use circuit.Circuit.Logic.{success, err_failure, err_timeout, err_bad_request}
use circuit.SimpleLogic.{ConsecutiveErrOpener, should_open}
use circuit.SimpleLogic.Streak.{Event, ran, reacts, streak, should_open-streak}

abbrev opens_at_two : ConsecutiveErrOpener
opens_at_two = record { consecutive_count = pos 0; close_threshold = pos 2 }

-- A failure, a success, and a failure and a timeout around a bad request; the last one first.
abbrev events : List Event
events =
    ran (err_timeout (pos 9) (pos 1))
    ∷ ran (err_bad_request (pos 7) (pos 1))
    ∷ ran (err_failure (pos 5) (pos 1))
    ∷ ran (success (pos 3) (pos 1))
    ∷ ran (err_failure (pos 1) (pos 1))
    ∷ []

should_open-streak_example :
    should_open (pos 10) (reacts events opens_at_two)
    ≡ leb_ℤ opens_at_two.close_threshold (pos (streak events))
should_open-streak_example = should_open-streak (pos 10) events opens_at_two (omega arith) refl

two_in_a_row : streak events ≡ 2
unfolding streak
two_in_a_row = refl
