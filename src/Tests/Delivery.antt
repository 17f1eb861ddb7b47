-- ===== src/Tests/Delivery.antt =====
-- circuit.go: a delivery in which a listener panics.
use circuit.Prelude.{ℕ, pos, true, false, List, [], ◌∷◌, ◌++◌, ◌≡◌, ◌≤◌, ◌+◌, refl, arith}
use circuit.Circuit.Logic.{Transition}
use circuit.Circuit.Delivery.{
  outside, Shared, place, Step, commit, next, enter, tell, panic, give_up, commits, enters, tells,
  returns, panics, gives_up, fresh, Reachable, started, stepped,
}
use circuit.Circuit.Delivery.Order.{
  Reachable-in_order, Reachable-delivered, Reachable-one_deliverer,
}
use circuit.Circuit.Delivery.Ending.{Within, Quiets, rests, steps, work, Quiets-work}
use circuit.Circuit.Delivery.Progress.{Reachable-delivers}

abbrev first : Transition
first = record { to_open = true; at = pos 5 }

abbrev second : Transition
second = record { to_open = false; at = pos 6 }

-- The call 0 opens the circuit and tells the listeners, who close it again, as call 1, and then panic.
abbrev told : Shared
told = tell 0 first (enter 0 (commit 0 first (fresh false)))

abbrev reentered : Shared
reentered = enter 1 (commit 1 second told)

abbrev over : Shared
over =
    let again = tell 0 second (enter 0 (give_up 0 (panic 0 reentered))) in
    next 0 again.pending_transitions again

told-reached : Reachable false told
unfolding enter commit place next tell
told-reached =
    stepped
      (stepped (stepped started (commits 0 first (fresh false) refl refl))
        (enters 0 (commit 0 first (fresh false)) refl))
      (tells 0 first (enter 0 (commit 0 first (fresh false))) refl)

reentered-reached : Reachable false reentered
unfolding enter commit place next tell
reentered-reached =
    stepped (stepped told-reached (commits 1 second told refl refl))
      (enters 1 (commit 1 second told) refl)

over-reached : Reachable false over
unfolding enter commit place next tell panic give_up
over-reached =
    let panicked = panic 0 reentered in
    let again = enter 0 (give_up 0 panicked) in
    stepped
      (stepped
        (stepped
          (stepped (stepped reentered-reached (panics 0 first reentered refl))
            (gives_up 0 panicked refl))
          (enters 0 (give_up 0 panicked) refl))
        (tells 0 second again refl))
      (returns 0 second (tell 0 second again) refl)

over-outside : (i : ℕ) → over.positions i ≡ outside
unfolding enter commit place next tell panic give_up
over-outside i = ground arith

Reachable-delivered_example :
    over.heard ≡ over.committed
    × over.pending_transitions ≡ []
    × over.delivering_transitions ≡ false
Reachable-delivered_example = Reachable-delivered false over over-reached over-outside

over_heard : over.heard ≡ first ∷ second ∷ []
unfolding enter commit place next tell panic give_up
over_heard = refl

Reachable-in_order_example :
    (rest : List Transition) × (reentered.committed ≡ reentered.heard ++ rest)
Reachable-in_order_example = Reachable-in_order false reentered reentered-reached

Reachable-one_deliverer_example : ◌≡◌ {A = ℕ} 0 0 × told.delivering_transitions ≡ true
unfolding enter commit place next tell
Reachable-one_deliverer_example = Reachable-one_deliverer false told 0 0 told-reached refl refl

-- The call 0 has told the first transition, and returns with nothing else to do.
told-Within : Within 1 told
unfolding enter commit place next tell
told-Within j h = ground arith

told-returns : Step told (next 0 told.pending_transitions told)
unfolding enter commit place next tell
told-returns = returns 0 first told refl

told-committed : (next 0 told.pending_transitions told).committed ≡ told.committed
unfolding enter commit place next tell
told-committed = refl

Quiets-work_example : 1 + work 1 (next 0 told.pending_transitions told) ≤ work 1 told
Quiets-work_example =
    Quiets-work 1 1 told (next 0 told.pending_transitions told) told-Within
      (steps (told-returns, told-committed) (rests (next 0 told.pending_transitions told)))

Reachable-delivers_example :
    (n : ℕ) × (k : ℕ) × (s' : Shared) × Within n told
    × Quiets k told s'
    × (k ≤ work n told)
    × ((i : ℕ) → s'.positions i ≡ outside)
    × (s'.heard ≡ told.committed)
    × (s'.pending_transitions ≡ [])
Reachable-delivers_example = Reachable-delivers false told told-reached
