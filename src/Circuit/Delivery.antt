-- ===== src/Circuit/Delivery.antt =====
-- circuit.go: `commitTransition` and `deliverPendingTransitions` as many calls run them at once. A step is
-- what one call does under transitionMu, or the start or the end of a call of the listeners, which it
-- makes without the lock. A call that a listener makes on the same circuit is a call of its own here.
pub mod Invariant
pub mod Steps
pub mod Order
pub mod Ending
pub mod Progress
use circuit.Prelude.{ℕ, Bool, true, false, not, List, [], ◌∷◌, ◌++◌, if◌then◌else◌, ◌==◌, ◌≡◌}
use circuit.Circuit.Logic.{Transition}

-- Where a call stands: not in these functions, about to deliver, with a transition that it took from
-- the queue, with the listeners, or in the deferred cleanup after a panic of a listener.
pub data Position : Type 0 where
  outside : Position
  entering : Position
  popped : Transition → Position
  telling : Transition → Position
  unwinding : Position

-- The fields of the circuit, the calls, and what happened so far: the transitions that were committed,
-- and those that the listeners were told, both in order.
pub record Shared : Type 0 where
  pub is_open : Bool
  pub pending_transitions : List Transition
  pub delivering_transitions : Bool
  pub positions : ℕ → Position
  pub committed : List Transition
  pub heard : List Transition

unfoldable pub place : ℕ → Position → (ℕ → Position) → ℕ → Position
place i p ps j = if j == i then p else ps j

-- The end of a `commitTransition` that flips the state.
unfoldable pub commit : ℕ → Transition → Shared → Shared
commit i t s = record s {
  is_open = t.to_open;
  pending_transitions = s.pending_transitions ++ t ∷ [];
  positions = place i entering s.positions;
  committed = s.committed ++ t ∷ [];
}

-- The test of the loop of `deliverPendingTransitions`, under the lock.
unfoldable pub next : ℕ → List Transition → Shared → Shared
next i [] s = record s { delivering_transitions = false; positions = place i outside s.positions }
next i (t ∷ ts) s = record s {
  pending_transitions = ts;
  positions = place i (popped t) s.positions;
}

-- The start of `deliverPendingTransitions`.
unfoldable pub enter : ℕ → Shared → Shared
enter i s =
    if s.delivering_transitions
    then record s { positions = place i outside s.positions }
    else next i s.pending_transitions (record s { delivering_transitions = true })

-- The call of the listeners.
unfoldable pub tell : ℕ → Transition → Shared → Shared
tell i t s = record s { positions = place i (telling t) s.positions; heard = s.heard ++ t ∷ [] }

-- A listener panics, and the deferred function gives the role up and delivers again.
unfoldable pub panic : ℕ → Shared → Shared
panic i s = record s { positions = place i unwinding s.positions }

unfoldable pub give_up : ℕ → Shared → Shared
give_up i s = record s { delivering_transitions = false; positions = place i entering s.positions }

pub data Step : Shared → Shared → Type 0 where
  commits :
      (i : ℕ) (t : Transition) (s : Shared)
      → s.positions i ≡ outside
      → s.is_open ≡ not t.to_open
      → Step s (commit i t s)
  enters : (i : ℕ) (s : Shared) → s.positions i ≡ entering → Step s (enter i s)
  tells : (i : ℕ) (t : Transition) (s : Shared) → s.positions i ≡ popped t → Step s (tell i t s)
  returns :
      (i : ℕ) (t : Transition) (s : Shared)
      → s.positions i ≡ telling t
      → Step s (next i s.pending_transitions s)
  panics : (i : ℕ) (t : Transition) (s : Shared) → s.positions i ≡ telling t → Step s (panic i s)
  gives_up : (i : ℕ) (s : Shared) → s.positions i ≡ unwinding → Step s (give_up i s)

-- A circuit that nobody delivers for, open or closed.
abbrev pub fresh : Bool → Shared
fresh open? = record {
  is_open = open?;
  pending_transitions = [];
  delivering_transitions = false;
  positions = λ i. outside;
  committed = [];
  heard = [];
}

pub data Reachable (open? : Bool) : Shared → Type 0 where
  started : Reachable open? (fresh open?)
  stepped : {s s' : Shared} → Reachable open? s → Step s s' → Reachable open? s'
