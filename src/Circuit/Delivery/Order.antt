-- ===== src/Circuit/Delivery/Order.antt =====
-- circuit.go: the listeners are told of each transition once, in the order of the flips, and none is
-- left behind.
use circuit.Prelude.{
  ℕ, Bool, true, false, some, none, List, [], ◌++◌, ◌≡◌, inl, inr, refl, sym, ap, ◌∙◌, arith,
}
use mathlib.Core.List.{append-nil, append_assoc}
use circuit.Circuit.Logic.{Transition}
use circuit.Circuit.Delivery.{outside, Shared, Reachable}
use circuit.Circuit.Delivery.Invariant.{holds, in_hand, Inv, Good}
use circuit.Circuit.Delivery.Steps.{Reachable-Good}

-- At any time the listeners have been told the transitions in the order in which the state flipped,
-- each one once: what they heard begins what was committed.
pub Reachable-in_order :
    (open? : Bool) (s : Shared)
    → Reachable open? s
    → (rest : List Transition) × (s.committed ≡ s.heard ++ rest)
Reachable-in_order open? s r =
    let (holder, v) = Reachable-Good r in
    (
      in_hand holder s.positions ++ s.pending_transitions,
      v.conserved ∙ append_assoc s.heard (in_hand holder s.positions) s.pending_transitions,
    )

-- When no call is in these functions any more, listeners that panicked included, the listeners have
-- been told every transition, the queue is empty, and the next call may deliver.
pub Reachable-delivered :
    (open? : Bool) (s : Shared)
    → Reachable open? s
    → ((i : ℕ) → s.positions i ≡ outside)
    → s.heard ≡ s.committed × s.pending_transitions ≡ [] × s.delivering_transitions ≡ false
Reachable-delivered open? s r idle = by_holder (Reachable-Good r)
  where
    empty : Inv open? none s → s.pending_transitions ≡ []
    empty v = elim (v.watched refl) [ inl e ↦ e | inr (j, e) ↦ ground (arith, e, idle j) ]

    by_holder :
        Good open? s
        → s.heard ≡ s.committed × s.pending_transitions ≡ [] × s.delivering_transitions ≡ false
    by_holder (none, v) = (
      sym (
          v.conserved
          ∙ ap (λ l. s.heard ++ [] ++ l) (empty v)
          ∙ append-nil (s.heard ++ [])
          ∙ append-nil s.heard),
      empty v,
      v.delivering,
    )
    by_holder (some k, v) = ground (arith, v.roles k, idle k)

-- At most one call delivers at a time, and the flag of the circuit says whether one does.
pub Reachable-one_deliverer :
    (open? : Bool) (s : Shared) (i j : ℕ)
    → Reachable open? s
    → holds (s.positions i) ≡ true
    → holds (s.positions j) ≡ true
    → i ≡ j × s.delivering_transitions ≡ true
Reachable-one_deliverer open? s i j r at_i at_j = by_holder (Reachable-Good r)
  where
    by_holder : Good open? s → i ≡ j × s.delivering_transitions ≡ true
    by_holder (none, v) = ground (arith, v.roles i)
    by_holder (some k, v) = ground (arith, v.roles i, v.roles j, v.delivering)
