-- ===== src/Circuit/Delivery/Invariant.antt =====
-- circuit.go: each transition is told once, in order, by one call at a time, and none is left behind.
use circuit.Prelude.{
  ℕ, Bool, true, false, Option, some, none, List, [], ◌∷◌, ◌++◌, if◌then◌else◌, ◌==◌, ◌≡◌, ◌⊎◌, inl,
  refl, sym, ap, ◌∙◌, arith,
}
use mathlib.Core.List.{append-nil, append_assoc}
use circuit.Circuit.Logic.{Transition}
use circuit.Circuit.Delivery.{
  Position, outside, entering, popped, telling, unwinding, Shared, place, next, fresh,
}

-- The call is the one that delivers.
abbrev pub holds : Position → Bool
holds outside = false
holds entering = false
holds (popped t) = true
holds (telling t) = true
holds unwinding = true

-- What it has taken from the queue and not told yet.
abbrev pub hand : Position → List Transition
hand (popped t) = t ∷ []
hand _ = []

abbrev pub is_holder : Option ℕ → ℕ → Bool
is_holder none j = false
is_holder (some i) j = j == i

abbrev pub in_hand : Option ℕ → (ℕ → Position) → List Transition
in_hand none ps = []
in_hand (some i) ps = hand (ps i)

abbrev pub has_holder : Option ℕ → Bool
has_holder none = false
has_holder (some i) = true

-- The state after alternating transitions from the state b; none if they do not alternate.
unfoldable pub follow : Bool → List Transition → Option Bool
follow b [] = some b
follow true (t ∷ ts) = if t.to_open then none else follow false ts
follow false (t ∷ ts) = if t.to_open then follow true ts else none

pub record Inv (open? : Bool) (holder : Option ℕ) (s : Shared) : Type 0 where
  pub roles : (j : ℕ) → holds (s.positions j) ≡ is_holder holder j
  pub delivering : s.delivering_transitions ≡ has_holder holder
  pub conserved : s.committed ≡ s.heard ++ in_hand holder s.positions ++ s.pending_transitions
  pub alternates : follow open? s.committed ≡ some s.is_open
  pub watched : holder ≡ none → s.pending_transitions ≡ [] ⊎ ((j : ℕ) × (s.positions j ≡ entering))

pub fresh-Inv : (open? : Bool) → Inv open? none (fresh open?)
unfolding follow
fresh-Inv open? = record {
  roles = λ j. refl;
  delivering = refl;
  conserved = refl;
  alternates = refl;
  watched = λ e. inl refl;
}

abbrev pub Good : Bool → Shared → Type 0
Good open? s = (holder : Option ℕ) × Inv open? holder s

pub holder_is :
    {open? : Bool} (holder : Option ℕ) (s : Shared) (i : ℕ)
    → Inv open? holder s
    → holds (s.positions i) ≡ true
    → holder ≡ some i
holder_is none s i v h = ground (arith, v.roles i)
holder_is (some k) s i v h = ground (arith, v.roles i)

-- A call at the test of the loop: it has the role, and nothing in its hand.
pub record Deciding (open? : Bool) (i : ℕ) (s : Shared) : Type 0 where
  pub others : (j : ℕ) → (j == i) ≡ false → holds (s.positions j) ≡ false
  pub delivering : s.delivering_transitions ≡ true
  pub conserved : s.committed ≡ s.heard ++ s.pending_transitions
  pub alternates : follow open? s.committed ≡ some s.is_open

pub placed_hand : (i : ℕ) (p : Position) (ps : ℕ → Position) → hand (place i p ps i) ≡ hand p
unfolding place
placed_hand i p ps = ground arith

pub next-Good :
    {open? : Bool} (i : ℕ) (ts : List Transition) (s : Shared)
    → s.pending_transitions ≡ ts
    → Deciding open? i s
    → Good open? (next i ts s)
unfolding next place
next-Good i [] s e d = (
  none,
  record {
    roles = λ j. ground (arith, d.others j);
    delivering = refl;
    conserved = d.conserved ∙ ap (λ l. l ++ s.pending_transitions) (sym (append-nil s.heard));
    alternates = d.alternates;
    watched = λ h. inl e;
  },
)
next-Good i (t ∷ ts) s e d = (
  some i,
  record {
    roles = λ j. ground (arith, d.others j);
    delivering = d.delivering;
    conserved =
        d.conserved
        ∙ ap (λ l. s.heard ++ l) e
        ∙ sym (append_assoc s.heard (t ∷ []) ts)
        ∙ ap (λ l. s.heard ++ l ++ ts) (sym (placed_hand i (popped t) s.positions));
    alternates = d.alternates;
    watched = λ h. ground (arith, h);
  },
)

-- A step of another call leaves the hand of the holder as it is.
pub stays_hand :
    (holder : Option ℕ) (i : ℕ) (p : Position) (ps : ℕ → Position)
    → is_holder holder i ≡ false
    → in_hand holder (place i p ps) ≡ in_hand holder ps
unfolding place
stays_hand none i p ps h = refl
stays_hand (some k) i p ps h = ap hand (ground arith)
