-- ===== src/Circuit/Delivery/Ending.antt =====
-- circuit.go: the delivery ends. Every step but a commit leaves less work, and until the work is done
-- some step is possible.
use circuit.Prelude.{
  ℕ, zero, suc, true, false, List, [], ◌∷◌, ◌++◌, length, length-append, ◌==◌, ◌+◌, ◌*◌, ◌<◌, ◌≤◌,
  ◌≡◌, ◌≢◌, inl, inr, refl, sym, ap, ◌∙◌, arith, Bool-cases, subst, ==_iff, leb, leb→le,
  leb-false→lt,
}
use circuit.Circuit.Logic.{Transition}
use circuit.Circuit.Delivery.{
  Position, outside, entering, popped, telling, unwinding, Shared, place, commit, next, enter, tell,
  panic, give_up, Step, commits, enters, tells, returns, panics, gives_up,
}

-- The steps that a call at a position can still take with what it has in its hand.
abbrev pub weight : Position → ℕ
weight outside = 0
weight entering = 1
weight unwinding = 2
weight (telling t) = 3
weight (popped t) = 4

unfoldable pub weights : ℕ → (ℕ → Position) → ℕ
weights zero ps = 0
weights (suc n) ps = weight (ps n) + weights n ps

-- The work that n calls have left: theirs, and four steps for each transition in the queue.
unfoldable pub work : ℕ → Shared → ℕ
unfolding weights
work n s = weights n s.positions + 4 * length s.pending_transitions

-- Only the first n calls are in these functions.
abbrev pub Within : ℕ → Shared → Type 0
Within n s = (j : ℕ) → n ≤ j → s.positions j ≡ outside

-- A step that commits no transition.
abbrev pub Quiet : Shared → Shared → Type 0
Quiet s s' = Step s s' × (s'.committed ≡ s.committed)

placed : (i : ℕ) (p : Position) (ps : ℕ → Position) → place i p ps i ≡ p
unfolding place
placed i p ps = ground arith

pub placed_other :
    (i j : ℕ) (p : Position) (ps : ℕ → Position) → (j == i) ≡ false → place i p ps j ≡ ps j
unfolding place
placed_other i j p ps h = rw h

weights_past :
    (n i : ℕ) (p : Position) (ps : ℕ → Position) → n ≤ i → weights n (place i p ps) ≡ weights n ps
unfolding weights
weights_past zero i p ps h = refl
weights_past (suc n) i p ps h =
    let apart : (n == i) ≡ false = ground arith in
    omega (arith, weights_past n i p ps (omega arith), ap weight (placed_other i n p ps apart))

weights_place :
    (n i : ℕ) (p : Position) (ps : ℕ → Position)
    → i < n
    → weights n (place i p ps) + weight (ps i) ≡ weights n ps + weight p
unfolding weights
weights_place zero i p ps h = elim h [ ]
weights_place (suc n) i p ps h = elim (Bool-cases (n == i)) [
  | inl here ↦
      subst (λ k. weights (suc n) (place k p ps) + weight (ps k) ≡ weights (suc n) ps + weight p)
        ((==_iff n i).0 here)
        (omega (arith, weights_past n n p ps (omega arith), ap weight (placed n p ps)))
  | inr there ↦
      omega (arith, weights_place n i p ps (ground arith), ap weight (placed_other i n p ps there))
]

-- A call that is not outside is one of the n.
inside : (n i : ℕ) (s : Shared) → Within n s → s.positions i ≢ outside → i < n
inside n i s b h = elim (Bool-cases (leb n i)) [
  | inl past ↦ absurd (h (b i (leb→le n i past)))
  | inr within ↦ leb-false→lt n i within
]

-- The work after the call i moved to p.
moved :
    (n i : ℕ) (p q : Position) (s : Shared)
    → Within n s
    → s.positions i ≡ q
    → q ≢ outside
    → weights n (place i p s.positions) + weight q ≡ weights n s.positions + weight p
moved n i p q s b e h =
    let in_range = inside n i s b (λ o. h (sym e ∙ o)) in
    omega (arith, weights_place n i p s.positions in_range, ap weight e)

next-work :
    (n i : ℕ) (q : Position) (s : Shared) (ts : List Transition)
    → s.pending_transitions ≡ ts
    → Within n s
    → s.positions i ≡ q
    → q ≢ outside
    → work n (next i ts s) + weight q ≤ work n s
unfolding work next
next-work n i q s [] queue b e h = omega (arith, moved n i outside q s b e h, ap length queue)
next-work n i q s (t ∷ ts) queue b e h =
    omega (arith, moved n i (popped t) q s b e h, ap length queue)

enter-work :
    (n i : ℕ) (s : Shared)
    → Within n s
    → s.positions i ≡ entering
    → work n (enter i s) + 1 ≤ work n s
unfolding work enter
enter-work n i s b e = elim (Bool-cases s.delivering_transitions) [
  | inl busy ↦ rw busy (omega (arith, moved n i outside entering s b e (λ h. cc)))
  | inr free ↦
      let s' = record s { delivering_transitions = true } in
      rw free (omega (arith, next-work n i entering s' s.pending_transitions refl b e (λ h. cc)))
]

pub longer : (ts : List Transition) (t : Transition) → ts ++ t ∷ [] ≢ ts
longer ts t e = absurd (omega (arith, length-append {0} ts (t ∷ []), ap length e))

-- Every step but a commit does some of the work.
pub Step-work :
    (n : ℕ) {s s' : Shared}
    → Step s s'
    → s'.committed ≡ s.committed
    → Within n s
    → work n s' < work n s
unfolding work commit tell panic give_up
Step-work n (commits i t s e flips) quiet b = absurd (longer s.committed t quiet)
Step-work n (enters i s e) quiet b = omega (arith, enter-work n i s b e)
Step-work n (tells i t s e) quiet b =
    omega (arith, moved n i (telling t) (popped t) s b e (λ h. cc))
Step-work n (returns i t s e) quiet b =
    omega (arith, next-work n i (telling t) s s.pending_transitions refl b e (λ h. cc))
Step-work n (panics i t s e) quiet b =
    omega (arith, moved n i unwinding (telling t) s b e (λ h. cc))
Step-work n (gives_up i s e) quiet b = omega (arith, moved n i entering unwinding s b e (λ h. cc))

place-Within :
    (n i j : ℕ) (p : Position) (s : Shared)
    → i < n
    → n ≤ j
    → Within n s
    → place i p s.positions j ≡ outside
place-Within n i j p s h q b = placed_other i j p s.positions (ground arith) ∙ b j q

next-Within :
    (n i : ℕ) (ts : List Transition) (s : Shared) → i < n → Within n s → Within n (next i ts s)
unfolding next
next-Within n i [] s h b j q = place-Within n i j outside s h q b
next-Within n i (t ∷ ts) s h b j q = place-Within n i j (popped t) s h q b

enter-Within : (n i : ℕ) (s : Shared) → i < n → Within n s → Within n (enter i s)
unfolding enter
enter-Within n i s h b = elim (Bool-cases s.delivering_transitions) [
  | inl busy ↦ rw busy (λ j q. place-Within n i j outside s h q b)
  | inr free ↦
      rw free
        (next-Within n i s.pending_transitions (record s { delivering_transitions = true }) h b)
]

pub Step-Within :
    (n : ℕ) {s s' : Shared} → Step s s' → s'.committed ≡ s.committed → Within n s → Within n s'
unfolding commit tell panic give_up
Step-Within n (commits i t s e flips) quiet b = absurd (longer s.committed t quiet)
Step-Within n (enters i s e) quiet b = enter-Within n i s (inside n i s b (λ o. cc)) b
Step-Within n (tells i t s e) quiet b =
    λ j q. place-Within n i j (telling t) s (inside n i s b (λ o. cc)) q b
Step-Within n (returns i t s e) quiet b =
    next-Within n i s.pending_transitions s (inside n i s b (λ o. cc)) b
Step-Within n (panics i t s e) quiet b =
    λ j q. place-Within n i j unwinding s (inside n i s b (λ o. cc)) q b
Step-Within n (gives_up i s e) quiet b =
    λ j q. place-Within n i j entering s (inside n i s b (λ o. cc)) q b

-- A run of k steps without a commit.
pub data Quiets : ℕ → Shared → Shared → Type 0 where
  rests : (s : Shared) → Quiets zero s s
  steps : {k : ℕ} {s s' s'' : Shared} → Quiet s s' → Quiets k s' s'' → Quiets (suc k) s s''

-- A run without commits has at most as many steps as its calls have work, panics of listeners included,
-- so the delivery ends.
pub Quiets-work : (n k : ℕ) (s s' : Shared) → Within n s → Quiets k s s' → k + work n s' ≤ work n s
Quiets-work n zero s _ b (rests _) = omega arith
Quiets-work n (suc k) s s'' b (steps {s' = s'} (step, quiet) run) =
    let less = Step-work n step quiet b in
    omega (arith, less, Quiets-work n k s' s'' (Step-Within n step quiet b) run)
