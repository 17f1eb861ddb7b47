-- ===== src/Circuit/Delivery/Progress.antt =====
-- circuit.go: as long as a call is in the delivery, some step is possible; so the listeners are told
-- everything.
use Prim.Native.Nat.{max}
use circuit.Prelude.{
  ℕ, zero, suc, Bool, true, List, [], ◌∷◌, ◌==◌, ◌<◌, ◌≤◌, ◌≡◌, ◌⊎◌, inl, inr, refl, ap, ◌∙◌, arith,
  Bool-cases, leb, leb→le, leb-false→lt, ==_iff,
}
use circuit.Circuit.Logic.{Transition}
use circuit.Circuit.Delivery.{
  Position, outside, entering, popped, telling, unwinding, Shared, place, commit, next, enter, tell,
  panic, give_up, Step, commits, enters, tells, returns, panics, gives_up, Reachable, started,
  stepped,
}
use circuit.Circuit.Delivery.Order.{Reachable-delivered}
use circuit.Circuit.Delivery.Ending.{
  Within, Quiet, Quiets, rests, steps, work, Step-work, Step-Within, placed_other, Quiets-work,
}

next-committed : (i : ℕ) (ts : List Transition) (s : Shared) → (next i ts s).committed ≡ s.committed
unfolding next
next-committed i [] s = refl
next-committed i (t ∷ ts) s = refl

enter-committed : (i : ℕ) (s : Shared) → (enter i s).committed ≡ s.committed
unfolding enter
enter-committed i s = elim (Bool-cases s.delivering_transitions) [
  | inl busy ↦ rw busy
  | inr free ↦
      rw free (next-committed i s.pending_transitions (record s { delivering_transitions = true }))
]

-- A call that is not outside can step.
moves :
    (i : ℕ) (s : Shared) (p : Position)
    → s.positions i ≡ p
    → (p ≡ outside) ⊎ ((s' : Shared) × Quiet s s')
unfolding tell give_up
moves i s outside e = inl refl
moves i s entering e = inr (enter i s, (enters i s e, enter-committed i s))
moves i s (popped t) e = inr (tell i t s, (tells i t s e, refl))
moves i s (telling t) e =
    inr
      (next i s.pending_transitions s, (returns i t s e, next-committed i s.pending_transitions s))
moves i s unwinding e = inr (give_up i s, (gives_up i s e, refl))

-- Of the first n calls, all are outside, or some step is possible.
idle_or_moves :
    (n : ℕ) (s : Shared)
    → ((j : ℕ) → j < n → s.positions j ≡ outside) ⊎ ((s' : Shared) × Quiet s s')
idle_or_moves zero s = inl (λ j h. elim h [ ])
idle_or_moves (suc n) s = elim (moves n s (s.positions n) refl) [
  | inr step ↦ inr step
  | inl here ↦ elim (idle_or_moves n s) [
    | inr step ↦ inr step
    | inl idle ↦ inl (λ j h. elim (Bool-cases (j == n)) [
      | inl same ↦ ap s.positions ((==_iff j n).0 same) ∙ here
      | inr other ↦ idle j (ground arith)
    ])
  ]
]

everywhere :
    (n : ℕ) (s : Shared)
    → ((j : ℕ) → j < n → s.positions j ≡ outside)
    → Within n s
    → (i : ℕ) → s.positions i ≡ outside
everywhere n s idle b i = elim (Bool-cases (leb n i)) [
  | inl past ↦ b i (leb→le n i past)
  | inr within ↦ idle i (leb-false→lt n i within)
]

-- With enough steps allowed, the run ends with every call outside.
runs_out :
    (fuel n : ℕ) (s : Shared)
    → work n s ≤ fuel
    → Within n s
    → (k : ℕ) × (s' : Shared) × Quiets k s s' × ((i : ℕ) → s'.positions i ≡ outside)
runs_out zero n s enough b = elim (idle_or_moves n s) [
  | inl idle ↦ (0, s, rests s, everywhere n s idle b)
  | inr (s', (step, quiet)) ↦ absurd (omega (arith, Step-work n step quiet b))
]
runs_out (suc fuel) n s enough b = elim (idle_or_moves n s) [
  | inl idle ↦ (0, s, rests s, everywhere n s idle b)
  | inr (s', (step, quiet)) ↦
      let (k, last, run, idle) =
        runs_out fuel n s' (omega (arith, Step-work n step quiet b)) (Step-Within n step quiet b) in
      (suc k, last, steps (step, quiet) run, idle)
]

Quiets-Reachable :
    {open? : Bool} (k : ℕ) (s s' : Shared) → Reachable open? s → Quiets k s s' → Reachable open? s'
Quiets-Reachable zero s _ r (rests _) = r
Quiets-Reachable (suc k) s s'' r (steps {s' = s'} (step, quiet) run) =
    Quiets-Reachable k s' s'' (stepped r step) run

Quiets-committed : (k : ℕ) (s s' : Shared) → Quiets k s s' → s'.committed ≡ s.committed
Quiets-committed zero s _ (rests _) = refl
Quiets-committed (suc k) s s'' (steps {s' = s'} (step, quiet) run) =
    Quiets-committed k s' s'' run ∙ quiet

place-beyond :
    (n i j : ℕ) (p : Position) (s : Shared)
    → Within n s
    → max n (suc i) ≤ j
    → place i p s.positions j ≡ outside
place-beyond n i j p s b h = placed_other i j p s.positions (ground arith) ∙ b j (omega arith)

next-beyond :
    (n i : ℕ) (ts : List Transition) (s : Shared)
    → Within n s
    → Within (max n (suc i)) (next i ts s)
unfolding next
next-beyond n i [] s b j h = place-beyond n i j outside s b h
next-beyond n i (t ∷ ts) s b j h = place-beyond n i j (popped t) s b h

enter-beyond : (n i : ℕ) (s : Shared) → Within n s → Within (max n (suc i)) (enter i s)
unfolding enter
enter-beyond n i s b = elim (Bool-cases s.delivering_transitions) [
  | inl busy ↦ rw busy (λ j h. place-beyond n i j outside s b h)
  | inr free ↦
      rw free (next-beyond n i s.pending_transitions (record s { delivering_transitions = true }) b)
]

Step-beyond : {s s' : Shared} (n : ℕ) → Step s s' → Within n s → (m : ℕ) × Within m s'
unfolding commit tell panic give_up
Step-beyond n (commits i t s e flips) b = (_, λ j h. place-beyond n i j entering s b h)
Step-beyond n (enters i s e) b = (_, enter-beyond n i s b)
Step-beyond n (tells i t s e) b = (_, λ j h. place-beyond n i j (telling t) s b h)
Step-beyond n (returns i t s e) b = (_, next-beyond n i s.pending_transitions s b)
Step-beyond n (panics i t s e) b = (_, λ j h. place-beyond n i j unwinding s b h)
Step-beyond n (gives_up i s e) b = (_, λ j h. place-beyond n i j entering s b h)

-- Only finitely many calls are in these functions.
Reachable-Within : {open? : Bool} {s : Shared} → Reachable open? s → (n : ℕ) × Within n s
Reachable-Within started = (0, λ j h. refl)
Reachable-Within (stepped r step) = let (n, b) = Reachable-Within r in Step-beyond n step b

-- From every reachable state the calls under way can finish without another commit, in no more steps
-- than their work, and then the listeners have been told every transition that was committed.
pub Reachable-delivers :
    (open? : Bool) (s : Shared)
    → Reachable open? s
    → (n : ℕ) × (k : ℕ) × (s' : Shared) × Within n s
      × Quiets k s s'
      × (k ≤ work n s)
      × ((i : ℕ) → s'.positions i ≡ outside)
      × (s'.heard ≡ s.committed)
      × (s'.pending_transitions ≡ [])
Reachable-delivers open? s r =
    let (n, b) = Reachable-Within r in
    let (k, s', run, idle) = runs_out (work n s) n s (omega arith) b in
    let (heard, empty, _) = Reachable-delivered open? s' (Quiets-Reachable k s s' r run) idle in
    (
      n,
      k,
      s',
      b,
      run,
      omega (arith, Quiets-work n k s s' b run),
      idle,
      heard ∙ Quiets-committed k s s' run,
      empty,
    )
