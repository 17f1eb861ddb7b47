-- ===== src/Circuit/Delivery/Steps.antt =====
-- circuit.go: each step of a delivery keeps the invariant.
use circuit.Prelude.{
  ℕ, Bool, true, false, not, some, none, List, [], ◌∷◌, ◌++◌, if◌then◌else◌, ◌≡◌, inr, refl, sym,
  ap, subst, ◌∙◌, arith,
}
use mathlib.Core.List.{append-nil, append_assoc}
use circuit.Circuit.Logic.{Transition}
use circuit.Circuit.Delivery.{
  outside, entering, popped, telling, unwinding, Shared, place, commit, next, enter, tell, panic,
  give_up, Step, commits, enters, tells, returns, panics, gives_up, Reachable, started, stepped,
}
use circuit.Circuit.Delivery.Invariant.{
  holds, hand, in_hand, follow, Inv, fresh-Inv, Good, holder_is, Deciding, placed_hand, next-Good,
  stays_hand,
}

follow-snoc :
    (b c : Bool) (ts : List Transition) (t : Transition)
    → follow b ts ≡ some c
    → c ≡ not t.to_open
    → follow b (ts ++ t ∷ []) ≡ some t.to_open
unfolding follow
follow-snoc true c [] t h e = ground arith
follow-snoc false c [] t h e = ground arith
follow-snoc true c (u ∷ ts) t h e = ground (arith, follow-snoc false c ts t)
follow-snoc false c (u ∷ ts) t h e = ground (arith, follow-snoc true c ts t)

commit-Good :
    {open? : Bool} (i : ℕ) (t : Transition) (s : Shared)
    → s.positions i ≡ outside
    → s.is_open ≡ not t.to_open
    → Good open? s
    → Good open? (commit i t s)
unfolding commit place
commit-Good {open? = open?} i t s e flips (holder, v) = (
  holder,
  record {
    roles = λ j. ground (arith, v.roles j, v.roles i);
    delivering = v.delivering;
    conserved =
        ap (λ l. l ++ t ∷ []) v.conserved
        ∙ append_assoc (s.heard ++ in_hand holder s.positions) s.pending_transitions (t ∷ [])
        ∙ ap (λ l. s.heard ++ l ++ (s.pending_transitions ++ t ∷ []))
            (sym (stays_hand holder i entering s.positions (ground (arith, v.roles i))));
    alternates = follow-snoc open? s.is_open s.committed t v.alternates flips;
    watched = λ h. inr (i, ground arith);
  },
)

enter_free :
    (i : ℕ) (s : Shared)
    → s.delivering_transitions ≡ false
    → enter i s ≡ next i s.pending_transitions (record s { delivering_transitions = true })
unfolding enter
enter_free i s h =
    ap
      (λ b.
        if b
        then record s { positions = place i outside s.positions }
        else next i s.pending_transitions (record s { delivering_transitions = true }))
      h

enter_busy :
    (i : ℕ) (s : Shared)
    → s.delivering_transitions ≡ true
    → enter i s ≡ record s { positions = place i outside s.positions }
unfolding enter
enter_busy i s h =
    ap
      (λ b.
        if b
        then record s { positions = place i outside s.positions }
        else next i s.pending_transitions (record s { delivering_transitions = true }))
      h

enter-Good :
    {open? : Bool} (i : ℕ) (s : Shared)
    → s.positions i ≡ entering
    → Good open? s
    → Good open? (enter i s)
unfolding enter place
enter-Good i s e (none, v) =
    let d : Deciding _ i (record s { delivering_transitions = true }) = record {
      others = λ j ne. v.roles j;
      delivering = refl;
      conserved = v.conserved ∙ ap (λ l. l ++ s.pending_transitions) (append-nil s.heard);
      alternates = v.alternates;
    } in
    subst (Good _) (sym (enter_free i s v.delivering))
      (next-Good i s.pending_transitions (record s { delivering_transitions = true }) refl d)
enter-Good {open? = open?} i s e (some k, v) = subst (Good _) (sym (enter_busy i s v.delivering)) (
  some k,
  record {
    roles = λ j. ground (arith, v.roles j, v.roles i);
    delivering = v.delivering;
    conserved =
        v.conserved
        ∙ ap (λ l. s.heard ++ l ++ s.pending_transitions)
            (sym (stays_hand (some k) i outside s.positions (ground (arith, v.roles i))));
    alternates = v.alternates;
    watched = λ h. ground (arith, h);
  },
)

tell-Good :
    {open? : Bool} (i : ℕ) (t : Transition) (s : Shared)
    → s.positions i ≡ popped t
    → Good open? s
    → Good open? (tell i t s)
unfolding tell place
tell-Good {open? = open?} i t s e (holder, v₀) =
    let v : Inv open? (some i) s =
      subst (λ h. Inv open? h s) (holder_is holder s i v₀ (ap holds e)) v₀ in
    (
      some i,
      record {
        roles = λ j. ground (arith, v.roles j);
        delivering = v.delivering;
        conserved =
            v.conserved
            ∙ ap (λ l. s.heard ++ l ++ s.pending_transitions) (ap hand e)
            ∙ ap (λ l. l ++ s.pending_transitions) (sym (append-nil (s.heard ++ t ∷ [])))
            ∙ ap (λ l. s.heard ++ t ∷ [] ++ l ++ s.pending_transitions)
                (sym (placed_hand i (telling t) s.positions));
        alternates = v.alternates;
        watched = λ h. ground (arith, h);
      },
    )

return-Good :
    {open? : Bool} (i : ℕ) (t : Transition) (s : Shared)
    → s.positions i ≡ telling t
    → Good open? s
    → Good open? (next i s.pending_transitions s)
return-Good {open? = open?} i t s e (holder, v₀) =
    let v : Inv open? (some i) s =
      subst (λ h. Inv open? h s) (holder_is holder s i v₀ (ap holds e)) v₀ in
    next-Good i s.pending_transitions s refl (record {
      others = λ j ne. v.roles j ∙ ne;
      delivering = v.delivering;
      conserved =
          v.conserved
          ∙ ap (λ l. s.heard ++ l ++ s.pending_transitions) (ap hand e)
          ∙ ap (λ l. l ++ s.pending_transitions) (append-nil s.heard);
      alternates = v.alternates;
    })

panic-Good :
    {open? : Bool} (i : ℕ) (t : Transition) (s : Shared)
    → s.positions i ≡ telling t
    → Good open? s
    → Good open? (panic i s)
unfolding panic place
panic-Good {open? = open?} i t s e (holder, v₀) =
    let v : Inv open? (some i) s =
      subst (λ h. Inv open? h s) (holder_is holder s i v₀ (ap holds e)) v₀ in
    (
      some i,
      record {
        roles = λ j. ground (arith, v.roles j);
        delivering = v.delivering;
        conserved =
            v.conserved
            ∙ ap (λ l. s.heard ++ l ++ s.pending_transitions)
                (ap hand e ∙ sym (placed_hand i unwinding s.positions));
        alternates = v.alternates;
        watched = λ h. ground (arith, h);
      },
    )

give_up-Good :
    {open? : Bool} (i : ℕ) (s : Shared)
    → s.positions i ≡ unwinding
    → Good open? s
    → Good open? (give_up i s)
unfolding give_up place
give_up-Good {open? = open?} i s e (holder, v₀) =
    let v : Inv open? (some i) s =
      subst (λ h. Inv open? h s) (holder_is holder s i v₀ (ap holds e)) v₀ in
    (
      none,
      record {
        roles = λ j. ground (arith, v.roles j);
        delivering = refl;
        conserved = v.conserved ∙ ap (λ l. s.heard ++ l ++ s.pending_transitions) (ap hand e);
        alternates = v.alternates;
        watched = λ h. inr (i, ground arith);
      },
    )

Step-Good : {open? : Bool} {s s' : Shared} → Step s s' → Good open? s → Good open? s'
Step-Good (commits i t s e flips) g = commit-Good i t s e flips g
Step-Good (enters i s e) g = enter-Good i s e g
Step-Good (tells i t s e) g = tell-Good i t s e g
Step-Good (returns i t s e) g = return-Good i t s e g
Step-Good (panics i t s e) g = panic-Good i t s e g
Step-Good (gives_up i s e) g = give_up-Good i s e g

pub Reachable-Good : {open? : Bool} {s : Shared} → Reachable open? s → Good open? s
Reachable-Good started = (none, fresh-Inv _)
Reachable-Good (stepped r step) = Step-Good step (Reachable-Good r)
