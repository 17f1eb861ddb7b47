-- ===== src/Clock/Firing.antt =====
-- internal/clock/clock.go: which callbacks fire, and in which order.
use mathlib.Core.List.{Perm, perm_middle}
use mathlib.Core.List.Perm
use circuit.Prelude.{
  ℕ, ℤ, List, [], ◌∷◌, ◌++◌, before, time_add, ◌≡◌, ◌≤ℤ◌, ◌<ℤ◌, refl, ◌∙◌, arith, Bool-cases, inl,
  inr,
}
use circuit.Sorting.{sort_by, insert_by}
use circuit.Sorting.Laws.{IsSorted, sort_by-IsSorted, sort_by-perm, sort_by-at_key, at_key}
use circuit.Clock.{TimedCallback, World, new_array, to_call, call_all, trigger_callbacks, set, add}

-- The deadline of each has come, or has not.
abbrev pub AllDue : ℤ → List TimedCallback → Type 0
AllDue t [] = Unit {0}
AllDue t (c ∷ cs) = (c.at ≤ℤ t) × AllDue t cs

abbrev pub AllLater : ℤ → List TimedCallback → Type 0
AllLater t [] = Unit {0}
AllLater t (c ∷ cs) = (t <ℤ c.at) × AllLater t cs

new_array-AllLater : (t : ℤ) (cs : List TimedCallback) → AllLater t (new_array t cs)
unfolding new_array
new_array-AllLater t [] = tt
new_array-AllLater t (c ∷ cs) = ground (arith, new_array-AllLater t cs)

to_call-AllDue : (t : ℤ) (cs : List TimedCallback) → AllDue t (to_call t cs)
unfolding to_call
to_call-AllDue t [] = tt
to_call-AllDue t (c ∷ cs) = ground (arith, to_call-AllDue t cs)

insert_by-AllDue :
    (t : ℤ) (c : TimedCallback) (cs : List TimedCallback)
    → c.at ≤ℤ t
    → AllDue t cs
    → AllDue t (insert_by (λ c. c.at) c cs)
unfolding insert_by
insert_by-AllDue t c [] h d = (h, tt)
insert_by-AllDue t c (e ∷ cs) h d = ground (arith, insert_by-AllDue t c cs h d.1)

sort_by-AllDue : (t : ℤ) (cs : List TimedCallback) → AllDue t cs → AllDue t (sort_by (λ c. c.at) cs)
unfolding sort_by
sort_by-AllDue t [] d = tt
sort_by-AllDue t (c ∷ cs) d =
    insert_by-AllDue t c (sort_by (λ c. c.at) cs) d.0 (sort_by-AllDue t cs d.1)

split-perm : (t : ℤ) (cs : List TimedCallback) → Perm (to_call t cs ++ new_array t cs) cs
unfolding to_call new_array
split-perm t [] = Perm.nil
split-perm t (c ∷ cs) = elim (Bool-cases (before t c.at)) [
  | inl later ↦
      rw later
        (Perm.trans (perm_middle (to_call t cs) (new_array t cs)) (Perm.cons c (split-perm t cs)))
  | inr due ↦ rw due (Perm.cons c (split-perm t cs))
]

-- The callbacks that fire at the time t, in their order, and those that stay.
pub record Fires (t : ℤ) (cs due kept : List TimedCallback) : Type 0 where
  pub all : Perm (due ++ kept) cs
  pub are_due : AllDue t due
  pub are_later : AllLater t kept
  pub in_order : IsSorted (λ c. c.at) due
  pub stable : (u : ℤ) → u ≤ℤ t → at_key (λ c. c.at) u due ≡ at_key (λ c. c.at) u cs

to_call-at_key :
    (t u : ℤ) (cs : List TimedCallback)
    → u ≤ℤ t
    → at_key (λ c. c.at) u (to_call t cs) ≡ at_key (λ c. c.at) u cs
unfolding at_key to_call
to_call-at_key t u [] h = refl
to_call-at_key t u (c ∷ cs) h = ground (arith, to_call-at_key t u cs h)

trigger-Fires :
    (t : ℤ) (cs : List TimedCallback)
    → Fires t cs (sort_by (λ c. c.at) (to_call t cs)) (new_array t cs)
trigger-Fires t cs = record {
  all =
      Perm.trans (Perm.append_right (new_array t cs) (sort_by-perm (λ c. c.at) (to_call t cs)))
        (split-perm t cs);
  are_due = sort_by-AllDue t (to_call t cs) (to_call-AllDue t cs);
  are_later = new_array-AllLater t cs;
  in_order = sort_by-IsSorted (λ c. c.at) (to_call t cs);
  stable = λ u h. sort_by-at_key (λ c. c.at) u (to_call t cs) ∙ to_call-at_key t u cs h;
}

-- Adding to the clock, or setting it to the same time, moves it and then calls each callback whose
-- deadline has come, once, in the order of the deadlines, and those of one deadline in the order in which
-- they were registered; the others stay registered, and the callbacks that are called see the new time.
pub add-Fires :
    {E : Type 0}
    → (run : ℕ → World E → World E) (d : ℤ) (w : World E)
    → let t = time_add w.clock.current_time d in
      (due : List TimedCallback) × (kept : List TimedCallback) × Fires t w.clock.callbacks due kept
      × (add run d w ≡ (
        t,
        call_all run due (record w { clock = record { current_time = t; callbacks = kept } }),
      ))
      × (set run t w ≡ add run d w)
unfolding add set trigger_callbacks
add-Fires run d w =
    let t = time_add w.clock.current_time d in
    let cs = w.clock.callbacks in
    (sort_by (λ c. c.at) (to_call t cs), new_array t cs, trigger-Fires t cs, refl, refl)
