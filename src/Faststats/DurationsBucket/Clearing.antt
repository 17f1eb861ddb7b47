-- ===== src/Faststats/DurationsBucket/Clearing.antt =====
-- faststats/rolling_percentile.go: `clear` unsets the prefix that was handed out, which is all that is set.
use circuit.Prelude.{
  ℕ, zero, suc, ℤ, pos, List, some, length, replicate, get_elem?, set, length-set, length-replicate,
  get_elem?-set_self, get_elem?-set_ne, get_elem?-replicate, list_ext, lt→ltb, ◌≡◌, ◌⊎◌, inl, inr,
  ◌∙◌, refl, ap, sym, arith, ◌+◌, ◌<◌, ◌≤◌, pos_part,
}
use circuit.Faststats.DurationsBucket.{
  DurationsBucket, unset_duration, new_durations_bucket, size, unset_from, clear,
}
use circuit.Faststats.DurationsBucket.Kept.{Keeps}

-- The slots after the loop over `rounds` slots from i on.
record Unset (rounds i : ℕ) (slots slots' : List ℤ) : Type 0 where
  sized : length slots' ≡ length slots
  inside : (j : ℕ) → i ≤ j → j < i + rounds → get_elem? slots' j ≡ some unset_duration
  outside : (j : ℕ) → i + rounds ≤ j → get_elem? slots' j ≡ get_elem? slots j
  before : (j : ℕ) → j < i → get_elem? slots' j ≡ get_elem? slots j

leb_cases : (i j : ℕ) → i ≤ j ⊎ (j < i)
leb_cases i j = ground arith

le_cases : (i j : ℕ) → i ≤ j → i ≡ j ⊎ (suc i ≤ j)
le_cases i j h = ground arith

unset_from-Unset :
    (rounds i : ℕ) (slots : List ℤ)
    → i + rounds ≤ length slots
    → (slots' : List ℤ) × (unset_from rounds i slots ≡ some slots') × Unset rounds i slots slots'
unfolding unset_from
unset_from-Unset zero i slots h = (
  slots,
  refl,
  record {
    sized = refl;
    inside = λ j p q. absurd (omega arith);
    outside = λ j p. refl;
    before = λ j p. refl;
  },
)
unset_from-Unset (suc rounds) i slots h =
    let written = set slots i unset_duration in
    let size = length-set slots i unset_duration in
    let (slots', run, u) = unset_from-Unset rounds (suc i) written (omega (arith, size)) in
    let here = get_elem?-set_self slots i unset_duration (omega arith) in
    (
      slots',
      simp (lt→ltb i (length slots) (omega arith)) run,
      record {
        sized = u.sized ∙ size;
        inside = λ j p q. elim (le_cases i j p) [
          | inl e ↦ u.before j (omega (arith, e)) ∙ ap (get_elem? written) (sym e) ∙ here
          | inr less ↦ u.inside j less (omega arith)
        ];
        outside = λ j p.
            u.outside j (omega arith)
            ∙ get_elem?-set_ne slots i j unset_duration (λ e. absurd (omega (arith, e)));
        before = λ j p.
            u.before j (omega arith)
            ∙ get_elem?-set_ne slots i j unset_duration (λ e. absurd (omega (arith, e)));
      },
    )

size-bounds :
    (n : ℕ) (ds : List ℤ) (b : DurationsBucket)
    → Keeps n ds b
    → pos_part (size b) ≤ length b.durations_some_invalid
      × ((j : ℕ) → j < n → pos_part (size b) ≤ j → length ds ≤ j)
unfolding size
size-bounds n ds b k =
    (ground (arith, k.indexed, k.sized), λ j q p. ground (arith, k.indexed, k.sized, p, q))

-- Clearing a bucket of n slots makes it new again, whatever it kept.
pub clear-Keeps :
    (n : ℕ) (ds : List ℤ) (b : DurationsBucket)
    → Keeps n ds b
    → clear b ≡ some (new_durations_bucket n)
unfolding clear new_durations_bucket
clear-Keeps n ds b k =
    let used = pos_part (size b) in
    let (fits, beyond) = size-bounds n ds b k in
    let (slots, run, u) = unset_from-Unset used 0 b.durations_some_invalid (omega (arith, fits)) in
    let all_unset : slots ≡ replicate n unset_duration =
      list_ext slots (replicate n unset_duration)
        (u.sized ∙ k.sized ∙ sym (length-replicate n unset_duration))
        (λ j q.
          let small : j < n = omega (arith, u.sized, k.sized, q) in
          let value : get_elem? slots j ≡ some unset_duration = elim (leb_cases used j) [
            | inl past ↦ u.outside j (omega (arith, past)) ∙ k.unset j small (beyond j small past)
            | inr within ↦ u.inside j (omega arith) (omega (arith, within))
          ] in
          value ∙ sym (get_elem?-replicate n j unset_duration small)) in
    rw run (ap (λ l. some (record { durations_some_invalid = l; current_index = pos 0 })) all_unset)
