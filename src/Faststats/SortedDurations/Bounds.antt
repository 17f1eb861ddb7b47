-- ===== src/Faststats/SortedDurations/Bounds.antt =====
-- faststats/rolling_percentile.go: the mean, the least and the greatest of a sorted list.
use native.Mathlib.Nat.{le-div_iff_mul-le, div-le_of_le-mul}
use circuit.Prelude.{
  ℕ, zero, suc, ℤ, pos, negsuc, pos_part, List, [], ◌∷◌, some, length, get_elem?, ◌+◌, ◌*◌, ◌/◌,
  ◌-◌, ◌^◌, ◌<◌, ◌≤◌, ◌≡◌, ◌≤ℤ◌, refl, ap, ◌∙◌, arith, add64-pos, div64-pos, get_elem?-lt,
  ne-zero→false, pos_part_mono, pos-le_of_nonneg,
}
use circuit.Faststats.DurationsBucket.Kept.{get_elem?-bound}
use circuit.Sorting.Laws.{IsSorted}
use circuit.Faststats.SortedDurations.{sum_durations, mean, min, max}

abbrev pub Sorted : List ℤ → Type 0
Sorted = IsSorted (λ d. d)

tail-Sorted : (x : ℤ) (s : List ℤ) → Sorted (x ∷ s) → Sorted s
tail-Sorted x [] h = tt
tail-Sorted x (y ∷ s) h = h.1

head-le : (x y : ℤ) (s : List ℤ) (j : ℕ) → Sorted (x ∷ s) → get_elem? (x ∷ s) j ≡ some y → x ≤ℤ y
head-le x y s zero h e = ground (arith, e)
head-le x y [] (suc j) h e = absurd (ground (arith, e))
head-le x y (z ∷ s) (suc j) h e = omega (arith, h.0, head-le z y s j h.1 e)

-- A sorted list ascends from any place to any later one.
pub Sorted-le :
    (s : List ℤ) (i j : ℕ) (x y : ℤ)
    → Sorted s
    → i ≤ j
    → get_elem? s i ≡ some x
    → get_elem? s j ≡ some y
    → x ≤ℤ y
Sorted-le [] i j x y h le e e' = absurd (ground (arith, e))
Sorted-le (z ∷ s) zero j x y h le e e' =
    let same : z ≡ x = ground (arith, e) in ground (arith, same, head-le z y s j h e')
Sorted-le (z ∷ s) (suc i) zero x y h le e e' = absurd (omega arith)
Sorted-le (z ∷ s) (suc i) (suc j) x y h le e e' =
    Sorted-le s i j x y (tail-Sorted z s h) (omega arith) e e'

-- No duration is negative.
abbrev pub AllNonneg : List ℤ → Type 0
AllNonneg [] = Unit {0}
AllNonneg (d ∷ s) = (pos 0 ≤ℤ d) × AllNonneg s

abbrev pub total : List ℤ → ℕ
total [] = 0
total (d ∷ s) = pos_part d + total s

sum_durations-total :
    (acc : ℕ) (s : List ℤ)
    → AllNonneg s
    → acc + total s < 2 ^ 63
    → sum_durations (pos acc) s ≡ pos (acc + total s)
unfolding sum_durations
sum_durations-total acc [] h few = ap pos (omega arith)
sum_durations-total acc (pos d ∷ s) h few =
    rw (add64-pos acc d (omega arith))
      (sum_durations-total (acc + d) s h.1 (omega arith) ∙ ap pos (omega arith))
sum_durations-total acc (negsuc d ∷ s) h few = absurd (omega (arith, h.0))

-- Bounds on the durations are bounds on their total.
total_bounds :
    (lo hi : ℕ) (s : List ℤ)
    → ((i : ℕ) (d : ℤ) → get_elem? s i ≡ some d → (lo ≤ pos_part d) × (pos_part d ≤ hi))
    → (length s * lo ≤ total s) × (total s ≤ length s * hi)
total_bounds lo hi [] h = (omega arith, omega arith)
total_bounds lo hi (d ∷ s) h =
    let (low, high) = h 0 d refl in
    let (l, u) = total_bounds lo hi s (λ i e g. h (suc i) e g) in (grind arith, grind arith)

pub AllNonneg-get : (s : List ℤ) (i : ℕ) (d : ℤ) → AllNonneg s → get_elem? s i ≡ some d → pos 0 ≤ℤ d
AllNonneg-get [] i d h e = absurd (ground (arith, e))
AllNonneg-get (x ∷ s) zero d h e = let same : x ≡ d = ground (arith, e) in ground (arith, same, h.0)
AllNonneg-get (x ∷ s) (suc i) d h e = AllNonneg-get s i d h.1 e

mean-total :
    (s : List ℤ) → AllNonneg s → 0 < length s → total s < 2 ^ 63 → mean s ≡ pos (total s / length s)
unfolding mean
mean-total s h some_durations few =
    let sum : sum_durations (pos 0) s ≡ pos (total s) =
      sum_durations-total 0 s h (omega arith) ∙ ap pos (omega arith) in
    rw (ne-zero→false (length s) some_durations, sum) (div64-pos (total s) (length s) few)

-- The places of the least and the greatest.
pub ends :
    (s : List ℤ)
    → 0 < length s
    → (lo : ℤ) × (hi : ℤ) × (min s ≡ some lo)
      × (max s ≡ some hi)
      × (get_elem? s 0 ≡ some lo)
      × (get_elem? s (length s - 1) ≡ some hi)
unfolding min max
ends s some_durations =
    let (lo, first) = get_elem?-lt s 0 some_durations in
    let (hi, last) = get_elem?-lt s (length s - 1) (omega arith) in
    let full = ne-zero→false (length s) some_durations in
    (lo, hi, rw full first, rw full last, first, last)

-- Of a sorted list of one or more durations, none negative and with a sum below 2^63, the least and the
-- greatest bound every duration and the mean.
pub mean_bounds :
    (s : List ℤ)
    → Sorted s
    → AllNonneg s
    → 0 < length s
    → total s < 2 ^ 63
    → (lo : ℤ) × (hi : ℤ) × (min s ≡ some lo)
      × (max s ≡ some hi)
      × (lo ≤ℤ mean s)
      × (mean s ≤ℤ hi)
      × ((i : ℕ) (d : ℤ) → get_elem? s i ≡ some d → (lo ≤ℤ d) × (d ≤ℤ hi))
mean_bounds s h nonneg some_durations few =
    let (lo, hi, least, greatest, first, last) = ends s some_durations in
    let between : (i : ℕ) (d : ℤ) → get_elem? s i ≡ some d → (lo ≤ℤ d) × (d ≤ℤ hi) = λ i d e. (
      Sorted-le s 0 i lo d h (omega arith) first e,
      Sorted-le s i (length s - 1) d hi h (omega (arith, get_elem?-bound s i d e)) e last,
    ) in
    let low = AllNonneg-get s 0 lo nonneg first in
    let high = AllNonneg-get s (length s - 1) hi nonneg last in
    let (above, below) =
      total_bounds (pos_part lo) (pos_part hi) s
        (λ i d e. let (l, u) = between i d e in (pos_part_mono lo d l, pos_part_mono d hi u)) in
    let q = mean-total s nonneg some_durations few in
    let over : pos_part lo ≤ total s / length s =
      (le-div_iff_mul-le some_durations).1 (grind (arith, above)) in
    let under : total s / length s ≤ pos_part hi = div-le_of_le-mul (length s) below in
    (
      lo,
      hi,
      least,
      greatest,
      rw q (omega (arith, over, low)),
      rw q (pos-le_of_nonneg (total s / length s) hi high under),
      between,
    )
