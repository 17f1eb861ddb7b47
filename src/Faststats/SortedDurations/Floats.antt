-- ===== src/Faststats/SortedDurations/Floats.antt =====
-- faststats/rolling_percentile.go: a percentile lies between the least and the greatest duration.
use circuit.Prelude.{
  ℕ, ℤ, pos, negsuc, pos_part, true, false, List, some, length, get_elem?, ◌==◌, ◌+◌, ◌-◌, ◌^◌, ◌<◌,
  ◌≤◌, ◌≡◌, ◌≤ℤ◌, ◌-ℤ◌, ap, ◌∙◌, arith, Bool-cases, inl, inr, sub64, get_elem?-lt, eq-pos_of_nonneg,
  sub64-pos, add64-pos, ne-zero→false, le_trans_ℤ, pos_part_mono, pos_part-le,
}
use circuit.Faststats.SortedDurations.{Float64, absolute_index, interpolate, percentile, min, max}
use circuit.Faststats.SortedDurations.Bounds.{Sorted, Sorted-le, AllNonneg, AllNonneg-get, ends}

-- What IEEE 754 says of the operations: integers up to 2^53 are exact, conversion and rounding keep the
-- order, and a factor between 0 and 1 does not enlarge.
pub record IsFloat64 (f : Float64) : Type 0 where
  pub exact : (d : ℕ) → d ≤ 2 ^ 53 → f.to_int (f.of_int (pos d)) ≡ pos d
  pub of_int_mono : (d e : ℕ) → d ≤ e → f.le (f.of_int (pos d)) (f.of_int (pos e)) ≡ true
  pub to_int_mono : (x y : f.F) → f.le x y ≡ true → f.to_int x ≤ℤ f.to_int y
  pub percent :
      (p : f.F)
      → f.is_nan p ≡ false
      → f.le p (f.of_int (pos 0)) ≡ false
      → f.le (f.of_int (pos 100)) p ≡ false
      → (f.le (f.of_int (pos 0)) (f.div p (f.of_int (pos 100))) ≡ true)
        × (f.le (f.div p (f.of_int (pos 100))) (f.of_int (pos 1)) ≡ true)
  pub shrinks :
      (x : f.F) (d : ℕ)
      → f.le (f.of_int (pos 0)) x ≡ true
      → f.le x (f.of_int (pos 1)) ≡ true
      → (f.le (f.of_int (pos 0)) (f.mul (f.of_int (pos d)) x) ≡ true)
        × (f.le (f.mul (f.of_int (pos d)) x) (f.of_int (pos d)) ≡ true)
  pub mul_comm : (x y : f.F) → f.mul x y ≡ f.mul y x
  pub rounds :
      (x : f.F) (d : ℕ)
      → f.le (f.of_int (pos 0)) x ≡ true
      → f.le x (f.of_int (pos d)) ≡ true
      → (f.le (f.of_int (pos 0)) (f.floor x) ≡ true)
        × (f.le (f.floor x) (f.ceil x) ≡ true)
        × (f.le (f.ceil x) (f.of_int (pos d)) ≡ true)
        × (f.le (f.of_int (pos 0)) (f.sub x (f.floor x)) ≡ true)
        × (f.le (f.sub x (f.floor x)) (f.of_int (pos 1)) ≡ true)

-- The durations of the list differ by at most 2^53 nanoseconds, 104 days.
module _ (f : Float64) (v : IsFloat64 f) (s : List ℤ) where
  -- The two indices are in range, and the weight is a fraction.
  indices :
      (p : f.F)
      → 0 < length s
      → length s ≤ 2 ^ 53
      → f.is_nan p ≡ false
      → f.le p (f.of_int (pos 0)) ≡ false
      → f.le (f.of_int (pos 100)) p ≡ false
      → let a = absolute_index f p (length s) in
        (i : ℕ) × (j : ℕ) × (f.to_int (f.floor a) ≡ pos i)
        × (f.to_int (f.ceil a) ≡ pos j)
        × (i ≤ j)
        × (j ≤ length s - 1)
        × (f.le (f.of_int (pos 0)) (f.sub a (f.floor a)) ≡ true)
        × (f.le (f.sub a (f.floor a)) (f.of_int (pos 1)) ≡ true)
  indices p some_durations few nan low high =
      let n = length s - 1 in
      let a = absolute_index f p (length s) in
      let (over, under) = v.percent p nan low high in
      let same = v.mul_comm (f.div p (f.of_int (pos 100))) (f.of_int (pos n)) in
      let (from, to) = v.shrinks (f.div p (f.of_int (pos 100))) n over under in
      let (zero_le, floor_le, ceil_le, weight_low, weight_high) =
        v.rounds a n (rw same from) (rw same to) in
      let z = v.to_int_mono _ _ zero_le in
      let l = v.to_int_mono _ _ floor_le in
      let c = v.to_int_mono _ _ ceil_le in
      let e₀ = v.exact 0 (omega arith) in
      let eₙ = v.exact n (omega arith) in
      let i = pos_part (f.to_int (f.floor a)) in
      let j = pos_part (f.to_int (f.ceil a)) in
      let nonneg : pos 0 ≤ℤ f.to_int (f.floor a) = rw e₀ at z in
      let c' : f.to_int (f.ceil a) ≤ℤ pos n = rw eₙ at c in
      (
        i,
        j,
        eq-pos_of_nonneg _ nonneg,
        eq-pos_of_nonneg _ (omega (arith, nonneg, l)),
        pos_part_mono (f.to_int (f.floor a)) (f.to_int (f.ceil a)) l,
        pos_part-le (f.to_int (f.ceil a)) n c',
        weight_low,
        weight_high,
      )

  -- The part of a difference that the weight gives.
  weighted :
      (a b : ℕ) (weight : f.F)
      → a ≤ b
      → b ≤ 2 ^ 53
      → f.le (f.of_int (pos 0)) weight ≡ true
      → f.le weight (f.of_int (pos 1)) ≡ true
      → (t : ℕ) × (f.to_int (f.mul (f.of_int (sub64 (pos b) (pos a))) weight) ≡ pos t) × (t ≤ b - a)
  unfolding ◌-ℤ◌
  weighted a b weight h few low high =
      let diff : sub64 (pos b) (pos a) ≡ pos (b - a) =
        sub64-pos b a (omega arith) (omega arith) ∙ ground arith in
      let part = f.to_int (f.mul (f.of_int (pos (b - a))) weight) in
      let (from, to) = v.shrinks weight (b - a) low high in
      let above : pos 0 ≤ℤ part = rw (v.exact 0 (omega arith)) at (v.to_int_mono _ _ from) in
      let below : part ≤ℤ pos (b - a) =
        rw (v.exact (b - a) (omega arith)) at (v.to_int_mono _ _ to) in
      (pos_part part, rw diff (eq-pos_of_nonneg part above), pos_part-le part (b - a) below)

  interpolate_bounds :
      (a : f.F) (i j : ℕ) (x y : ℤ)
      → f.to_int (f.floor a) ≡ pos i
      → f.to_int (f.ceil a) ≡ pos j
      → get_elem? s i ≡ some x
      → get_elem? s j ≡ some y
      → pos 0 ≤ℤ x
      → x ≤ℤ y
      → y ≤ℤ pos (2 ^ 53)
      → f.le (f.of_int (pos 0)) (f.sub a (f.floor a)) ≡ true
      → f.le (f.sub a (f.floor a)) (f.of_int (pos 1)) ≡ true
      → (d : ℤ) × (interpolate f a s ≡ some d) × (x ≤ℤ d) × (d ≤ℤ y)
  unfolding interpolate
  interpolate_bounds a i j (pos x) (pos y) ei ej ex ey nonneg le few low high =
      let (t, part, small) =
        weighted x y (f.sub a (f.floor a)) (omega arith) (omega arith) low high in
      (
        pos (x + t),
        rw (ei, ej, ex, ey, part) (ap some (add64-pos x t (omega arith))),
        omega arith,
        omega arith,
      )
  interpolate_bounds a i j (pos x) (negsuc y) ei ej ex ey nonneg le few low high =
      absurd (omega arith)
  interpolate_bounds a i j (negsuc x) y ei ej ex ey nonneg le few low high = absurd (omega arith)

-- For a number p, a percentile of a sorted list of 1 to 2^53 durations, none negative and none above 2^53
-- nanoseconds (104 days), is a duration between the least and the greatest, and no index is out of range,
-- for any float64 that rounds as IEEE 754 says.
pub percentile_bounds :
    (f : Float64) (s : List ℤ) (p : f.F) (hi : ℤ)
    → IsFloat64 f
    → Sorted s
    → AllNonneg s
    → 0 < length s
    → length s ≤ 2 ^ 53
    → max s ≡ some hi
    → hi ≤ℤ pos (2 ^ 53)
    → f.is_nan p ≡ false
    → (lo : ℤ) × (d : ℤ) × (min s ≡ some lo) × (percentile f s p ≡ some d) × (lo ≤ℤ d) × (d ≤ℤ hi)
unfolding percentile
percentile_bounds f s p hi v h nonneg some_durations few top small nan =
    let (lo, hi', least, greatest, first, last) = ends s some_durations in
    let e : hi' ≡ hi = ground (arith, greatest, top) in
    let bottom_top = Sorted-le s 0 (length s - 1) lo hi' h (omega arith) first last in
    let full = ne-zero→false (length s) some_durations in
    elim (Bool-cases (length s == 1)) [
      | inl one ↦ (lo, lo, least, rw (full, nan, one) first, omega arith, rw e at bottom_top)
      | inr more ↦ elim (Bool-cases (f.le p (f.of_int (pos 0)))) [
        | inl low ↦
            (lo, lo, least, rw (full, nan, more, low) first, omega arith, rw e at bottom_top)
        | inr above ↦ elim (Bool-cases (f.le (f.of_int (pos 100)) p)) [
          | inl high ↦ (
            lo,
            hi',
            least,
            rw (full, nan, more, above, high) last,
            bottom_top,
            rw e (omega arith),
          )
          | inr below ↦
              let (i, j, ei, ej, le, in_range, wl, wh) =
                indices f v s p some_durations few nan above below in
              let (x, ex) = get_elem?-lt s i (omega (arith, le, in_range)) in
              let (y, ey) = get_elem?-lt s j (omega (arith, in_range)) in
              let y_hi = Sorted-le s j (length s - 1) y hi' h in_range ey last in
              let (d, run, xd, dy) =
                interpolate_bounds f v s (absolute_index f p (length s)) i j x y ei ej ex ey
                  (AllNonneg-get s i x nonneg ex) (Sorted-le s i j x y h le ex ey)
                  (le_trans_ℤ y hi (pos (2 ^ 53)) (rw e at y_hi) small) wl wh in
              (
                lo,
                d,
                least,
                rw (full, nan, more, above, below) run,
                le_trans_ℤ lo x d (Sorted-le s 0 i lo x h (omega arith) first ex) xd,
                le_trans_ℤ d y hi dy (rw e at y_hi),
              )
        ]
      ]
    ]
