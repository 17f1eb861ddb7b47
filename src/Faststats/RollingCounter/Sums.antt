-- ===== src/Faststats/RollingCounter/Sums.antt =====
-- faststats/rolling_counter.go: the sum over the buckets counts each event of the window once.
use native.Mathlib.Nat.{mod-lt}
use circuit.Prelude.{
  ℕ, zero, suc, ℤ, pos, leb, ltb, List, [], ◌∷◌, some, length, get_elem?, if◌then◌else◌, ◌+◌, ◌%◌,
  ◌<◌, ◌≡◌, ◌∙◌, sym, refl, ap, wrap64, ◌==◌, arith, wrap64-eq, add64-wrap64_pos, ◌&&◌,
}
use circuit.Faststats.RollingCounter.{sum_from}
use circuit.Faststats.RollingCounter.Slots.{slot_count}

-- f i + ... + f (i + k - 1).
sum_range : ℕ → ℕ → (ℕ → ℕ) → ℕ
sum_range zero i f = 0
sum_range (suc k) i f = f i + sum_range k (suc i) f

sum_from-range :
    (buckets : List ℤ) (i t : ℕ) (f : ℕ → ℕ)
    → ((j : ℕ) → j < length buckets → get_elem? buckets j ≡ some (wrap64 (pos (f (i + j)))))
    → sum_from (wrap64 (pos t)) buckets ≡ wrap64 (pos (t + sum_range (length buckets) i f))
unfolding sum_from sum_range
sum_from-range [] i t f h = ap (λ m. wrap64 (pos m)) (omega arith)
sum_from-range (v ∷ buckets) i t f h =
    let first : v ≡ wrap64 (pos (f i)) = ground (arith, h 0) in
    rw (first, add64-wrap64_pos t (f i))
      (sum_from-range buckets (suc i) (t + f i) f (λ j q. ground (arith, h (suc j)))
        ∙ ap (λ m. wrap64 (pos m)) (omega arith))

-- One more at `r` is one more in the sum, if `r` is in the range.
sum_range_bump :
    (k i r : ℕ) (f : ℕ → ℕ)
    → sum_range k i (λ j. if r == j then suc (f j) else f j)
      ≡ sum_range k i f + (if leb i r && ltb r (i + k) then 1 else 0)
unfolding sum_range
sum_range_bump zero i r f = ground arith
sum_range_bump (suc k) i r f = ground (arith, sum_range_bump k (suc i) r f)

sum_range_zero : (k i : ℕ) → sum_range k i (λ j. 0) ≡ 0
unfolding sum_range
sum_range_zero zero i = refl
sum_range_zero (suc k) i = omega (arith, sum_range_zero k (suc i))

sum_range-slot_count :
    (n : ℕ) (es : List ℕ) → 0 < n → sum_range n 0 (λ j. slot_count n j es) ≡ length es
unfolding slot_count
sum_range-slot_count n [] p = sum_range_zero n 0
sum_range-slot_count n (e ∷ es) p = ground (
  arith,
  sum_range_bump n 0 (e % n) (λ j. slot_count n j es),
  sum_range-slot_count n es p,
  mod-lt e p,
)

-- So the buckets of a window add up to the number of its events.
pub sum_from-length :
    (n : ℕ) (buckets : List ℤ) (es : List ℕ)
    → 0 < n
    → length buckets ≡ n
    → ((j : ℕ) → j < n → get_elem? buckets j ≡ some (wrap64 (pos (slot_count n j es))))
    → sum_from (pos 0) buckets ≡ wrap64 (pos (length es))
sum_from-length n buckets es p e h =
    ap (λ m. sum_from m buckets) (sym (wrap64-eq (pos 0) (omega arith)))
    ∙ sum_from-range buckets 0 0 (λ j. slot_count n j es) (λ j q. ground (arith, h j))
    ∙ ap (λ m. wrap64 (pos m)) (rw e (omega (arith, sum_range-slot_count n es p)))
