-- ===== src/Faststats/RollingBuckets/Window.antt =====
-- faststats/rolling_bucket.go: `Advance` on a window that its settings keep inside int64.
use Prim.Native.Nat.{min}
use circuit.Prelude.{
  ℕ, zero, suc, ℤ, pos, negsuc, pos_part, ltb_ℤ, leb_ℤ, true, false, Option, some, add64, time_sub,
  if◌then◌else◌, leb, ◌+◌, ◌-◌, ◌/◌, ◌%◌, ◌^◌, ◌≤◌, ◌<◌, ◌>>=◌, ◌≡◌, ap, ◌∙◌, fun_ext, add64-pos,
  sub64-pos, div_mono, time_sub-le, arith, Bool-cases, inl, inr, ◌-ℤ◌, pos_part-le, div64-nonneg,
  rem64-pos,
}
use circuit.Faststats.RollingBuckets.{RollingBuckets, clear_loop, advance_to, advance}

-- The settings and the index are `n` buckets of `w` nanoseconds and `l`, and no index overflows.
pub record IsWindow (n w l : ℕ) (r : RollingBuckets) : Type 0 where
  pub buckets : r.num_buckets ≡ pos n
  pub width : r.bucket_width ≡ pos w
  pub last : r.last_abs_index ≡ pos l
  pub some_buckets : 0 < n
  pub some_width : 0 < w
  pub reached : l ≤ (2 ^ 63 - 1) / w
  pub room : (2 ^ 63 - 1) / w + n < 2 ^ 63 - 1

-- The time since the start, and the absolute index of `now`.
abbrev pub elapsed : RollingBuckets → ℤ → ℤ
elapsed r now = time_sub now r.start_time

abbrev pub index_at : RollingBuckets → ℕ → ℤ → ℕ
index_at r w now = pos_part (elapsed r now) / w

pub index_at-le :
    (w : ℕ) (r : RollingBuckets) (now : ℤ) → 0 < w → index_at r w now ≤ (2 ^ 63 - 1) / w
index_at-le w r now p =
    div_mono (pos_part (elapsed r now)) (2 ^ 63 - 1) w
      (pos_part-le (elapsed r now) (2 ^ 63 - 1) (time_sub-le now r.start_time)) p

module _ {S : Type 0} (clear_bucket : ℤ → S → Option S) where
  -- Clears the buckets of `k` absolute indices from `i` on.
  unfoldable pub clears : ℕ → ℕ → ℕ → S → Option S
  clears zero i n s = some s
  clears (suc k) i n s = clear_bucket (pos (i % n)) s >>= λ s'. clears k (suc i) n s'

  clear_loop-clears :
      (rounds i a limit n : ℕ) (s : S)
      → i + rounds ≡ suc limit
      → limit < 2 ^ 63 - 1
      → clear_loop clear_bucket rounds (pos i) (pos a) (pos limit) (pos n) s
        ≡ clears (min rounds (suc a - i)) i n s
  unfolding clear_loop clears
  clear_loop-clears zero i a limit n s e h = ground arith
  clear_loop-clears (suc rounds) i a limit n s e h = elim (Bool-cases (leb i a)) [
    | inl more ↦
        let t : leb_ℤ (pos i) (pos a) ≡ true = ground arith in
        let u : leb_ℤ (pos i) (pos limit) ≡ true = ground arith in
        let next : add64 (pos i) (pos 1) ≡ pos (suc i) =
          add64-pos i 1 (omega arith) ∙ ap pos (omega arith) in
        let k : min (suc rounds) (suc a - i) ≡ suc (min rounds (suc a - suc i)) = ground arith in
        rw (t, u, k, next, rem64-pos i n)
          (ap (λ f. clear_bucket (pos (i % n)) s >>= f)
            (fun_ext (λ s'. clear_loop-clears rounds (suc i) a limit n s' (omega arith) h)))
    | inr done ↦
        let t : leb_ℤ (pos i) (pos a) ≡ false = ground arith in
        let k : min (suc rounds) (suc a - i) ≡ 0 = ground arith in rw (t, k)
  ]

  -- With the index known: the bucket if it is in the window, and else the buckets in between cleared.
  abbrev pub advanced : ℕ → ℕ → ℕ → RollingBuckets → S → Option (ℤ × RollingBuckets × S)
  advanced a n l r s =
      if leb a l
      then some (if leb (a + n) l then negsuc 0 else pos (a % n), r, s)
      else clears (min n (a - l)) (suc l) n s >>= λ s'.
          some (pos (a % n), record r { last_abs_index = pos a }, s')

  advance_to-advanced :
      (a n l : ℕ) (r : RollingBuckets) (s : S)
      → r.last_abs_index ≡ pos l
      → 0 < n
      → a < 2 ^ 63
      → l + n < 2 ^ 63 - 1
      → advance_to clear_bucket (pos a) (pos n) r s ≡ advanced a n l r s
  unfolding advance_to ◌-ℤ◌
  advance_to-advanced a n l r s e p q h = elim (Bool-cases (leb a l)) [
    | inl behind ↦ simp (e, behind, sub64-pos l a (omega arith) q, rem64-pos a n) (ground arith)
    | inr ahead ↦
        let rounds : min n (suc a - (l + 1)) ≡ min n (a - l) = omega arith in
        let next : l + 1 ≡ suc l = omega arith in
        let limit = add64-pos l n (omega arith) in
        let start = add64-pos l 1 (omega arith) in
        let loop = clear_loop-clears n (l + 1) a (l + n) n s (omega arith) (omega arith) in
        simp (e, ahead, sub64-pos l a (omega arith) q, rem64-pos a n, limit, start, next)
          (ground (arith, sub64-pos a a q q))
  ]

  -- `Advance` on a window: no bucket before the start, and else the index decides.
  pub advance-advanced :
      (n w l : ℕ) (r : RollingBuckets) (now : ℤ) (s : S)
      → IsWindow n w l r
      → advance clear_bucket now r s ≡ (
          if ltb_ℤ (elapsed r now) (pos 0)
          then some (negsuc 0, r, s)
          else advanced (index_at r w now) n l r s)
  unfolding advance
  advance-advanced n w l r now s v = elim (Bool-cases (ltb_ℤ (elapsed r now) (pos 0))) [
    | inl early ↦ rw (early, v.buckets, v.width) (ground arith)
    | inr late ↦
        let index = div64-nonneg (elapsed r now) w (ground arith) (time_sub-le now r.start_time) in
        let small = index_at-le w r now v.some_width in
        let step =
          advance_to-advanced (index_at r w now) n l r s v.last v.some_buckets (omega arith)
            (omega arith) in
        simp (v.buckets, v.width, index, late) (ground arith)
  ]
