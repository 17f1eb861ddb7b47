-- ===== src/Prelude/Int64.antt =====
-- Go's int64 as the integer that it stands for: every sum is reduced into [-2^63, 2^63).
-- A `time.Duration` is such an int64 of nanoseconds. A `time.Time` is the integer of nanoseconds
-- since the zero Time, and `Time.Sub` saturates at the two ends of int64.
use Prim.Native.Nat.{ℕ, suc, ◌+◌, ◌-◌, ◌/◌, ◌%◌, ◌^◌, ◌≤◌, ◌<◌}
use mathlib.Core.Path.{◌≡◌, ◌∙◌, ap}
use mathlib.Core.Bool.{Bool, true, false}
use native.Mathlib.Omega.{arith}
use native.Mathlib.Nat.{add-zero, div-le_self, le-div_iff_mul-le, div-mul-le_self}
use circuit.Prelude.Tests.{ltb, if◌then◌else◌}
use circuit.Prelude.Int.{
  ℤ, pos, negsuc, pos_part, neg_part, sub_ℕ, ◌+ℤ◌, ◌-ℤ◌, ◌*ℤ◌, ◌≤ℤ◌, ltb_ℤ, eqb_ℤ, +ℤ_comm,
}

-- The residue modulo 2^64, and the int64 of a residue.
unfoldable pub residue : ℤ → ℕ
residue (pos n) = n % 2 ^ 64
residue (negsuc n) = 2 ^ 64 - 1 - n % 2 ^ 64

unfoldable pub signed64 : ℕ → ℤ
signed64 w = if ltb w (2 ^ 63) then pos w else negsuc (2 ^ 64 - 1 - w)

unfoldable pub wrap64 : ℤ → ℤ
unfolding residue signed64
wrap64 z = signed64 (residue z)

unfoldable pub add64 : ℤ → ℤ → ℤ
add64 a b = wrap64 (a +ℤ b)

unfoldable pub sub64 : ℤ → ℤ → ℤ
sub64 a b = wrap64 (a -ℤ b)

unfoldable pub mul64 : ℤ → ℤ → ℤ
mul64 a b = wrap64 (a *ℤ b)

abbrev pub max_int64 : ℤ
max_int64 = pos (2 ^ 63 - 1)

abbrev pub min_int64 : ℤ
min_int64 = negsuc (2 ^ 63 - 1)

pub record IsInt64 (a : ℤ) : Type 0 where
  pub low : min_int64 ≤ℤ a
  pub high : a ≤ℤ max_int64

pub wrap64-eq : (a : ℤ) → IsInt64 a → wrap64 a ≡ a
unfolding wrap64
wrap64-eq a h = ground arith

pub wrap64-IsInt64 : (a : ℤ) → IsInt64 (wrap64 a)
unfolding wrap64
wrap64-IsInt64 a = ground arith

-- The sum of residues.
residue-+ℤ : (a b : ℤ) → residue (a +ℤ b) ≡ (residue a + residue b) % 2 ^ 64
unfolding residue ◌+ℤ◌
residue-+ℤ a b = ground arith

residue-wrap64 : (a : ℤ) → residue (wrap64 a) ≡ residue a
unfolding wrap64
residue-wrap64 a = ground arith

wrap64_of_residue : (a b : ℤ) → residue a ≡ residue b → wrap64 a ≡ wrap64 b
unfolding wrap64
wrap64_of_residue a b e = cc

pub add64-wrap64 : (a b : ℤ) → add64 (wrap64 a) b ≡ wrap64 (a +ℤ b)
unfolding add64
add64-wrap64 a b =
    wrap64_of_residue (wrap64 a +ℤ b) (a +ℤ b)
      (cc (residue-+ℤ (wrap64 a) b, residue-+ℤ a b, residue-wrap64 a))

pub add64-wrap64_right : (a b : ℤ) → add64 a (wrap64 b) ≡ wrap64 (a +ℤ b)
unfolding add64
add64-wrap64_right a b = rw (+ℤ_comm a (wrap64 b), add64-wrap64 b a, +ℤ_comm b a)

-- A result that fits is exact.
pub add64-eq : (a b : ℤ) → IsInt64 (a +ℤ b) → add64 a b ≡ a +ℤ b
unfolding add64
add64-eq a b h = wrap64-eq (a +ℤ b) h

pub sub64-eq : (a b : ℤ) → IsInt64 (a -ℤ b) → sub64 a b ≡ a -ℤ b
unfolding sub64
sub64-eq a b h = wrap64-eq (a -ℤ b) h

-- `Time.Sub`: the difference, held between the least and the greatest Duration.
unfoldable pub time_sub : ℤ → ℤ → ℤ
time_sub t u =
    let d = t -ℤ u in
    if ltb_ℤ max_int64 d then max_int64 else if ltb_ℤ d min_int64 then min_int64 else d

-- `Time.Add`, `Time.Before` and `Time.After`.
unfoldable pub time_add : ℤ → ℤ → ℤ
time_add t d = t +ℤ d

abbrev pub before : ℤ → ℤ → Bool
before t u = ltb_ℤ t u

abbrev pub after : ℤ → ℤ → Bool
after t u = ltb_ℤ u t

-- The zero Time, and `IsZero`.
abbrev pub zero_time : ℤ
zero_time = pos 0

abbrev pub is_zero : ℤ → Bool
is_zero t = eqb_ℤ t zero_time

-- Go's `/` and `%` round towards zero; the divisor is not 0 wherever the source divides.
abbrev pub magnitude : ℤ → ℕ
magnitude a = pos_part a + neg_part a

abbrev pub is_negative : ℤ → Bool
is_negative (pos n) = false
is_negative (negsuc n) = true

abbrev pub opposite_signs : ℤ → ℤ → Bool
opposite_signs (pos n) b = is_negative b
opposite_signs (negsuc n) b = if is_negative b then false else true

unfoldable pub div64 : ℤ → ℤ → ℤ
div64 a b =
    let q = magnitude a / magnitude b in wrap64 (if opposite_signs a b then sub_ℕ 0 q else pos q)

unfoldable pub rem64 : ℤ → ℤ → ℤ
rem64 a b = let r = magnitude a % magnitude b in if is_negative a then sub_ℕ 0 r else pos r

pub div64-pos : (a b : ℕ) → a < 2 ^ 63 → div64 (pos a) (pos b) ≡ pos (a / b)
unfolding div64
div64-pos a b h =
    rw (add-zero a, add-zero b) (wrap64-eq (pos (a / b)) (omega (arith, div-le_self a b)))

pub rem64-pos : (a b : ℕ) → rem64 (pos a) (pos b) ≡ pos (a % b)
unfolding rem64
rem64-pos a b = rw (add-zero a, add-zero b)

pub add64-pos : (a b : ℕ) → a + b < 2 ^ 63 → add64 (pos a) (pos b) ≡ pos (a + b)
unfolding ◌+ℤ◌
add64-pos a b h = ground (arith, add64-eq (pos a) (pos b))

pub sub64-pos : (a b : ℕ) → a < 2 ^ 63 → b < 2 ^ 63 → sub64 (pos a) (pos b) ≡ pos a -ℤ pos b
unfolding ◌-ℤ◌
sub64-pos a b h h' = ground (arith, sub64-eq (pos a) (pos b))

pub time_sub-le : (t u : ℤ) → time_sub t u ≤ℤ max_int64
unfolding time_sub
time_sub-le t u = ground arith

pub div_mono : (a b w : ℕ) → a ≤ b → 0 < w → a / w ≤ b / w
div_mono a b w h p = (le-div_iff_mul-le p).1 (grind (arith, div-mul-le_self a w))

pub div64-nonneg :
    (d : ℤ) (w : ℕ) → pos 0 ≤ℤ d → d ≤ℤ max_int64 → div64 d (pos w) ≡ pos (pos_part d / w)
div64-nonneg (pos a) w h k = div64-pos a w (omega arith)
div64-nonneg (negsuc a) w h k = absurd (omega arith)

-- Wrapped counts add up to the wrapped sum.
pub add64-wrap64_pos : (a b : ℕ) → add64 (wrap64 (pos a)) (wrap64 (pos b)) ≡ wrap64 (pos (a + b))
unfolding add64 ◌+ℤ◌
add64-wrap64_pos a b =
    add64-wrap64 (pos a) (wrap64 (pos b))
    ∙ add64-wrap64_right (pos a) (pos b)
    ∙ ap wrap64 (ground arith)

pub wrap64-suc : (a : ℕ) → add64 (wrap64 (pos a)) (pos 1) ≡ wrap64 (pos (suc a))
unfolding ◌+ℤ◌
wrap64-suc a = add64-wrap64 (pos a) (pos 1) ∙ ap wrap64 (ground arith)

-- Adding 1 and taking it off again.
pub add64-cancel : (a : ℤ) → IsInt64 a → add64 (add64 a (pos 1)) (negsuc 0) ≡ a
unfolding add64 ◌+ℤ◌
add64-cancel a h = add64-wrap64 (a +ℤ pos 1) (negsuc 0) ∙ ap wrap64 (ground arith) ∙ wrap64-eq a h
