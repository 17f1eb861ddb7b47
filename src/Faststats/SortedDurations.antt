-- ===== src/Faststats/SortedDurations.antt =====
-- faststats/rolling_percentile.go: the statistics of a sorted list of durations. `none` is a panic of an
-- index. The float64 of the source is a parameter: its operations, with no law.
pub mod Bounds
pub mod Floats
use circuit.Prelude.{
  ℕ, suc, ℤ, pos, negsuc, Bool, List, [], ◌∷◌, Option, some, none, length, if◌then◌else◌, ◌==◌,
  ◌||◌, ◌-◌, read_at, ◌>>=◌, add64, sub64, div64,
}

-- `sum += d.Nanoseconds()` over the list.
unfoldable pub sum_durations : ℤ → List ℤ → ℤ
sum_durations sum [] = sum
sum_durations sum (d ∷ s) = sum_durations (add64 sum d) s

unfoldable pub mean : List ℤ → ℤ
unfolding sum_durations
mean s = if length s == 0 then negsuc 0 else div64 (sum_durations (pos 0) s) (pos (length s))

unfoldable pub min : List ℤ → Option ℤ
min s = if length s == 0 then some (negsuc 0) else read_at s (pos 0)

unfoldable pub max : List ℤ → Option ℤ
max s = if length s == 0 then some (negsuc 0) else read_at s (pos (length s - 1))

-- What the source uses of float64.
pub record Float64 : Type 1 where
  pub F : Type 0
  pub is_nan : F → Bool
  pub le : F → F → Bool
  pub of_int : ℤ → F
  pub to_int : F → ℤ
  pub floor : F → F
  pub ceil : F → F
  pub sub : F → F → F
  pub mul : F → F → F
  pub div : F → F → F

module _ (f : Float64) where
  open f use {F}

  -- `p / 100 * float64(len(s)-1)`.
  abbrev pub absolute_index : F → ℕ → F
  absolute_index p n = f.mul (f.div p (f.of_int (pos 100))) (f.of_int (pos (n - 1)))

  unfoldable pub interpolate : F → List ℤ → Option ℤ
  interpolate a s = read_at s (f.to_int (f.floor a)) >>= λ first_value.
      read_at s (f.to_int (f.ceil a)) >>= λ second_value.
      let first_weight = f.sub a (f.floor a) in
      some (
        add64 first_value
          (f.to_int (f.mul (f.of_int (sub64 second_value first_value)) first_weight)))

  unfoldable pub percentile : List ℤ → F → Option ℤ
  percentile s p =
      if length s == 0 || f.is_nan p
      then some (negsuc 0)
      else if length s == 1
      then read_at s (pos 0)
      else if f.le p (f.of_int (pos 0))
      then read_at s (pos 0)
      else if f.le (f.of_int (pos 100)) p
      then read_at s (pos (length s - 1))
      else interpolate (absolute_index p (length s)) s
