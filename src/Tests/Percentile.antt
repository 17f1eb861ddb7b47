-- ===== src/Tests/Percentile.antt =====
-- faststats/rolling_percentile.go: runs and instances.
use mathlib.Core.Path.{ap₂}
use circuit.Prelude.{
  ℕ, ℤ, pos, negsuc, pos_part, neg_part, true, false, List, [], ◌∷◌, some, ◌>>=◌, ◌≡◌, ◌≤ℤ◌, ◌*ℤ◌,
  ◌-ℤ◌, sub_ℕ, ◌+◌, ◌*◌, ◌/◌, ◌⊎◌, refl, arith, leb_ℤ, get_elem?, wrap64, time_sub, sub64, add64,
  div64, rem64, ◌+ℤ◌, inl, inr, IsInt64,
}
use circuit.Sorting.{sort_by}
use circuit.Faststats.RollingBuckets.{advance}
use circuit.Faststats.DurationsBucket.{
  size, add_duration, append_durations, clear, encode_duration, decode_duration,
  new_durations_bucket, append_from, unset_from,
}
use circuit.Faststats.RollingPercentile.{
  RollingPercentile, new_rolling_percentile, make_buckets, fill_buckets, make_bucket,
  advance_percentile, clear_bucket, add_duration_at, add_in, put_duration, snapshot_at, reset,
  clear_all, make_slice, total_size, gather,
}
use circuit.Faststats.RollingPercentile.History.{
  no_samples, sorted_reports, slot_durations, live_samples,
}
use circuit.Faststats.RollingPercentile.Calls.{
  Call, adds, snapshots, resets, answers, promises, new_rolling_percentile-answers,
}
use circuit.Faststats.SortedDurations.{Float64, mean, min, max, percentile}
use circuit.Faststats.SortedDurations.Bounds.{mean_bounds}
use circuit.Faststats.SortedDurations.Floats.{IsFloat64, percentile_bounds}

-- Two buckets of two slots and 10 ns from time 100.
abbrev calls : List Call
calls =
    adds (pos 30) (pos 101)
    ∷ adds (pos 10) (pos 102)
    ∷ adds (pos 20) (pos 103)
    ∷ snapshots (pos 104)
    ∷ adds (negsuc 4) (pos 115)
    ∷ snapshots (pos 116)
    ∷ snapshots (pos 121)
    ∷ resets (pos 122)
    ∷ snapshots (pos 123)
    ∷ []

-- The third duration overwrites the first, a negative one is 0, and the first bucket leaves at 120.
calls_promise :
    promises 2 10 2 (pos 100) no_samples calls
    ≡ (pos 10 ∷ pos 20 ∷ []) ∷ (pos 0 ∷ pos 10 ∷ pos 20 ∷ []) ∷ (pos 0 ∷ []) ∷ [] ∷ []
unfolding promises time_sub ◌-ℤ◌ sort_by sorted_reports slot_durations live_samples
calls_promise = refl

calls_run :
    (new_rolling_percentile (pos 10) (pos 2) (pos 2) (pos 100) >>= λ r.
    answers r calls >>= λ (snaps, last). some snaps)
    ≡ some (promises 2 10 2 (pos 100) no_samples calls)
unfolding answers promises time_sub ◌-ℤ◌ sort_by new_rolling_percentile make_buckets fill_buckets
    make_bucket advance advance_percentile clear_bucket add_duration_at add_in put_duration
    snapshot_at reset clear_all size add_duration append_durations clear encode_duration
    decode_duration new_durations_bucket wrap64 sub64 add64 div64 rem64 ◌+ℤ◌ make_slice total_size
    gather append_from unset_from sorted_reports slot_durations live_samples
calls_run = refl

int64 : (d : ℤ) → (negsuc 99 ≤ℤ d) × (d ≤ℤ pos 100) → IsInt64 d
int64 d h = record { low = omega (arith, h.0); high = omega (arith, h.1) }

new_rolling_percentile-answers_example :
    (p : RollingPercentile) × ((new_rolling_percentile (pos 10) (pos 2) (pos 2) (pos 100) >>= λ r.
    answers r calls)
      ≡ some (promises 2 10 2 (pos 100) no_samples calls, p))
new_rolling_percentile-answers_example =
    new_rolling_percentile-answers 2 10 2 (pos 100) calls (omega arith) (omega arith) (omega arith)
      (
        int64 (pos 30) (omega arith),
        (
          int64 (pos 10) (omega arith),
          (int64 (pos 20) (omega arith), (int64 (negsuc 4) (omega arith), tt)),
        ),
      )
      (omega arith)

abbrev three : List ℤ
three = pos 2 ∷ pos 3 ∷ pos 10 ∷ []

mean_bounds_example :
    (lo : ℤ) × (hi : ℤ) × (min three ≡ some lo)
    × (max three ≡ some hi)
    × (lo ≤ℤ mean three)
    × (mean three ≤ℤ hi)
    × ((i : ℕ) (d : ℤ) → get_elem? three i ≡ some d → (lo ≤ℤ d) × (d ≤ℤ hi))
mean_bounds_example = mean_bounds three (omega arith) (omega arith) (omega arith) (omega arith)

-- Whole numbers as a coarse arithmetic that meets the laws.
abbrev pub whole : Float64
whole = record {
  F = ℤ;
  is_nan = λ x. false;
  le = leb_ℤ;
  of_int = λ d. d;
  to_int = λ d. d;
  floor = λ x. x;
  ceil = λ x. x;
  sub = λ a b. a -ℤ b;
  mul = λ a b. a *ℤ b;
  div = λ a b. pos (pos_part a / pos_part b);
}

digit_cases : (x : ℤ) → leb_ℤ (pos 0) x ≡ true → leb_ℤ x (pos 1) ≡ true → x ≡ pos 0 ⊎ x ≡ pos 1
digit_cases (pos n) low high = ground arith
digit_cases (negsuc n) low high = absurd (ground arith)

whole_percent :
    (p : ℤ)
    → leb_ℤ p (pos 0) ≡ false
    → leb_ℤ (pos 100) p ≡ false
    → (leb_ℤ (pos 0) (pos (pos_part p / 100)) ≡ true)
      × (leb_ℤ (pos (pos_part p / 100)) (pos 1) ≡ true)
whole_percent p low high = let small : pos_part p / 100 ≡ 0 = ground arith in rw small (refl, refl)

whole_shrinks :
    (x : ℤ) (d : ℕ)
    → x ≡ pos 0 ⊎ x ≡ pos 1
    → (leb_ℤ (pos 0) (pos d *ℤ x) ≡ true) × (leb_ℤ (pos d *ℤ x) (pos d) ≡ true)
unfolding ◌*ℤ◌
whole_shrinks x d (inl e) = rw e (ground arith, ground arith)
whole_shrinks x d (inr e) = rw e (ground arith, ground arith)

whole_mul_comm : (x y : ℤ) → x *ℤ y ≡ y *ℤ x
unfolding ◌*ℤ◌
whole_mul_comm x y =
    ap₂ sub_ℕ {x = pos_part x * pos_part y + neg_part x * neg_part y} (grind arith) (grind arith)

pub whole-IsFloat64 : IsFloat64 whole
unfolding ◌-ℤ◌
whole-IsFloat64 = record {
  exact = λ d h. refl;
  of_int_mono = λ d e h. ground arith;
  to_int_mono = λ x y h. ground arith;
  percent = λ p nan low high. whole_percent p low high;
  shrinks = λ x d low high. whole_shrinks x d (digit_cases x low high);
  mul_comm = whole_mul_comm;
  rounds = λ x d low high. (low, ground arith, high, ground arith, ground arith);
}

percentile_bounds_example :
    (lo : ℤ) × (d : ℤ) × (min three ≡ some lo)
    × (percentile whole three (pos 40) ≡ some d)
    × (lo ≤ℤ d)
    × (d ≤ℤ pos 10)
unfolding max
percentile_bounds_example =
    percentile_bounds whole three (pos 40) (pos 10) whole-IsFloat64 (omega arith) (omega arith)
      (omega arith) (omega arith) refl (omega arith) refl
