-- ===== src/EventStream/Metric/Timings.antt =====
-- metriceventstream/metriceventstream.go: the timings of a snapshot lie between its ends.
use circuit.Prelude.{
  ℕ, ℤ, pos, negsuc, false, List, [], ◌∷◌, some, length, get_elem?, ◌-◌, ◌^◌, ◌<◌, ◌≤◌, ◌≡◌, ◌≤ℤ◌,
  refl, arith, div64-pos, div64, wrap64,
}
use circuit.Faststats.SortedDurations.{Float64, percentile, min, max}
use circuit.Faststats.SortedDurations.Bounds.{Sorted, AllNonneg, AllNonneg-get, ends}
use circuit.Faststats.SortedDurations.Floats.{IsFloat64, percentile_bounds}
use circuit.EventStream.Metric.{StreamCmdLatency, millis, timing, generate_latency_timings}

-- The percentiles that are asked for are numbers.
pub record HasPercentiles (f : Float64) : Type 0 where
  pub numbers : (d : ℕ) → f.is_nan (f.of_int (pos d)) ≡ false
  pub halves : f.is_nan (f.div (f.of_int (pos 199)) (f.of_int (pos 2))) ≡ false

-- A sorted snapshot of at most 2^53 durations, none negative and none above 2^53 nanoseconds.
pub record IsSnapshot (s : List ℤ) : Type 0 where
  pub sorted : Sorted s
  pub nonneg : AllNonneg s
  pub few : length s ≤ 2 ^ 53
  pub small : (i : ℕ) (d : ℤ) → get_elem? s i ≡ some d → d ≤ℤ pos (2 ^ 53)

abbrev pub Between : ℤ → ℤ → ℤ → Type 0
Between lo hi x = (lo ≤ℤ x) × (x ≤ℤ hi)

pub record InRange (lo hi : ℤ) (t : StreamCmdLatency) : Type 0 where
  pub timing0 : Between lo hi t.timing0
  pub timing25 : Between lo hi t.timing25
  pub timing50 : Between lo hi t.timing50
  pub timing75 : Between lo hi t.timing75
  pub timing90 : Between lo hi t.timing90
  pub timing95 : Between lo hi t.timing95
  pub timing99 : Between lo hi t.timing99
  pub timing995 : Between lo hi t.timing995
  pub timing100 : Between lo hi t.timing100

millis_mono : (a b : ℤ) → pos 0 ≤ℤ a → a ≤ℤ b → b ≤ℤ pos (2 ^ 53) → millis a ≤ℤ millis b
millis_mono (pos a) (pos b) h le small =
    rw (div64-pos a 1_000_000 (omega arith), div64-pos b 1_000_000 (omega arith)) (omega arith)
millis_mono (pos a) (negsuc b) h le small = absurd (omega arith)
millis_mono (negsuc a) b h le small = absurd (omega arith)

module _ (f : Float64) (v : IsFloat64 f) (s : List ℤ) (h : IsSnapshot s) where
  timing-Between :
      (lo hi : ℤ) (p : f.F)
      → 0 < length s
      → min s ≡ some lo
      → max s ≡ some hi
      → f.is_nan p ≡ false
      → (x : ℤ) × (timing f s p ≡ some x) × Between (millis lo) (millis hi) x
  timing-Between lo hi p some_durations least greatest nan =
      let (lo₀, hi₀, bottom, top, first, last) = ends s some_durations in
      let same : hi₀ ≡ hi = ground (arith, top, greatest) in
      let small : hi ≤ℤ pos (2 ^ 53) = ground (arith, same, h.small (length s - 1) hi₀ last) in
      let (lo₁, d, least₁, run, low, high) =
        percentile_bounds f s p hi v h.sorted h.nonneg some_durations h.few greatest small nan in
      let same₁ : lo₁ ≡ lo = ground (arith, least₁, least) in
      let same₀ : lo₀ ≡ lo = ground (arith, bottom, least) in
      let positive : pos 0 ≤ℤ lo = ground (arith, same₀, AllNonneg-get s 0 lo₀ h.nonneg first) in
      let over : lo ≤ℤ d = ground (arith, same₁, low) in
      (
        millis d,
        rw run refl,
        (
          millis_mono lo d positive over (omega (arith, high, small)),
          millis_mono d hi (omega (arith, positive, over)) high small,
        ),
      )

-- What the timings promise.
abbrev Timed : Float64 → List ℤ → Type 0
Timed f s =
    (lo : ℤ) × (hi : ℤ) × (t : StreamCmdLatency) × (min s ≡ some lo)
    × (max s ≡ some hi)
    × (generate_latency_timings f s ≡ some t)
    × InRange (millis lo) (millis hi) t

timings-empty : (f : Float64) → Timed f []
unfolding generate_latency_timings min max percentile div64 wrap64
timings-empty f = (
  negsuc 0,
  negsuc 0,
  _,
  refl,
  refl,
  refl,
  record {
    timing0 = omega arith;
    timing25 = omega arith;
    timing50 = omega arith;
    timing75 = omega arith;
    timing90 = omega arith;
    timing95 = omega arith;
    timing99 = omega arith;
    timing995 = omega arith;
    timing100 = omega arith;
  },
)

-- The nine timings exist and lie between the least and the greatest duration of the snapshot, in
-- milliseconds; those of no durations are all zero.
pub generate_latency_timings-InRange :
    (f : Float64) (s : List ℤ)
    → IsFloat64 f
    → HasPercentiles f
    → IsSnapshot s
    → (lo : ℤ) × (hi : ℤ) × (t : StreamCmdLatency) × (min s ≡ some lo)
      × (max s ≡ some hi)
      × (generate_latency_timings f s ≡ some t)
      × InRange (millis lo) (millis hi) t
unfolding generate_latency_timings
generate_latency_timings-InRange f [] v num h = timings-empty f
generate_latency_timings-InRange f (x ∷ s) v num h =
    let (lo, hi, least, greatest, _, _) = ends (x ∷ s) (omega arith) in
    let at = λ (p : f.F) (nan : f.is_nan p ≡ false).
      timing-Between f v (x ∷ s) h lo hi p (omega arith) least greatest nan in
    let (_, e₀, b₀) = at (f.of_int (pos 0)) (num.numbers 0) in
    let (_, e₁, b₁) = at (f.of_int (pos 25)) (num.numbers 25) in
    let (_, e₂, b₂) = at (f.of_int (pos 50)) (num.numbers 50) in
    let (_, e₃, b₃) = at (f.of_int (pos 75)) (num.numbers 75) in
    let (_, e₄, b₄) = at (f.of_int (pos 90)) (num.numbers 90) in
    let (_, e₅, b₅) = at (f.of_int (pos 95)) (num.numbers 95) in
    let (_, e₆, b₆) = at (f.of_int (pos 99)) (num.numbers 99) in
    let (_, e₇, b₇) = at (f.div (f.of_int (pos 199)) (f.of_int (pos 2))) num.halves in
    let (_, e₈, b₈) = at (f.of_int (pos 100)) (num.numbers 100) in
    (
      lo,
      hi,
      _,
      least,
      greatest,
      rw (e₀, e₁, e₂, e₃, e₄, e₅, e₆, e₇, e₈) refl,
      record {
        timing0 = b₀;
        timing25 = b₁;
        timing50 = b₂;
        timing75 = b₃;
        timing90 = b₄;
        timing95 = b₅;
        timing99 = b₆;
        timing995 = b₇;
        timing100 = b₈;
      },
    )
