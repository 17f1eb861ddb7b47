-- ===== src/Faststats/RollingPercentile/Calls.antt =====
-- faststats/rolling_percentile.go: any sequence of calls of a rolling percentile, against the window of
-- the samples.
use circuit.Prelude.{
  ℕ, ℤ, pos, List, [], ◌∷◌, Option, some, none, length, ◌+◌, ◌*◌, ◌^◌, ◌<◌, ◌≤◌, ◌≡◌, refl, arith,
  ◌>>=◌, IsInt64,
}
use circuit.Faststats.RollingCounter.History.{index?}
use circuit.Faststats.RollingCounter.Refinement.{IsUsable}
use circuit.Faststats.RollingPercentile.{
  RollingPercentile, new_rolling_percentile, add_duration_at, snapshot_at, reset,
}
use circuit.Faststats.RollingPercentile.History.{
  Samples, no_samples, moved, sampled, sorted_reports, length-live_samples, Represents,
}
use circuit.Faststats.RollingPercentile.Advancing.{new-Represents}
use circuit.Faststats.RollingPercentile.Refinement.{
  add_duration_at-Represents, snapshot_at-Represents, reset-Represents,
}

pub data Call : Type 0 where
  adds : ℤ → ℤ → Call
  snapshots resets : ℤ → Call

-- The snapshots that the calls return, and the percentile after them.
unfoldable pub answers : RollingPercentile → List Call → Option (List (List ℤ) × RollingPercentile)
answers r [] = some ([], r)
answers r (adds d now ∷ calls) = add_duration_at r d now >>= λ r'. answers r' calls
answers r (snapshots now ∷ calls) =
    snapshot_at r now >>= λ (ds, r'). answers r' calls >>= λ (rest, last). some (ds ∷ rest, last)
answers r (resets now ∷ calls) = reset r now >>= λ r'. answers r' calls

-- What the window of the samples promises.
unfoldable pub promises : ℕ → ℕ → ℕ → ℤ → Samples → List Call → List (List ℤ)
promises n w m start h [] = []
promises n w m start h (adds d now ∷ calls) =
    promises n w m start (sampled n d (index? start w now) h) calls
promises n w m start h (snapshots now ∷ calls) =
    let h' = moved n (index? start w now) h in sorted_reports n m h' ∷ promises n w m start h' calls
promises n w m start h (resets now ∷ calls) =
    promises n w m start (record (moved n (index? start w now) h) { samples = [] }) calls

-- Every duration is an int64, as the type of the source says.
abbrev pub AllDurations : List Call → Type 0
AllDurations [] = Unit {0}
AllDurations (adds d now ∷ calls) = IsInt64 d × AllDurations calls
AllDurations (snapshots now ∷ calls) = AllDurations calls
AllDurations (resets now ∷ calls) = AllDurations calls

length-moved :
    (n : ℕ) (a : Option ℕ) (h : Samples) → length (moved n a h).samples ≤ length h.samples
length-moved n none h = omega arith
length-moved n (some a) h = ground (arith, length-live_samples a n h.samples)

pub length-sampled :
    (n : ℕ) (d : ℤ) (a : Option ℕ) (h : Samples)
    → length (sampled n d a h).samples ≤ length h.samples + 1
length-sampled n d none h = omega arith
length-sampled n d (some a) h = ground (arith, length-live_samples a n h.samples)

module _ (n w m : ℕ) (start : ℤ) (slots : 0 < m) (fits : n * m < 2 ^ 63) where
  answers-promises :
      (h : Samples) (p : RollingPercentile) (calls : List Call)
      → Represents n w m start h p
      → AllDurations calls
      → length h.samples + length calls < 2 ^ 63
      → (p' : RollingPercentile) × (answers p calls ≡ some (promises n w m start h calls, p'))
  unfolding answers promises
  answers-promises h p [] v ints few = (p, refl)
  answers-promises h p (adds d now ∷ calls) v ints few =
      let a = index? start w now in
      let (p₁, run, v₁) =
        add_duration_at-Represents n w m start slots d now h p v ints.0 (omega arith) in
      let (p₂, run') =
        answers-promises (sampled n d a h) p₁ calls v₁ ints.1
          (omega (arith, length-sampled n d a h)) in
      (p₂, rw run run')
  answers-promises h p (snapshots now ∷ calls) v ints few =
      let a = index? start w now in
      let (p₁, run, v₁) = snapshot_at-Represents n w m start slots now h p v fits in
      let (p₂, run') =
        answers-promises (moved n a h) p₁ calls v₁ ints (omega (arith, length-moved n a h)) in
      (p₂, rw (run, run') refl)
  answers-promises h p (resets now ∷ calls) v ints few =
      let a = index? start w now in
      let (p₁, run, v₁) = reset-Represents n w m start slots now h p v in
      let (p₂, run') =
        answers-promises (record (moved n a h) { samples = [] }) p₁ calls v₁ ints (omega arith) in
      (p₂, rw run run')

-- From a new rolling percentile of n buckets, each of m slots and w nanoseconds, with usable settings,
-- any sequence of fewer than 2^63 calls runs without a panic, and each snapshot is the sorted list of
-- the durations that the sliding window promises: the latest m of each index that is in the window.
pub new_rolling_percentile-answers :
    (n w m : ℕ) (start : ℤ) (calls : List Call)
    → IsUsable n w
    → 0 < m
    → n * m < 2 ^ 63
    → AllDurations calls
    → length calls < 2 ^ 63
    → (p : RollingPercentile) × ((new_rolling_percentile (pos w) (pos n) (pos m) start >>= λ r.
          answers r calls)
        ≡ some (promises n w m start no_samples calls, p))
new_rolling_percentile-answers n w m start calls u slots fits ints few =
    let (r, run, v) = new-Represents n w m start u in
    let (p, run') =
      answers-promises n w m start slots fits no_samples r calls v ints (omega arith) in
    (p, rw run run')
