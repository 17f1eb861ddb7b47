-- ===== src/Faststats/RollingPercentile/History.antt =====
-- faststats/rolling_percentile.go: what a rolling percentile promises, with no buckets: a window that
-- slides over the samples, of which the latest of each absolute index are reported, sorted.
use Prim.Native.Nat.{min}
use circuit.Prelude.{
  ℕ, zero, suc, ℤ, leb, List, [], ◌∷◌, ◌++◌, map, Option, some, none, length, get_elem?, take,
  if◌then◌else◌, ◌+◌, ◌-◌, ◌%◌, ◌<◌, ◌≤◌, ◌≡◌, ◌==◌, arith,
}
use circuit.Sorting.{sort_by}
use circuit.Faststats.RollingBuckets.Window.{IsWindow}
use circuit.Faststats.DurationsBucket.{DurationsBucket}
use circuit.Faststats.RollingCounter.Slots.{hit, hit-leb, InWindow}
use circuit.Faststats.RollingPercentile.{RollingPercentile}
use circuit.Faststats.RollingPercentile.Held.{AllInt64, Holds, reported}

-- A duration and the absolute index of its time.
pub record Sample : Type 0 where
  pub index : ℕ
  pub duration : ℤ

pub record Samples : Type 0 where
  pub last : ℕ
  pub samples : List Sample

abbrev pub no_samples : Samples
no_samples = record { last = 0; samples = [] }

abbrev pub indices : List Sample → List ℕ
indices = map (λ s. s.index)

abbrev pub durations : List Sample → List ℤ
durations = map (λ s. s.duration)

-- The samples of a slot.
unfoldable pub slot_durations : ℕ → ℕ → List Sample → List ℤ
slot_durations n j [] = []
slot_durations n j (s ∷ ss) =
    let rest = slot_durations n j ss in if s.index % n == j then s.duration ∷ rest else rest

-- The samples that are still in the window when the last index is `a`.
unfoldable pub live_samples : ℕ → ℕ → List Sample → List Sample
live_samples a n [] = []
live_samples a n (s ∷ ss) =
    let rest = live_samples a n ss in if leb (s.index + n) a then rest else s ∷ rest

-- The window after a look at the clock, and after a duration at that time.
abbrev pub moved : ℕ → Option ℕ → Samples → Samples
moved n none h = h
moved n (some a) h =
    if leb a h.last then h else record { last = a; samples = live_samples a n h.samples }

abbrev pub sampled : ℕ → ℤ → Option ℕ → Samples → Samples
sampled n d none h = h
sampled n d (some a) h =
    let h' = moved n (some a) h in
    if leb (a + n) h.last
    then h'
    else record h' { samples = record { index = a; duration = d } ∷ h'.samples }

-- What the k slots from i on report: the latest m samples of each.
unfoldable pub reports : ℕ → ℕ → ℕ → ℕ → List Sample → List ℤ
reports zero i n m ss = []
reports (suc k) i n m ss = map reported (take m (slot_durations n i ss)) ++ reports k (suc i) n m ss

unfoldable pub sorted_reports : ℕ → ℕ → Samples → List ℤ
unfolding reports
sorted_reports n m h = sort_by (λ d. d) (reports n 0 n m h.samples)

-- The bucket at j holds these durations.
abbrev pub HoldsAt : ℕ → List DurationsBucket → ℕ → List ℤ → Type 0
HoldsAt m bs j ds = (b : DurationsBucket) × (get_elem? bs j ≡ some b) × Holds m ds b

pub record Represents (n w m : ℕ) (start : ℤ) (h : Samples) (r : RollingPercentile) : Type 0 where
  pub window : IsWindow n w h.last r.rolling_bucket
  pub started : r.rolling_bucket.start_time ≡ start
  pub sized : length r.buckets ≡ n
  pub inside : InWindow h.last n (indices h.samples)
  pub whole : AllInt64 (durations h.samples)
  pub held : (j : ℕ) → j < n → HoldsAt m r.buckets j (slot_durations n j h.samples)

-- When the window moves from `l` to `a`, the cleared slots lose all their samples, and the others none.
pub slot_durations-live_samples :
    (l a n j : ℕ) (ss : List Sample)
    → l < a
    → InWindow l n (indices ss)
    → slot_durations n j (live_samples a n ss)
      ≡ (if hit (min n (a - l)) (suc l) n j then [] else slot_durations n j ss)
unfolding slot_durations live_samples
slot_durations-live_samples l a n j [] h v = ground arith
slot_durations-live_samples l a n j (s ∷ ss) h v =
    ground (
      arith,
      hit-leb (min n (a - l)) (suc l) n s.index,
      slot_durations-live_samples l a n j ss h v.2,
    )

pub live_samples-InWindow :
    (l a n : ℕ) (ss : List Sample)
    → l < a
    → InWindow l n (indices ss)
    → InWindow a n (indices (live_samples a n ss))
unfolding live_samples
live_samples-InWindow l a n [] h v = tt
live_samples-InWindow l a n (s ∷ ss) h v = ground (arith, live_samples-InWindow l a n ss h v.2)

pub live_samples-AllInt64 :
    (a n : ℕ) (ss : List Sample)
    → AllInt64 (durations ss)
    → AllInt64 (durations (live_samples a n ss))
unfolding live_samples
live_samples-AllInt64 a n [] v = tt
live_samples-AllInt64 a n (s ∷ ss) v = ground (arith, live_samples-AllInt64 a n ss v.1)

pub slot_durations-AllInt64 :
    (n j : ℕ) (ss : List Sample) → AllInt64 (durations ss) → AllInt64 (slot_durations n j ss)
unfolding slot_durations
slot_durations-AllInt64 n j [] v = tt
slot_durations-AllInt64 n j (s ∷ ss) v = ground (arith, slot_durations-AllInt64 n j ss v.1)

pub length-live_samples : (a n : ℕ) (ss : List Sample) → length (live_samples a n ss) ≤ length ss
unfolding live_samples
length-live_samples a n [] = omega arith
length-live_samples a n (s ∷ ss) = ground (arith, length-live_samples a n ss)

pub length-slot_durations :
    (n j : ℕ) (ss : List Sample) → length (slot_durations n j ss) ≤ length ss
unfolding slot_durations
length-slot_durations n j [] = omega arith
length-slot_durations n j (s ∷ ss) = ground (arith, length-slot_durations n j ss)
