-- ===== src/Faststats/RollingPercentile/Gathering.antt =====
-- faststats/rolling_percentile.go: the snapshot collects what the buckets hold.
use mathlib.Core.List.{Perm, append-nil, append_assoc}
use mathlib.Core.List.Perm
use circuit.Prelude.{
  ℕ, suc, ℤ, pos, List, [], ◌∷◌, ◌++◌, some, length, ◌+◌, ◌*◌, ◌^◌, ◌<◌, ◌≡◌, refl, sym, ap, subst,
  ◌∙◌, arith, add64-pos,
}
use circuit.Faststats.DurationsBucket.{DurationsBucket}
use circuit.Faststats.RollingPercentile.{gather, total_size}
use circuit.Faststats.RollingPercentile.Held.{AllInt64, Holds, append_durations-Holds, size-Holds}
use circuit.Faststats.RollingPercentile.History.{
  Sample, durations, slot_durations, slot_durations-AllInt64, reports, HoldsAt,
}

-- The buckets from i on hold the samples of their slots.
abbrev HoldFrom : ℕ → ℕ → ℕ → List Sample → List DurationsBucket → Type 0
HoldFrom i n m ss bs = (j : ℕ) → j < length bs → HoldsAt m bs j (slot_durations n (i + j) ss)

first :
    (i n m : ℕ) (ss : List Sample) (b : DurationsBucket) (bs : List DurationsBucket)
    → HoldFrom i n m ss (b ∷ bs)
    → Holds m (slot_durations n i ss) b
first i n m ss b bs held =
    let (c, at, v) = held 0 (omega arith) in
    let same : c ≡ b = ground (arith, at) in
    subst (Holds m (slot_durations n i ss)) same
      (subst (λ x. Holds m (slot_durations n x ss) c) (omega arith) v)

rest :
    (i n m : ℕ) (ss : List Sample) (b : DurationsBucket) (bs : List DurationsBucket)
    → HoldFrom i n m ss (b ∷ bs)
    → HoldFrom (suc i) n m ss bs
rest i n m ss b bs held j q =
    subst (λ x. HoldsAt m bs j (slot_durations n x ss)) (omega arith) (held (suc j) (omega arith))

-- All that is gathered is what the slots report, in some order.
pub gather-reports :
    (i n m : ℕ) (ss : List Sample) (bs : List DurationsBucket)
    → AllInt64 (durations ss)
    → HoldFrom i n m ss bs
    → (l : List ℤ) × ((ret : List ℤ) → gather ret bs ≡ some (ret ++ l))
      × Perm l (reports (length bs) i n m ss)
unfolding gather reports
gather-reports i n m ss [] a held = ([], λ ret. ap some (sym (append-nil ret)), Perm.nil)
gather-reports i n m ss (b ∷ bs) a held =
    let (here, run, p) =
      append_durations-Holds m (slot_durations n i ss) b (first i n m ss b bs held)
        (slot_durations-AllInt64 n i ss a) in
    let (there, run', p') = gather-reports (suc i) n m ss bs a (rest i n m ss b bs held) in
    (
      here ++ there,
      λ ret. rw (run ret) (run' (ret ++ here) ∙ ap some (append_assoc ret here there)),
      Perm.append p p',
    )

-- The capacity that is asked for is not negative, if the slots of all buckets can be counted.
pub total_size-nonneg :
    (i n m acc : ℕ) (ss : List Sample) (bs : List DurationsBucket)
    → acc + length bs * m < 2 ^ 63
    → HoldFrom i n m ss bs
    → (k : ℕ) × (total_size (pos acc) bs ≡ pos k)
unfolding total_size
total_size-nonneg i n m acc ss [] room held = (acc, refl)
total_size-nonneg i n m acc ss (b ∷ bs) room held =
    let (k, e, le) = size-Holds m (slot_durations n i ss) b (first i n m ss b bs held) in
    let room' : acc + k + length bs * m < 2 ^ 63 = grind arith in
    rw (e, add64-pos acc k (omega arith))
      (total_size-nonneg (suc i) n m (acc + k) ss bs room' (rest i n m ss b bs held))
