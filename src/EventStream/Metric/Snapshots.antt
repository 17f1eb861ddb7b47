-- ===== src/EventStream/Metric/Snapshots.antt =====
-- metriceventstream/metriceventstream.go: the snapshot of the latencies is sorted, and never negative.
use circuit.Prelude.{
  ℕ, zero, suc, ℤ, pos, List, [], ◌∷◌, ◌++◌, map, take, length, get_elem?, some, ◌^◌, ◌≤◌, ◌≡◌,
  ◌≤ℤ◌, arith,
}
use circuit.Sorting.{insert_by, sort_by}
use circuit.Sorting.Laws.{sort_by-IsSorted}
use circuit.Faststats.SortedDurations.Bounds.{AllNonneg}
use circuit.Faststats.RollingPercentile.History.{
  Samples, Sample, reports, sorted_reports, slot_durations,
}
use circuit.Faststats.RollingPercentile.Held.{reported}
use circuit.EventStream.Metric.Timings.{IsSnapshot}

insert_by-AllNonneg :
    (x : ℤ) (xs : List ℤ) → pos 0 ≤ℤ x → AllNonneg xs → AllNonneg (insert_by (λ d. d) x xs)
unfolding insert_by
insert_by-AllNonneg x [] p h = (p, tt)
insert_by-AllNonneg x (y ∷ ys) p h = ground (arith, insert_by-AllNonneg x ys p h.1)

sort_by-AllNonneg : (xs : List ℤ) → AllNonneg xs → AllNonneg (sort_by (λ d. d) xs)
unfolding sort_by
sort_by-AllNonneg [] h = tt
sort_by-AllNonneg (x ∷ xs) h =
    insert_by-AllNonneg x (sort_by (λ d. d) xs) h.0 (sort_by-AllNonneg xs h.1)

reported-AllNonneg : (m : ℕ) (ds : List ℤ) → AllNonneg (map reported (take m ds))
reported-AllNonneg zero ds = tt
reported-AllNonneg (suc m) [] = tt
reported-AllNonneg (suc m) (d ∷ ds) = (ground arith, reported-AllNonneg m ds)

append-AllNonneg : (xs ys : List ℤ) → AllNonneg xs → AllNonneg ys → AllNonneg (xs ++ ys)
append-AllNonneg [] ys h k = k
append-AllNonneg (x ∷ xs) ys h k = (h.0, append-AllNonneg xs ys h.1 k)

reports-AllNonneg : (k i n m : ℕ) (ss : List Sample) → AllNonneg (reports k i n m ss)
unfolding reports
reports-AllNonneg zero i n m ss = tt
reports-AllNonneg (suc k) i n m ss =
    append-AllNonneg (map reported (take m (slot_durations n i ss))) (reports k (suc i) n m ss)
      (reported-AllNonneg m (slot_durations n i ss)) (reports-AllNonneg k (suc i) n m ss)

-- Only its length and its greatest duration are in question.
pub sorted_reports-IsSnapshot :
    (k m : ℕ) (h : Samples)
    → length (sorted_reports k m h) ≤ 2 ^ 53
    → ((i : ℕ) (d : ℤ) → get_elem? (sorted_reports k m h) i ≡ some d → d ≤ℤ pos (2 ^ 53))
    → IsSnapshot (sorted_reports k m h)
unfolding sorted_reports
sorted_reports-IsSnapshot k m h few small = record {
  sorted = sort_by-IsSorted (λ d. d) (reports k 0 k m h.samples);
  nonneg = sort_by-AllNonneg (reports k 0 k m h.samples) (reports-AllNonneg k 0 k m h.samples);
  few = few;
  small = small;
}
