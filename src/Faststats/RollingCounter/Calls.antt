-- ===== src/Faststats/RollingCounter/Calls.antt =====
-- faststats/rolling_counter.go: any sequence of calls of a counter, against the sliding window.
use circuit.Prelude.{
  ℕ, zero, suc, ℤ, pos, List, [], ◌∷◌, Option, some, length, get_elem?, ◌+◌, ◌^◌, ◌<◌, ◌≡◌, ◌∙◌,
  refl, ap, sym, wrap64, arith, ◌>>=◌, list_ext,
}
use circuit.Faststats.RollingCounter.{
  RollingCounter, new_rolling_counter, inc, rolling_sum_at, get_buckets, reset, get_total_sum,
}
use circuit.Faststats.RollingCounter.History.{
  History, no_events, index?, moved, recorded, age_count, Represents,
}
use circuit.Faststats.RollingCounter.Refinement.{
  IsUsable, new-Represents, inc-Represents, rolling_sum_at-Represents, reset-Represents,
}
use circuit.Faststats.RollingCounter.Ages.{get_buckets-Represents}

pub data Call : Type 0 where
  incs sums resets snapshots : ℤ → Call
  totals : Call

pub data Answer : Type 0 where
  done : Answer
  number : ℤ → Answer
  numbers : List ℤ → Answer

-- What a call of the counter answers, and the counter after it.
unfoldable pub answer : RollingCounter → Call → Option (Answer × RollingCounter)
answer c (incs now) = inc c now >>= λ c'. some (done, c')
answer c (sums now) = rolling_sum_at c now >>= λ (sum, c'). some (number sum, c')
answer c (resets now) = reset c now >>= λ c'. some (done, c')
answer c (snapshots now) = get_buckets c now >>= λ (vs, c'). some (numbers vs, c')
answer c totals = some (number (get_total_sum c), c)

unfoldable pub answers : RollingCounter → List Call → Option (List Answer)
unfolding answer
answers c [] = some []
answers c (call ∷ calls) = answer c call >>= λ (a, c'). answers c' calls >>= λ rest. some (a ∷ rest)

-- The events of the ages from `age` on.
unfoldable pub ages : ℕ → ℕ → ℕ → List ℕ → List ℤ
ages zero age l es = []
ages (suc k) age l es = wrap64 (pos (age_count l age es)) ∷ ages k (suc age) l es

-- What the sliding window answers.
unfoldable pub promised : ℕ → ℕ → ℤ → History → Call → Answer × History
promised n w start h (incs now) = (done, recorded n (index? start w now) h)
promised n w start h (sums now) =
    let h' = moved n (index? start w now) h in (number (wrap64 (pos (length h'.events))), h')
promised n w start h (resets now) = (done, record (moved n (index? start w now) h) { events = [] })
promised n w start h (snapshots now) =
    let h' = moved n (index? start w now) h in (numbers (ages n 0 h'.last h'.events), h')
promised n w start h totals = (number (wrap64 (pos h.total)), h)

unfoldable pub promises : ℕ → ℕ → ℤ → History → List Call → List Answer
unfolding promised
promises n w start h [] = []
promises n w start h (call ∷ calls) =
    let (a, h') = promised n w start h call in a ∷ promises n w start h' calls

length-ages : (k age l : ℕ) (es : List ℕ) → length (ages k age l es) ≡ k
unfolding ages
length-ages zero age l es = refl
length-ages (suc k) age l es = ap suc (length-ages k (suc age) l es)

get_elem?-ages :
    (k age l j : ℕ) (es : List ℕ)
    → j < k
    → get_elem? (ages k age l es) j ≡ some (wrap64 (pos (age_count l (age + j) es)))
unfolding ages
get_elem?-ages zero age l j es h = elim h [ ]
get_elem?-ages (suc k) age l zero es h =
    ap (λ m. some (wrap64 (pos (age_count l m es)))) (omega arith)
get_elem?-ages (suc k) age l (suc j) es h =
    get_elem?-ages k (suc age) l j es (omega arith)
    ∙ ap (λ m. some (wrap64 (pos (age_count l m es)))) {x = suc age + j} (omega arith)

module _ (n w : ℕ) (start : ℤ) (b : n < 2 ^ 62) where
  answer-promised :
      (h : History) (c : RollingCounter) (call : Call)
      → Represents n w start h c
      → let (a, h') = promised n w start h call in
        (c' : RollingCounter) × (answer c call ≡ some (a, c')) × Represents n w start h' c'
  unfolding answer promised get_total_sum
  answer-promised h c (incs now) v =
      let (c', run, v') = inc-Represents n w start h c now v in (c', rw run, v')
  answer-promised h c (sums now) v =
      let (c', run, v') = rolling_sum_at-Represents n w start h c now v in (c', rw run, v')
  answer-promised h c (resets now) v =
      let (c', run, v') = reset-Represents n w start h c now v in (c', rw run, v')
  answer-promised h c (snapshots now) v =
      let h' = moved n (index? start w now) h in
      let (vs, c', run, size, slots, v') = get_buckets-Represents n w start h c now v b in
      let same : vs ≡ ages n 0 h'.last h'.events =
        list_ext vs _ (size ∙ sym (length-ages n 0 h'.last h'.events)) (λ age q.
          slots age (rw size at q)
          ∙ ap (λ m. some (wrap64 (pos (age_count h'.last m h'.events)))) {y = 0 + age}
              (omega arith)
          ∙ sym (get_elem?-ages n 0 h'.last age h'.events (rw size at q))) in
      (c', rw run (ap (λ xs. some (numbers xs, c')) same), v')
  answer-promised h c totals v = (c, ap (λ t. some (number t, c)) v.total, v)

  answers-promises :
      (h : History) (c : RollingCounter) (calls : List Call)
      → Represents n w start h c
      → answers c calls ≡ some (promises n w start h calls)
  unfolding answers promises
  answers-promises h c [] v = refl
  answers-promises h c (call ∷ calls) v =
      let (c', run, v') = answer-promised h c call v in
      rw run (rw (answers-promises (promised n w start h call).1 c' calls v'))

-- From a new counter with usable settings, every sequence of increments, sums, resets, snapshots and
-- totals answers what the sliding window of the recorded events promises, and no call panics.
pub new-answers :
    (n w : ℕ) (start : ℤ) (calls : List Call)
    → IsUsable n w
    → n < 2 ^ 62
    → (new_rolling_counter (pos w) (pos n) start >>= λ c. answers c calls)
      ≡ some (promises n w start no_events calls)
new-answers n w start calls u b =
    let (c, run, v) = new-Represents n w start u in
    rw run (answers-promises n w start b no_events c calls v)
