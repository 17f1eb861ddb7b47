-- ===== src/Faststats/RollingCounter.antt =====
-- faststats/rolling_counter.go: counts of an event over a rolling window, and of all time.
-- Each method is one atomic step; `none` is a panic. Strings are not modelled.
pub mod Slots
pub mod History
pub mod Advancing
pub mod Sums
pub mod Refinement
pub mod Ages
pub mod Calls
pub mod Json
use circuit.Prelude.{
  ℕ, zero, suc, ℤ, pos, negsuc, ltb_ℤ, leb_ℤ, ◌==◌, ◌||◌, List, [], ◌∷◌, Option, some, none, length,
  replicate, add64, sub64, rem64, if◌then◌else◌, read_at, write_at, ◌>>=◌, pos_part,
}
use circuit.Faststats.RollingBuckets.{RollingBuckets, advance}

pub record RollingCounter : Type 0 where
  pub buckets : List ℤ
  pub total_sum : ℤ
  pub rolling_bucket : RollingBuckets

-- `make` panics on a negative size.
unfoldable pub new_rolling_counter : ℤ → ℤ → ℤ → Option RollingCounter
new_rolling_counter bucket_width (negsuc n) now = none
new_rolling_counter bucket_width (pos n) now = some (record {
  buckets = replicate n (pos 0);
  total_sum = pos 0;
  rolling_bucket = record {
    num_buckets = pos n;
    start_time = now;
    bucket_width = bucket_width;
    last_abs_index = pos 0;
  };
})

abbrev pub clear_bucket : ℤ → List ℤ → Option (List ℤ)
clear_bucket idx buckets = write_at buckets idx (pos 0)

-- `r.rollingBucket.Advance(now, r.clearBucket)`.
unfoldable pub advance_counter : RollingCounter → ℤ → Option (ℤ × RollingCounter)
advance_counter r now =
    advance clear_bucket now r.rolling_bucket r.buckets >>= λ (idx, window, buckets).
    some (idx, record r { rolling_bucket = window; buckets = buckets })

-- `r.buckets[idx].Add(1)`.
unfoldable pub bump : ℤ → RollingCounter → Option RollingCounter
bump idx r = do
  v ← read_at r.buckets idx
  buckets ← write_at r.buckets idx (add64 v (pos 1))
  some (record r { buckets = buckets })

-- `if idx < 0 { return }`, and else the bucket is bumped.
unfoldable pub count_in : ℤ → RollingCounter → Option RollingCounter
count_in idx r = if ltb_ℤ idx (pos 0) then some r else bump idx r

unfoldable pub inc : RollingCounter → ℤ → Option RollingCounter
unfolding advance_counter bump count_in
inc r now =
    let r' = record r { total_sum = add64 r.total_sum (pos 1) } in
    if length r.buckets == 0
    then some r'
    else advance_counter r' now >>= λ (idx, r''). count_in idx r''

unfoldable pub sum_from : ℤ → List ℤ → ℤ
sum_from ret [] = ret
sum_from ret (v ∷ buckets) = sum_from (add64 ret v) buckets

unfoldable pub sum_buckets : RollingCounter → ℤ
unfolding sum_from
sum_buckets r = sum_from (pos 0) r.buckets

unfoldable pub rolling_sum_at : RollingCounter → ℤ → Option (ℤ × RollingCounter)
unfolding advance_counter sum_buckets
rolling_sum_at r now = advance_counter r now >>= λ (idx, r'). some (sum_buckets r', r')

-- The loop of `GetBuckets`, with the rounds that are left.
unfoldable pub read_back : ℕ → ℤ → ℤ → ℤ → List ℤ → Option (List ℤ)
read_back zero i start_idx n buckets = some []
read_back (suc rounds) i start_idx n buckets =
    let idx = sub64 start_idx i in
    let idx' = if ltb_ℤ idx (pos 0) then add64 idx n else idx in
    let rest = read_back rounds (add64 i (pos 1)) start_idx n buckets in
    read_at buckets idx' >>= λ v. rest >>= λ vs. some (v ∷ vs)

-- The buckets backwards in time; the nil slice is `[]`.
unfoldable pub get_buckets : RollingCounter → ℤ → Option (List ℤ × RollingCounter)
unfolding advance_counter read_back
get_buckets r now =
    if leb_ℤ r.rolling_bucket.num_buckets (pos 0) || length r.buckets == 0
    then some ([], r)
    else advance_counter r now >>= λ (idx, r').
        let n = r'.rolling_bucket.num_buckets in
        let start_idx = rem64 r'.rolling_bucket.last_abs_index n in
        read_back (pos_part n) (pos 0) start_idx n r'.buckets >>= λ ret. some (ret, r')

-- `for i := range r.buckets { r.clearBucket(i) }`, with the rounds that are left.
unfoldable pub clear_range : ℕ → ℕ → List ℤ → Option (List ℤ)
clear_range zero i buckets = some buckets
clear_range (suc rounds) i buckets =
    clear_bucket (pos i) buckets >>= λ buckets'. clear_range rounds (suc i) buckets'

unfoldable pub reset : RollingCounter → ℤ → Option RollingCounter
unfolding advance_counter clear_range
reset r now = advance_counter r now >>= λ (idx, r').
    clear_range (length r'.buckets) 0 r'.buckets >>= λ buckets.
    some (record r' { buckets = buckets })

unfoldable pub get_total_sum : RollingCounter → ℤ
get_total_sum r = r.total_sum
