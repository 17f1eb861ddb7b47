-- ===== src/Faststats/RollingPercentile.antt =====
-- faststats/rolling_percentile.go: durations in a ring of buckets over time, and their sorted snapshot.
-- A method is one atomic step, and `none` is a panic. Var and strings are not modelled.
pub mod Ring
pub mod Held
pub mod History
pub mod Clearing
pub mod Gathering
pub mod Advancing
pub mod Refinement
pub mod Calls
use circuit.Prelude.{
  ℕ, zero, suc, ℤ, pos, negsuc, ltb_ℤ, ◌==◌, List, [], ◌∷◌, Option, some, none, length,
  if◌then◌else◌, add64, read_at, write_at, ◌>>=◌, pos_part,
}
use circuit.Sorting.{sort_by}
use circuit.Faststats.RollingBuckets.{RollingBuckets, advance}
use circuit.Faststats.DurationsBucket.{
  DurationsBucket, new_durations_bucket, size, append_durations, clear, add_duration,
}

pub record RollingPercentile : Type 0 where
  pub buckets : List DurationsBucket
  pub rolling_bucket : RollingBuckets

-- `make` panics on a negative size.
unfoldable pub make_bucket : ℤ → Option DurationsBucket
make_bucket (pos n) = some (new_durations_bucket n)
make_bucket (negsuc n) = none

-- The loop of `makeBuckets`.
unfoldable pub fill_buckets : ℕ → ℤ → Option (List DurationsBucket)
fill_buckets zero bucket_size = some []
fill_buckets (suc rounds) bucket_size =
    make_bucket bucket_size >>= λ b. fill_buckets rounds bucket_size >>= λ rest. some (b ∷ rest)

unfoldable pub make_buckets : ℤ → ℤ → Option (List DurationsBucket)
make_buckets (pos n) bucket_size = fill_buckets n bucket_size
make_buckets (negsuc n) bucket_size = none

unfoldable pub new_rolling_percentile : ℤ → ℤ → ℤ → ℤ → Option RollingPercentile
new_rolling_percentile bucket_width num_buckets bucket_size now =
    make_buckets num_buckets bucket_size >>= λ buckets. some (record {
      buckets = buckets;
      rolling_bucket = record {
        num_buckets = num_buckets;
        start_time = now;
        bucket_width = bucket_width;
        last_abs_index = pos 0;
      };
    })

-- `r.buckets[idx].clear()`.
unfoldable pub clear_bucket : ℤ → List DurationsBucket → Option (List DurationsBucket)
clear_bucket idx buckets = read_at buckets idx >>= λ b. clear b >>= λ b'. write_at buckets idx b'

-- `r.rollingBucket.Advance(now, r.clearBucket)`.
unfoldable pub advance_percentile : RollingPercentile → ℤ → Option (ℤ × RollingPercentile)
advance_percentile r now =
    advance clear_bucket now r.rolling_bucket r.buckets >>= λ (idx, window, buckets).
    some (idx, record { rolling_bucket = window; buckets = buckets })

-- `size += r.buckets[idx].size()` over the buckets.
unfoldable pub total_size : ℤ → List DurationsBucket → ℤ
total_size acc [] = acc
total_size acc (b ∷ buckets) = total_size (add64 acc (size b)) buckets

-- `make([]time.Duration, 0, size)`.
unfoldable pub make_slice : ℤ → Option (List ℤ)
make_slice capacity = if ltb_ℤ capacity (pos 0) then none else some []

-- `ret = r.buckets[idx].appendDurations(ret)` over the buckets.
unfoldable pub gather : List ℤ → List DurationsBucket → Option (List ℤ)
gather ret [] = some ret
gather ret (b ∷ buckets) = append_durations ret b >>= λ ret'. gather ret' buckets

-- The nil slice is `[]`.
unfoldable pub sorted_durations : RollingPercentile → ℤ → Option (List ℤ × RollingPercentile)
sorted_durations r now =
    if length r.buckets == 0
    then some ([], r)
    else advance_percentile r now >>= λ (idx, r').
        make_slice (total_size (pos 0) r'.buckets) >>= λ ret.
        gather ret r'.buckets >>= λ ret'. some (sort_by (λ d. d) ret', r')

unfoldable pub snapshot_at : RollingPercentile → ℤ → Option (List ℤ × RollingPercentile)
unfolding sorted_durations
snapshot_at r now = sorted_durations r now

-- `r.buckets[idx].addDuration(d)`.
unfoldable pub put_duration : ℤ → ℤ → List DurationsBucket → Option (List DurationsBucket)
put_duration idx d buckets =
    read_at buckets idx >>= λ b. add_duration d b >>= λ b'. write_at buckets idx b'

-- `if idx < 0 { return }`, and else the duration goes into the bucket.
unfoldable pub add_in : ℤ → ℤ → RollingPercentile → Option RollingPercentile
add_in idx d r =
    if ltb_ℤ idx (pos 0)
    then some r
    else put_duration idx d r.buckets >>= λ buckets. some (record r { buckets = buckets })

unfoldable pub add_duration_at : RollingPercentile → ℤ → ℤ → Option RollingPercentile
add_duration_at r d now =
    if length r.buckets == 0
    then some r
    else advance_percentile r now >>= λ (idx, r'). add_in idx d r'

-- `for i := 0; i < r.rollingBucket.NumBuckets; i++ { r.clearBucket(i) }`, with the rounds that are left.
unfoldable pub clear_all : ℕ → ℕ → List DurationsBucket → Option (List DurationsBucket)
clear_all zero i buckets = some buckets
clear_all (suc rounds) i buckets =
    clear_bucket (pos i) buckets >>= λ buckets'. clear_all rounds (suc i) buckets'

unfoldable pub reset : RollingPercentile → ℤ → Option RollingPercentile
reset r now = advance_percentile r now >>= λ (idx, r').
    clear_all (pos_part r'.rolling_bucket.num_buckets) 0 r'.buckets >>= λ buckets.
    some (record r' { buckets = buckets })
