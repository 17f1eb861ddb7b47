-- ===== src/Faststats/RollingBuckets.antt =====
-- faststats/rolling_bucket.go: a ring of buckets over time. The caller's `clearBucket` acts on the
-- caller's buckets, of any type S, and may panic (`none`).
pub mod Window
use circuit.Prelude.{
  ℕ, zero, suc, ℤ, pos, negsuc, pos_part, neg_part, ltb_ℤ, leb_ℤ, ◌||◌, Bool, true, false, List,
  Option, none, some, add64, sub64, div64, rem64, time_sub, if◌then◌else◌, ltb, leb, ◌&&◌, ◌+◌,
  ◌>>=◌,
}

pub record RollingBuckets : Type 0 where
  pub num_buckets : ℤ
  pub start_time : ℤ
  pub bucket_width : ℤ
  pub last_abs_index : ℤ

module _ {ℓ} {S : Type ℓ} (clear_bucket : ℤ → S → Option S) where
  -- `for i := ...; i <= absIndex && i <= limit; i++`, at most as many rounds as there are buckets.
  unfoldable pub clear_loop : ℕ → ℤ → ℤ → ℤ → ℤ → S → Option S
  clear_loop zero i abs_index limit n s = some s
  clear_loop (suc rounds) i abs_index limit n s =
      let rest = clear_bucket (rem64 i n) s >>= λ s'.
      clear_loop rounds (add64 i (pos 1)) abs_index limit n s' in
      if leb_ℤ i abs_index && leb_ℤ i limit then rest else some s

  unfoldable pub roll_forward : ℤ → ℤ → RollingBuckets → S → Option (ℤ × RollingBuckets × S)
  unfolding clear_loop
  roll_forward abs_index n r s =
      let last = r.last_abs_index in
      if leb_ℤ abs_index last
      then some (last, r, s)
      else clear_loop (pos_part n) (add64 last (pos 1)) abs_index (add64 last n) n s >>= λ s'.
          some (abs_index, record r { last_abs_index = abs_index }, s')

  -- The fast and the slow path of `Advance`.
  unfoldable pub advance_to : ℤ → ℤ → RollingBuckets → S → Option (ℤ × RollingBuckets × S)
  unfolding roll_forward
  advance_to abs_index n r s =
      let bucket = rem64 abs_index n in
      let behind = sub64 r.last_abs_index abs_index in
      if leb_ℤ (pos 0) behind
      then some (if leb_ℤ n behind then negsuc 0 else bucket, r, s)
      else roll_forward abs_index n r s >>= λ (last, r', s').
          some (if leb_ℤ n (sub64 last abs_index) then negsuc 0 else bucket, r', s')

  -- The bucket of `now`, or -1.
  unfoldable pub advance : ℤ → RollingBuckets → S → Option (ℤ × RollingBuckets × S)
  unfolding advance_to
  advance now r s =
      if leb_ℤ r.num_buckets (pos 0) || leb_ℤ r.bucket_width (pos 0)
      then some (negsuc 0, r, s)
      else let diff = time_sub now r.start_time in
        if ltb_ℤ diff (pos 0)
        then some (negsuc 0, r, s)
        else advance_to (div64 diff r.bucket_width) r.num_buckets r s

-- `Store` copies the exported state.
unfoldable pub store : RollingBuckets → RollingBuckets → RollingBuckets
store r bucket = record {
  num_buckets = bucket.num_buckets;
  start_time = bucket.start_time;
  bucket_width = bucket.bucket_width;
  last_abs_index = bucket.last_abs_index;
}

-- `validate`: whether these settings can produce a usable window.
unfoldable pub validate : RollingBuckets → Bool
validate r =
    if ltb_ℤ r.num_buckets (pos 0) || ltb_ℤ r.bucket_width (pos 0) || ltb_ℤ r.last_abs_index (pos 0)
    then false
    else true
