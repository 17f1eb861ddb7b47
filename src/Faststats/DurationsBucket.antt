-- ===== src/Faststats/DurationsBucket.antt =====
-- faststats/rolling_percentile.go: the fixed list of durations of one bucket of a rolling percentile. A
-- method is one atomic step.
pub mod Kept
pub mod Clearing
use circuit.Prelude.{
  ℕ, zero, suc, ℤ, pos, negsuc, Bool, List, [], ◌∷◌, ◌++◌, Option, some, none, ◌>>=◌, length,
  replicate, get_elem?, set, read_at, write_at, add64, sub64, rem64, eqb_ℤ, ltb_ℤ, leb_ℤ,
  if◌then◌else◌, pos_part, neg_part, ◌==◌, ltb, leb,
}

pub record DurationsBucket : Type 0 where
  pub durations_some_invalid : List ℤ
  pub current_index : ℤ

abbrev pub unset_duration : ℤ
unset_duration = pos 0

unfoldable pub new_durations_bucket : ℕ → DurationsBucket
new_durations_bucket bucket_size = record {
  durations_some_invalid = replicate bucket_size unset_duration;
  current_index = pos 0;
}

unfoldable pub encode_duration : ℤ → ℤ
encode_duration d = add64 (if ltb_ℤ d (pos 0) then pos 0 else d) (pos 1)

unfoldable pub decode_duration : ℤ → ℤ
decode_duration v = sub64 v (pos 1)

-- The smaller of the two.
unfoldable pub size : DurationsBucket → ℤ
size b =
    let n = pos (length b.durations_some_invalid) in
    if leb_ℤ b.current_index n then b.current_index else n

unfoldable pub add_duration : ℤ → DurationsBucket → Option DurationsBucket
add_duration d b =
    let n = length b.durations_some_invalid in
    if n == 0
    then some b
    else let count = add64 b.current_index (pos 1) in
      write_at b.durations_some_invalid (rem64 (sub64 count (pos 1)) (pos n)) (encode_duration d)
      >>= λ slots. some (record { durations_some_invalid = slots; current_index = count })

-- The loop of `clear` over the slots from i on.
unfoldable pub unset_from : ℕ → ℕ → List ℤ → Option (List ℤ)
unset_from zero i slots = some slots
unset_from (suc rounds) i slots =
    write_at slots (pos i) unset_duration >>= λ slots'. unset_from rounds (suc i) slots'

unfoldable pub clear : DurationsBucket → Option DurationsBucket
clear b = unset_from (pos_part (size b)) 0 b.durations_some_invalid >>= λ slots.
    some (record { durations_some_invalid = slots; current_index = pos 0 })

-- The loop of `appendDurations` over the slots from i on.
unfoldable pub append_from : ℕ → ℕ → List ℤ → List ℤ → Option (List ℤ)
append_from zero i slots ret = some ret
append_from (suc rounds) i slots ret = read_at slots (pos i) >>= λ v.
    append_from rounds (suc i) slots
      (if eqb_ℤ v unset_duration then ret else ret ++ decode_duration v ∷ [])

unfoldable pub append_durations : List ℤ → DurationsBucket → Option (List ℤ)
append_durations ret b = append_from (pos_part (size b)) 0 b.durations_some_invalid ret
