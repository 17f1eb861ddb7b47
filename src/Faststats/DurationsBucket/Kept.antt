-- ===== src/Faststats/DurationsBucket/Kept.antt =====
-- faststats/rolling_percentile.go: a bucket keeps the latest durations, as many as it has slots.
use native.Mathlib.Nat.{mod-lt, mod-eq_of_lt}
use circuit.Prelude.{
  ltb_ℤ, add64-cancel, ◌≤ℤ◌, ℕ, zero, suc, ℤ, pos, negsuc, List, [], ◌∷◌, Option, some, none, ◌>>=◌,
  length, get_elem?, set, add64, sub64, add64-pos, rem64-pos, length-set, length-replicate,
  get_elem?-set_self, get_elem?-set_ne, get_elem?-replicate, if◌then◌else◌, ◌≡◌, ◌≢◌, ◌∙◌, refl, ap,
  sym, subst, arith, ◌+◌, ◌-◌, ◌%◌, ◌^◌, ◌<◌, ◌≤◌, pos_part, neg_part, IsInt64, wrap64, ◌-ℤ◌, ◌+ℤ◌,
  sub64-pos, lt→ltb, ne-zero→false,
}
use circuit.Faststats.RollingCounter.Slots.{mod_apart}
use circuit.Faststats.DurationsBucket.{
  DurationsBucket, unset_duration, new_durations_bucket, encode_duration, decode_duration,
  add_duration,
}

-- The durations of a bucket of n slots, the latest first: each of the latest n is in the slot of its
-- index, and no slot was written beyond them.
pub record Keeps (n : ℕ) (ds : List ℤ) (b : DurationsBucket) : Type 0 where
  pub sized : length b.durations_some_invalid ≡ n
  pub indexed : b.current_index ≡ pos (length ds)
  pub kept :
      (p : ℕ) (d : ℤ)
      → get_elem? ds p ≡ some d
      → p < n
      → get_elem? b.durations_some_invalid ((length ds - suc p) % n) ≡ some (encode_duration d)
  pub unset :
      (j : ℕ) → j < n → length ds ≤ j → get_elem? b.durations_some_invalid j ≡ some unset_duration

pub new-Keeps : (n : ℕ) → Keeps n [] (new_durations_bucket n)
unfolding new_durations_bucket
new-Keeps n = record {
  sized = length-replicate n unset_duration;
  indexed = refl;
  kept = λ p d h q. ground (arith, h);
  unset = λ j q r. get_elem?-replicate n j unset_duration q;
}

pub get_elem?-bound : (ds : List ℤ) (p : ℕ) (d : ℤ) → get_elem? ds p ≡ some d → p < length ds
get_elem?-bound [] p d h = ground (arith, h)
get_elem?-bound (x ∷ ds) zero d h = omega arith
get_elem?-bound (x ∷ ds) (suc p) d h = omega (arith, get_elem?-bound ds p d h)

back : (a : ℕ) → a + 1 < 2 ^ 63 → sub64 (pos (a + 1)) (pos 1) ≡ pos a
unfolding ◌-ℤ◌
back a h = sub64-pos (a + 1) 1 h (omega arith) ∙ ground arith

pub add_duration-run :
    (n : ℕ) (d : ℤ) (ds : List ℤ) (b : DurationsBucket)
    → Keeps n ds b
    → 0 < n
    → length ds + 1 < 2 ^ 63
    → add_duration d b
      ≡ some (record {
        durations_some_invalid = set b.durations_some_invalid (length ds % n) (encode_duration d);
        current_index = pos (length ds + 1);
      })
unfolding add_duration
add_duration-run n d ds b k some_slots room =
    let up : add64 b.current_index (pos 1) ≡ pos (length ds + 1) =
      ap (λ i. add64 i (pos 1)) k.indexed ∙ add64-pos (length ds) 1 room in
    let slot = rem64-pos (length ds) n in
    let inside = lt→ltb (length ds % n) n (mod-lt (length ds) some_slots) in
    simp (up, back (length ds) room, k.sized, ne-zero→false n (omega arith), slot, inside)

-- A slot that is not the written one.
stays :
    (n i j : ℕ) (d : ℤ) (ds : List ℤ) (b : DurationsBucket)
    → j ≢ i
    → get_elem? (set b.durations_some_invalid i (encode_duration d)) j
      ≡ get_elem? b.durations_some_invalid j
stays n i j d ds b ne =
    get_elem?-set_ne b.durations_some_invalid i j (encode_duration d) (λ e. ne (sym e))

kept_after :
    (n : ℕ) (d : ℤ) (ds : List ℤ) (b : DurationsBucket)
    → Keeps n ds b
    → 0 < n
    → (p : ℕ) (e : ℤ) → get_elem? (d ∷ ds) p ≡ some e
    → p < n
    → get_elem?
        (set b.durations_some_invalid (length ds % n) (encode_duration d))
        ((suc (length ds) - suc p) % n)
      ≡ some (encode_duration e)
kept_after n d ds b k some_slots zero e h q =
    ap (λ i. get_elem? (set b.durations_some_invalid (length ds % n) (encode_duration d)) (i % n))
      {x = suc (length ds) - 1} (omega arith)
    ∙ get_elem?-set_self b.durations_some_invalid (length ds % n) (encode_duration d)
        (subst (λ m. length ds % n < m) (sym k.sized) (mod-lt (length ds) some_slots))
    ∙ ap (λ o. some (encode_duration (value o))) h
  where
    value : Option ℤ → ℤ
    value none = pos 0
    value (some x) = x
kept_after n d ds b k some_slots (suc p) e h q =
    let bound = get_elem?-bound ds p e h in
    let apart =
      mod_apart (length ds - suc p) (length ds) n (omega (arith, bound)) (omega (arith, bound)) in
    ap (λ i. get_elem? (set b.durations_some_invalid (length ds % n) (encode_duration d)) (i % n))
      {x = suc (length ds) - suc (suc p)} (omega arith)
    ∙ stays n (length ds % n) ((length ds - suc p) % n) d ds b apart
    ∙ k.kept p e h (omega arith)

pub add-Keeps :
    (n : ℕ) (d : ℤ) (ds : List ℤ) (b : DurationsBucket)
    → Keeps n ds b
    → 0 < n
    → Keeps n (d ∷ ds) (record {
      durations_some_invalid = set b.durations_some_invalid (length ds % n) (encode_duration d);
      current_index = pos (length ds + 1);
    })
add-Keeps n d ds b k some_slots = record {
  sized = length-set b.durations_some_invalid (length ds % n) (encode_duration d) ∙ k.sized;
  indexed = ap pos (omega arith);
  kept = kept_after n d ds b k some_slots;
  unset = λ j q r.
      stays n (length ds % n) j d ds b
        (λ e. absurd (omega (arith, e, mod-eq_of_lt {n = length ds} {m = n} (omega arith))))
      ∙ k.unset j q (omega arith);
}

-- Adds the durations, the latest one at the head.
unfoldable pub adds : List ℤ → DurationsBucket → Option DurationsBucket
adds [] b = some b
adds (d ∷ ds) b = adds ds b >>= λ b'. add_duration d b'

-- A new bucket of n slots takes any durations, fewer than 2^63, without a panic, and then holds each of
-- the latest n of them, encoded, in the slot of its index; slots beyond the added ones are unset.
pub adds-Keeps :
    (n : ℕ) (ds : List ℤ)
    → 0 < n
    → length ds < 2 ^ 63
    → (b : DurationsBucket) × (adds ds (new_durations_bucket n) ≡ some b) × Keeps n ds b
unfolding adds
adds-Keeps n [] some_slots room = (new_durations_bucket n, refl, new-Keeps n)
adds-Keeps n (d ∷ ds) some_slots room =
    let (b, run, k) = adds-Keeps n ds some_slots (omega arith) in
    (
      record {
        durations_some_invalid = set b.durations_some_invalid (length ds % n) (encode_duration d);
        current_index = pos (length ds + 1);
      },
      rw run (add_duration-run n d ds b k some_slots (omega arith)),
      add-Keeps n d ds b k some_slots,
    )

-- The duration that is encoded.
abbrev clamp : ℤ → ℤ
clamp d = if ltb_ℤ d (pos 0) then pos 0 else d

decode_cancels : (x : ℤ) → IsInt64 x → sub64 (add64 x (pos 1)) (pos 1) ≡ x
unfolding sub64 add64 ◌-ℤ◌ ◌+ℤ◌
decode_cancels x h =
    ap wrap64 {x = add64 x (pos 1) -ℤ pos 1} {y = add64 x (pos 1) +ℤ negsuc 0} (ground arith)
    ∙ add64-cancel x h

minus_one_below : sub64 (pos 0) (pos 1) ≡ negsuc 0
unfolding sub64 ◌-ℤ◌ wrap64
minus_one_below = refl

encode-not_unset : (x : ℤ) → IsInt64 x → pos 0 ≤ℤ x → add64 x (pos 1) ≢ pos 0
encode-not_unset x h nonneg e =
    let minus_one : sub64 (pos 0) (pos 1) ≡ x =
      ap (λ v. sub64 v (pos 1)) (sym e) ∙ decode_cancels x h in
    absurd (
      omega (
        arith,
        nonneg,
        ap pos_part minus_one,
        ap neg_part minus_one,
        ap neg_part minus_one_below,
        ap pos_part minus_one_below,
      ))

-- Every duration that is encoded is told from an unset slot, and decodes to itself, or to 0 if it was
-- negative; the largest int64 included, whose code wraps.
pub decode_duration-encode_duration :
    (d : ℤ)
    → IsInt64 d
    → encode_duration d ≢ unset_duration
      × decode_duration (encode_duration d) ≡ (if ltb_ℤ d (pos 0) then pos 0 else d)
unfolding encode_duration decode_duration
decode_duration-encode_duration d h =
    let inside : IsInt64 (clamp d) = record {
      low = ground (arith, h.low);
      high = ground (arith, h.high);
    } in
    (encode-not_unset (clamp d) inside (ground arith), decode_cancels (clamp d) inside)
