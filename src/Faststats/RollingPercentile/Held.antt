-- ===== src/Faststats/RollingPercentile/Held.antt =====
-- faststats/rolling_percentile.go: what a bucket shows of the durations that were added to it.
use mathlib.Core.List.{Perm, append-nil, append_assoc, filter_map}
use mathlib.Core.List.Perm
use circuit.Prelude.{
  ℕ, zero, suc, ℤ, pos, List, [], ◌∷◌, ◌++◌, map, Option, some, none, length, get_elem?,
  get_elem?-lt, set, take, drop, eqb_ℤ, ltb_ℤ, if◌then◌else◌, ◌+◌, ◌^◌, ◌<◌, ◌≤◌, ◌≡◌, refl, sym,
  ap, subst, ◌∙◌, arith, Bool-cases, inl, inr, leb, leb→le, leb-false→lt, ◌-◌, eq_of_parts, IsInt64,
  pos_part, ◌%◌, ◌≢◌, false,
}
use circuit.Faststats.DurationsBucket.{
  DurationsBucket, unset_duration, encode_duration, decode_duration, new_durations_bucket, size,
  append_from, append_durations, add_duration, clear,
}
use circuit.Faststats.DurationsBucket.Kept.{
  Keeps, new-Keeps, add_duration-run, add-Keeps, decode_duration-encode_duration,
}
use circuit.Faststats.DurationsBucket.Clearing.{clear-Keeps}
use circuit.Faststats.RollingPercentile.Ring.{
  slots_of, used, latest, Places, used_grows, used_turns, take_all,
}

abbrev pub AllInt64 : List ℤ → Type 0
AllInt64 [] = Unit {0}
AllInt64 (d ∷ ds) = IsInt64 d × AllInt64 ds

-- A duration as it is reported: a negative one is 0.
abbrev pub reported : ℤ → ℤ
reported d = if ltb_ℤ d (pos 0) then pos 0 else d

-- A bucket of m slots that was given these durations, the latest one first.
pub record Holds (m : ℕ) (ds : List ℤ) (b : DurationsBucket) : Type 0 where
  pub keeps : Keeps m ds b
  pub slots : b.durations_some_invalid ≡ slots_of m ds
  pub held : Perm (used m ds) (latest m ds)

used_none : (m : ℕ) → used m [] ≡ []
used_none m = ap (λ k. take k (slots_of m [])) {y = 0} (ground arith)

pub new-Holds : (m : ℕ) → Holds m [] (new_durations_bucket m)
unfolding new_durations_bucket slots_of
new-Holds m = record {
  keeps = new-Keeps m;
  slots = refl;
  held =
      subst (λ l. Perm l (latest m [])) (sym (used_none m))
        (subst (Perm []) (ap (map encode_duration) (sym (take_all m [] (omega arith)))) Perm.nil);
}

Keeps-Places : (m : ℕ) (ds : List ℤ) (b : DurationsBucket) → Holds m ds b → Places m ds
Keeps-Places m ds b h = record {
  places = λ p d e q.
      subst (λ s. get_elem? s ((length ds - suc p) % m) ≡ some (encode_duration d)) h.slots
        (h.keeps.kept p d e q);
}

used_next :
    (m : ℕ) (d : ℤ) (ds : List ℤ) (b : DurationsBucket)
    → 0 < m
    → Holds m ds b
    → Perm (used m (d ∷ ds)) (latest m (d ∷ ds))
used_next zero d ds b p h = elim p [ ]
used_next (suc m) d ds b p h = elim (Bool-cases (leb (suc m) (length ds))) [
  | inl full ↦ used_turns m d ds (leb→le _ _ full) (Keeps-Places (suc m) ds b h) h.held
  | inr room ↦ used_grows (suc m) d ds (leb-false→lt _ _ room) h.held
]

pub add_duration-Holds :
    (m : ℕ) (d : ℤ) (ds : List ℤ) (b : DurationsBucket)
    → 0 < m
    → length ds + 1 < 2 ^ 63
    → Holds m ds b
    → (b' : DurationsBucket) × (add_duration d b ≡ some b') × Holds m (d ∷ ds) b'
unfolding slots_of
add_duration-Holds m d ds b p room h = (
  _,
  add_duration-run m d ds b h.keeps p room,
  record {
    keeps = add-Keeps m d ds b h.keeps p;
    slots = ap (λ s. set s (length ds % m) (encode_duration d)) h.slots;
    held = used_next m d ds b p h;
  },
)

pub clear-Holds :
    (m : ℕ) (ds : List ℤ) (b : DurationsBucket)
    → Holds m ds b
    → clear b ≡ some (new_durations_bucket m)
clear-Holds m ds b h = clear-Keeps m ds b h.keeps

-- A slot that is set is decoded.
abbrev shown : ℤ → Option ℤ
shown v = if eqb_ℤ v unset_duration then none else some (decode_duration v)

drop_at :
    (slots : List ℤ) (i : ℕ) (v : ℤ)
    → get_elem? slots i ≡ some v
    → drop i slots ≡ v ∷ drop (suc i) slots
drop_at [] i v h = absurd (ground (arith, h))
drop_at (x ∷ slots) zero v h = ground (arith, h)
drop_at (x ∷ slots) (suc i) v h = drop_at slots i v h

append_from-shown :
    (k i : ℕ) (slots ret : List ℤ)
    → i + k ≤ length slots
    → append_from k i slots ret ≡ some (ret ++ filter_map shown (take k (drop i slots)))
unfolding append_from filter_map
append_from-shown zero i slots ret h = ap some (sym (append-nil ret))
append_from-shown (suc k) i slots ret h =
    let (v, found) = get_elem?-lt slots i (omega arith) in
    rw (found, drop_at slots i v found)
      (elim (Bool-cases (eqb_ℤ v unset_duration)) [
        | inl unset ↦ rw unset (append_from-shown k (suc i) slots ret (omega arith))
        | inr filled ↦ rw filled (
            append_from-shown k (suc i) slots (ret ++ decode_duration v ∷ []) (omega arith)
            ∙ ap some (append_assoc ret (decode_duration v ∷ []) _))
      ])

ne-false : (a b : ℤ) → a ≢ b → eqb_ℤ a b ≡ false
ne-false a b h = elim (Bool-cases (eqb_ℤ a b)) [
  | inl same ↦ absurd (h (eq_of_parts a b (ground arith)))
  | inr other ↦ other
]

filter_map-encode :
    (ds : List ℤ) → AllInt64 ds → filter_map shown (map encode_duration ds) ≡ map reported ds
unfolding filter_map
filter_map-encode [] a = refl
filter_map-encode (d ∷ ds) a =
    let (set, same) = decode_duration-encode_duration d a.0 in
    let filled : eqb_ℤ (encode_duration d) unset_duration ≡ false =
      ne-false (encode_duration d) unset_duration set in
    rw (filled, same, filter_map-encode ds a.1)

take-AllInt64 : (m : ℕ) (ds : List ℤ) → AllInt64 ds → AllInt64 (take m ds)
take-AllInt64 zero ds a = tt
take-AllInt64 (suc m) [] a = tt
take-AllInt64 (suc m) (d ∷ ds) a = (a.0, take-AllInt64 m ds a.1)

size-used :
    (m : ℕ) (ds : List ℤ) (b : DurationsBucket)
    → Keeps m ds b
    → pos_part (size b) ≡ (if leb (length ds) m then length ds else m)
unfolding size
size-used m ds b k = ground (arith, k.indexed, k.sized)

-- What a bucket appends: the latest m of its durations, in some order.
pub append_durations-Holds :
    (m : ℕ) (ds : List ℤ) (b : DurationsBucket)
    → Holds m ds b
    → AllInt64 ds
    → (l : List ℤ) × ((ret : List ℤ) → append_durations ret b ≡ some (ret ++ l))
      × Perm l (map reported (take m ds))
unfolding append_durations
append_durations-Holds m ds b h a =
    let k = pos_part (size b) in
    let sized = size-used m ds b h.keeps in
    let fits : 0 + k ≤ length b.durations_some_invalid = ground (arith, sized, h.keeps.sized) in
    let taken : take k (drop 0 b.durations_some_invalid) ≡ used m ds =
      ap (λ i. take i b.durations_some_invalid) sized
      ∙ ap (take (if leb (length ds) m then length ds else m)) h.slots in
    (
      filter_map shown (used m ds),
      λ ret.
          append_from-shown k 0 b.durations_some_invalid ret fits
          ∙ ap (λ l. some (ret ++ filter_map shown l)) taken,
      subst (Perm (filter_map shown (used m ds)))
          (filter_map-encode (take m ds) (take-AllInt64 m ds a)) (Perm.filter_map shown h.held),
    )

-- No bucket reports a size below 0 or above its slots.
pub size-Holds :
    (m : ℕ) (ds : List ℤ) (b : DurationsBucket)
    → Holds m ds b
    → (k : ℕ) × (size b ≡ pos k) × (k ≤ m)
unfolding size
size-Holds m ds b h = (
  if leb (length ds) m then length ds else m,
  ground (arith, h.keeps.indexed, h.keeps.sized),
  ground arith,
)
