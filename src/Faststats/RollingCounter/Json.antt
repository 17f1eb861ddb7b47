-- ===== src/Faststats/RollingCounter/Json.antt =====
-- faststats/rolling_counter.go: a counter as JSON. The texts and what `encoding/json` makes of them are
-- parameters: `encode` may refuse, as it does a time out of its range. The rolling sum is read, and ignored.
use circuit.Prelude.{
  ℕ, ℤ, pos, true, not, Option, none, some, List, length, eqb_ℤ, if◌then◌else◌, ◌≡◌, refl, ap, ◌∙◌,
  arith, ◌≤ℤ◌, Bool-cases, inl, inr,
}
use circuit.Faststats.RollingBuckets.{RollingBuckets, store, validate}
use circuit.Faststats.RollingCounter.{RollingCounter, sum_buckets}
use circuit.Faststats.RollingCounter.History.{History, Represents}

-- A nil pointer is `none`.
pub record JsonCounter : Type 0 where
  pub buckets : List ℤ
  pub rolling_sum : Option ℤ
  pub total_sum : Option ℤ
  pub rolling_bucket : Option RollingBuckets

-- The errors of `UnmarshalJSON`.
pub data Problem : Type 0 where
  bad_json incomplete inconsistent invalid : Problem

-- `json.Marshal` and `json.Unmarshal` of a `jsonCounter`.
pub record Codec (B : Type 0) : Type 0 where
  pub encode : JsonCounter → Option B
  pub decode : B → Option JsonCounter

-- What is stored fits together: as many buckets as the window says, and no negative setting.
pub record IsConsistent (r : RollingCounter) : Type 0 where
  pub sized : r.rolling_bucket.num_buckets ≡ pos (length r.buckets)
  pub width : pos 0 ≤ℤ r.rolling_bucket.bucket_width
  pub last : pos 0 ≤ℤ r.rolling_bucket.last_abs_index

abbrev pub Answered : RollingCounter → Option Problem × RollingCounter → Type 0
Answered r (some problem, r') = r' ≡ r
Answered r (none, r') = IsConsistent r'

module _ {B : Type 0} (json : Codec B) where
  unfoldable pub marshal_json : RollingCounter → Option B
  marshal_json r = json.encode (record {
    buckets = r.buckets;
    rolling_sum = some (sum_buckets r);
    total_sum = some r.total_sum;
    rolling_bucket = some r.rolling_bucket;
  })

  -- The required fields, or a problem with them.
  unfoldable pub checked :
      Option ℤ → Option RollingBuckets → List ℤ → RollingCounter → Option Problem × RollingCounter
  checked none window buckets r = (some incomplete, r)
  checked (some total) none buckets r = (some incomplete, r)
  checked (some total) (some window) buckets r =
      if not (eqb_ℤ (pos (length buckets)) window.num_buckets)
      then (some inconsistent, r)
      else if validate window
      then (
        none,
        record {
          buckets = buckets;
          total_sum = total;
          rolling_bucket = store r.rolling_bucket window;
        },
      )
      else (some invalid, r)

  abbrev taken : Option JsonCounter → RollingCounter → Option Problem × RollingCounter
  taken none r = (some bad_json, r)
  taken (some into) r = checked into.total_sum into.rolling_bucket into.buckets r

  -- The error, if any, and the counter after it.
  unfoldable pub unmarshal_json : B → RollingCounter → Option Problem × RollingCounter
  unmarshal_json b r = taken (json.decode b) r

  -- A counter with usable settings that is written and read again, by a JSON library that reads what it
  -- has written, is stored as it was in whatever counter reads it, without an error.
  pub unmarshal_json-marshal_json :
      (n w : ℕ) (start : ℤ) (h : History) (c r : RollingCounter) (b : B)
      → ((x : JsonCounter) (y : B) → json.encode x ≡ some y → json.decode y ≡ some x)
      → Represents n w start h c
      → marshal_json c ≡ some b
      → unmarshal_json b r ≡ (none, c)
  unfolding marshal_json unmarshal_json checked store validate
  unmarshal_json-marshal_json n w start h c r b reads v written =
      let decoded = reads _ b written in
      let sized : eqb_ℤ (pos (length c.buckets)) c.rolling_bucket.num_buckets ≡ true =
        rw (v.sized, v.window.buckets) (ground arith) in
      let valid : validate c.rolling_bucket ≡ true =
        rw (v.window.buckets, v.window.width, v.window.last) (ground arith) in
      ap (λ d. taken d r) decoded ∙ rw (sized, valid) refl

  checked-Answered :
      (total : Option ℤ) (window : Option RollingBuckets) (buckets : List ℤ) (r : RollingCounter)
      → Answered r (checked total window buckets r)
  unfolding checked store validate
  checked-Answered none window buckets r = refl
  checked-Answered (some total) none buckets r = refl
  checked-Answered (some total) (some window) buckets r =
      elim (Bool-cases (eqb_ℤ (pos (length buckets)) window.num_buckets)) [
        | inr differs ↦ rw differs refl
        | inl sized ↦ elim (Bool-cases (validate window)) [
          | inr negative ↦ rw (sized, negative) refl
          | inl valid ↦
              rw (sized, valid)
                (record {
                  sized = ground (arith, sized);
                  width = ground (arith, valid);
                  last = ground (arith, valid);
                })
        ]
      ]

  -- Whatever the text is, either it is refused and the counter is as it was, or the counter is consistent.
  pub unmarshal_json-Answered : (b : B) (r : RollingCounter) → Answered r (unmarshal_json b r)
  unfolding unmarshal_json
  unmarshal_json-Answered b r = taken-Answered (json.decode b) r
    where
      taken-Answered : (into : Option JsonCounter) (r : RollingCounter) → Answered r (taken into r)
      taken-Answered none r = refl
      taken-Answered (some into) r =
          checked-Answered into.total_sum into.rolling_bucket into.buckets r
