-- ===== src/Faststats/TimedCheck/Json.antt =====
-- faststats/timedcheck.go: a check as JSON. The texts and what `encoding/json` makes of them are parameters.
use circuit.Prelude.{
  ℤ, Bool, true, false, Option, none, some, after, ◌≡◌, refl, ap, ◌∙◌, Bool-cases, inl, inr,
}
use circuit.Faststats.TimedCheck.{TimedCheck, check, check_locked}

pub record MarshalStruct : Type 0 where
  pub sleep_duration : ℤ
  pub event_count_to_allow : ℤ
  pub next_open_time : ℤ
  pub currently_allowed_event_count : ℤ

-- `json.Marshal` and `json.Unmarshal` of a `marshalStruct`.
pub record Codec (B : Type 0) : Type 0 where
  pub encode : MarshalStruct → Option B
  pub decode : B → Option MarshalStruct

module _ {B : Type 0} (json : Codec B) where
  unfoldable pub marshal_json : TimedCheck → Option B
  marshal_json c = json.encode (record {
    sleep_duration = c.sleep_duration;
    event_count_to_allow = c.event_count_to_allow;
    next_open_time = c.next_open_time;
    currently_allowed_event_count = c.currently_allowed_event_count;
  })

  -- False is an error.
  abbrev pub taken : Option MarshalStruct → TimedCheck → Bool × TimedCheck
  taken none c = (false, c)
  taken (some into) c = (
    true,
    record c {
      sleep_duration = into.sleep_duration;
      event_count_to_allow = into.event_count_to_allow;
      next_open_time = into.next_open_time;
      currently_allowed_event_count = into.currently_allowed_event_count;
    },
  )

  unfoldable pub unmarshal_json : B → TimedCheck → Bool × TimedCheck
  unmarshal_json b c = taken (json.decode b) c

  -- A check that is written and read into one that does not fail fast, by a JSON library that reads what it
  -- has written, answers any later check as the written one does after its timer.
  pub unmarshal_json-check :
      (now : ℤ) (c d : TimedCheck) (b : B)
      → ((x : MarshalStruct) (y : B) → json.encode x ≡ some y → json.decode y ≡ some x)
      → marshal_json c ≡ some b
      → d.is_fast_fail ≡ false
      → (unmarshal_json b d).0 ≡ true
        × (check now (unmarshal_json b d).1).0 ≡ (check now (record c { is_fast_fail = false })).0
  unfolding marshal_json unmarshal_json check check_locked
  unmarshal_json-check now c d b reads written slow =
      let decoded = ap (λ x. taken x d) (reads _ b written) in
      let same : (check now
            (taken
              (some (record {
                sleep_duration = c.sleep_duration;
                event_count_to_allow = c.event_count_to_allow;
                next_open_time = c.next_open_time;
                currently_allowed_event_count = c.currently_allowed_event_count;
              }))
              d).1).0
          ≡ (check now (record c { is_fast_fail = false })).0 =
        elim (Bool-cases (after c.next_open_time now)) [
          | inl early ↦ rw (slow, early) refl
          | inr past ↦ rw (slow, past) refl
        ] in
      (ap (λ x. x.0) decoded, ap (λ x. (check now x.1).0) decoded ∙ same)
