-- ===== src/Tests/Faststats.antt =====
-- faststats: runs and instances.
use circuit.Prelude.{
  none, sym, pos, ◌>>=◌, ◌≡◌, refl, some, List, [], ◌∷◌, arith, wrap64, time_sub, ◌-ℤ◌, sub64,
  div64, rem64, add64, ◌+ℤ◌,
}
use circuit.Faststats.RollingBuckets.{advance}
use circuit.Faststats.RollingCounter.{
  RollingCounter, sum_buckets, new_rolling_counter, inc, rolling_sum_at, get_buckets, reset,
  get_total_sum,
}
use circuit.Faststats.RollingCounter.History.{no_events}
use circuit.Faststats.RollingCounter.Refinement.{IsUsable, new-Represents}
use circuit.Faststats.RollingCounter.Json
use circuit.Faststats.RollingCounter.Json.{unmarshal_json-marshal_json, unmarshal_json-Answered}
use circuit.Faststats.RollingCounter.Calls.{
  Call, incs, sums, snapshots, totals, answers, promises, done, number, numbers, new-answers,
}

-- Three buckets of 10 ns from time 100; the event at 95 is too early, the one at 101 too late at 131.
abbrev calls : List Call
calls =
    incs (pos 95)
    ∷ incs (pos 100)
    ∷ incs (pos 109)
    ∷ incs (pos 121)
    ∷ snapshots (pos 125)
    ∷ sums (pos 131)
    ∷ incs (pos 101)
    ∷ totals
    ∷ sums (pos 500)
    ∷ []

calls_run :
    (new_rolling_counter (pos 10) (pos 3) (pos 100) >>= λ c. answers c calls)
    ≡ some (
        done
        ∷ done
        ∷ done
        ∷ done
        ∷ numbers (pos 1 ∷ pos 0 ∷ pos 2 ∷ [])
        ∷ number (pos 1)
        ∷ done
        ∷ number (pos 5)
        ∷ number (pos 0)
        ∷ [])
unfolding answers new_rolling_counter advance inc rolling_sum_at get_buckets reset wrap64 time_sub
    ◌-ℤ◌ sub64 div64 rem64 add64 ◌+ℤ◌ get_total_sum
calls_run = refl

new-answers_example :
    (new_rolling_counter (pos 10) (pos 3) (pos 100) >>= λ c. answers c calls)
    ≡ some (promises 3 10 (pos 100) no_events calls)
new-answers_example = new-answers 3 10 (pos 100) calls (omega arith) (omega arith)

-- A library whose texts are the values themselves.
abbrev plain_json : Json.Codec Json.JsonCounter
plain_json = record { encode = λ x. some x; decode = λ x. some x }

usable : IsUsable 3 10
usable = omega arith

abbrev counter : RollingCounter
counter = (new-Represents 3 10 (pos 100) usable).0

abbrev other_counter : RollingCounter
other_counter = record counter { total_sum = pos 9 }

abbrev text : Json.JsonCounter
text = record {
  buckets = counter.buckets;
  rolling_sum = some (sum_buckets counter);
  total_sum = some counter.total_sum;
  rolling_bucket = some counter.rolling_bucket;
}

unmarshal_json-marshal_json_example :
    Json.unmarshal_json plain_json text other_counter ≡ (none, counter)
unfolding Json.marshal_json
unmarshal_json-marshal_json_example =
    unmarshal_json-marshal_json plain_json 3 10 (pos 100) no_events counter other_counter text
      (λ x y e. sym e) (new-Represents 3 10 (pos 100) usable).2 refl

-- Four buckets are said, and there are three.
abbrev wrong_text : Json.JsonCounter
wrong_text = record text {
  rolling_bucket = some (record counter.rolling_bucket { num_buckets = pos 4 });
}

unmarshal_json-Answered_example :
    Json.Answered other_counter (Json.unmarshal_json plain_json wrong_text other_counter)
unmarshal_json-Answered_example = unmarshal_json-Answered plain_json wrong_text other_counter
