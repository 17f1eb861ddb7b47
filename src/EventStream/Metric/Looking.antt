-- ===== src/EventStream/Metric/Looking.antt =====
-- metriceventstream/metriceventstream.go: counters that are read several times at one time answer as one
-- look at their windows does.
use circuit.Prelude.{
  ℕ, ℤ, pos, List, length, some, ◌+◌, ◌≡◌, refl, ap, ◌∙◌, wrap64, add64-wrap64_pos, eqb_ℤ,
  Bool-cases, inl, inr, if◌then◌else◌,
}
use circuit.Faststats.RollingCounter.{RollingCounter, rolling_sum_at}
use circuit.Faststats.RollingCounter.History.{History, index?, moved, Represents}
use circuit.Faststats.RollingCounter.Refinement.{rolling_sum_at-Represents}
use circuit.Faststats.RollingPercentile.{RollingPercentile}
use circuit.Faststats.SortedDurations.{Float64}
use circuit.Hystrix.Opener.Threshold.{moved-moved}
use circuit.Rolling.RunStats.{RunStats, errors_at, legitimate_attempts_at, error_percentage_at}
use circuit.Rolling.RunStats.Counting.{
  Kind, successes, rejects, failures, short_circuits, timeouts, bad_requests, interrupts, Event,
  window, Holds,
}
use circuit.Rolling.RunStats.Configured.{in_window}
use circuit.EventStream.Metric.{counter, put_counter, sum_at}

-- What holds of each counter holds after one is replaced by another of which it holds.
put_counter-each :
    (P : Kind → RollingCounter → Type 0) (kind j : Kind) (c : RollingCounter) (r : RunStats)
    → P kind c
    → P j (counter j r)
    → P j (counter j (put_counter kind c r))
put_counter-each P successes successes c r a b = a
put_counter-each P successes _ c r a b = b
put_counter-each P rejects rejects c r a b = a
put_counter-each P rejects _ c r a b = b
put_counter-each P failures failures c r a b = a
put_counter-each P failures _ c r a b = b
put_counter-each P short_circuits short_circuits c r a b = a
put_counter-each P short_circuits _ c r a b = b
put_counter-each P timeouts timeouts c r a b = a
put_counter-each P timeouts _ c r a b = b
put_counter-each P bad_requests bad_requests c r a b = a
put_counter-each P bad_requests _ c r a b = b
put_counter-each P interrupts interrupts c r a b = a
put_counter-each P interrupts _ c r a b = b

module _ (n w : ℕ) (start now : ℤ) (es : List Event) where
  -- A counter has the window of the outcomes of its kind, perhaps not yet moved to the present.
  abbrev View : Kind → RollingCounter → Type 0
  View kind c =
      let i = index? start w now in
      (h : History) × (moved n i h ≡ moved n i (window n w start kind es))
      × Represents n w start h c

  abbrev pub Views : RunStats → Type 0
  Views r = (kind : Kind) → View kind (counter kind r)

  pub Holds-Views :
      (k v m : ℕ) (r : RunStats) (l : RollingPercentile)
      → Holds n w start k v m es r
      → Views (record r { latencies = l })
  Holds-Views k v m r l h successes = (_, refl, h.successes)
  Holds-Views k v m r l h rejects = (_, refl, h.rejects)
  Holds-Views k v m r l h failures = (_, refl, h.failures)
  Holds-Views k v m r l h short_circuits = (_, refl, h.short_circuits)
  Holds-Views k v m r l h timeouts = (_, refl, h.timeouts)
  Holds-Views k v m r l h bad_requests = (_, refl, h.bad_requests)
  Holds-Views k v m r l h interrupts = (_, refl, h.interrupts)

  -- How many outcomes of a kind are in the window.
  abbrev pub seen : Kind → ℤ
  seen kind = wrap64 (pos (in_window n w start kind now es))

  -- A look at one counter.
  look :
      (kind : Kind) (r : RunStats)
      → Views r
      → (c : RollingCounter) × (rolling_sum_at (counter kind r) now ≡ some (seen kind, c))
        × Views (put_counter kind c r)
  look kind r v =
      let i = index? start w now in
      let (h, e, holds) = v kind in
      let (c, run, holds') = rolling_sum_at-Represents n w start h (counter kind r) now holds in
      (
        c,
        run ∙ ap (λ x. some (wrap64 (pos (length x.events)), c)) e,
        λ j. put_counter-each View kind j c r (moved n i h, moved-moved n i h ∙ e, holds') (v j),
      )

  pub sum_at-Views :
      (kind : Kind) (r : RunStats)
      → Views r
      → (r' : RunStats) × (sum_at kind now r ≡ some (seen kind, r')) × Views r'
  unfolding sum_at
  sum_at-Views kind r v =
      let (c, run, v') = look kind r v in (put_counter kind c r, rw run refl, v')

  -- The errors, and the attempts.
  abbrev pub errors : ℕ
  errors = in_window n w start failures now es + in_window n w start timeouts now es

  abbrev pub attempts : ℕ
  attempts = in_window n w start successes now es + errors

  pub errors_at-Views :
      (r : RunStats)
      → Views r
      → (r' : RunStats) × (errors_at now r ≡ some (wrap64 (pos errors), r')) × Views r'
  unfolding errors_at
  errors_at-Views r v =
      let (c, run, v₁) = look failures r v in
      let (c', run', v₂) = look timeouts (put_counter failures c r) v₁ in
      let r' = put_counter timeouts c' (put_counter failures c r) in
      (
        r',
        rw (run, run')
            (ap (λ x. some (x, r'))
              (add64-wrap64_pos (in_window n w start failures now es)
                (in_window n w start timeouts now es))),
        v₂,
      )

  pub legitimate_attempts_at-Views :
      (r : RunStats)
      → Views r
      → (r' : RunStats) × (legitimate_attempts_at now r ≡ some (wrap64 (pos attempts), r'))
        × Views r'
  unfolding legitimate_attempts_at
  legitimate_attempts_at-Views r v =
      let (c, run, v₁) = look successes r v in
      let (r', run', v₂) = errors_at-Views (put_counter successes c r) v₁ in
      (
        r',
        rw (run, run')
            (ap (λ x. some (x, r'))
              (add64-wrap64_pos (in_window n w start successes now es) errors)),
        v₂,
      )

  -- The share of the errors in the attempts, or zero.
  abbrev pub share : (f : Float64) → f.F
  share f =
      if eqb_ℤ (wrap64 (pos attempts)) (pos 0)
      then f.of_int (pos 0)
      else f.div (f.of_int (wrap64 (pos errors))) (f.of_int (wrap64 (pos attempts)))

  pub error_percentage_at-Views :
      (f : Float64) (r : RunStats)
      → Views r
      → (r' : RunStats) × (error_percentage_at f now r ≡ some (share f, r')) × Views r'
  unfolding error_percentage_at
  error_percentage_at-Views f r v =
      let (r₁, run, v₁) = legitimate_attempts_at-Views r v in
      let (r₂, run', v₂) = errors_at-Views r₁ v₁ in
      elim (Bool-cases (eqb_ℤ (wrap64 (pos attempts)) (pos 0))) [
        | inl none_yet ↦ (r₁, rw (run, none_yet) refl, v₁)
        | inr some_yet ↦ (r₂, rw (run, some_yet, run') refl, v₂)
      ]
