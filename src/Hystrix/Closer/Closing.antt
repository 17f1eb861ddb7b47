-- ===== src/Hystrix/Closer/Closing.antt =====
-- closers/hystrix/closer.go in a circuit: the probe that closes it.
use circuit.Prelude.{
  ℕ, ℤ, pos, true, false, not, Bool-cases, inl, inr, Option, ◌≡◌, ◌∙◌, sym, ap, add64-pos, leb_ℤ,
  ◌+◌, ◌<◌, ◌^◌, if◌then◌else◌,
}
use circuit.Circuit.Errors.{Err}
use circuit.Circuit.Logic.{success, Parts}
use circuit.Circuit.World.{World}
use circuit.Circuit.Execute.{judge, is_interrupt}
use circuit.Circuit.Execute.Outcomes.{verdict, is_late, judge-closes}
use circuit.Circuit.Execute.Closing.{judge-does_close}
use circuit.Hystrix.Closer
use circuit.Hystrix.Closer.{Closer, started_while_open, should_close}
use circuit.Hystrix.Closer.Logic.{closer_logic, observe}

-- The successes in a row with this one: it counts only if its request started in this open episode.
abbrev pub with_this : ℤ → ℤ → Option ℤ → ℕ → ℕ
with_this done total opened_at n = if started_while_open done total opened_at then n + 1 else n

module _ {O E : Type 0} (q : Parts O Closer E) where
  -- The circuit with this closer.
  abbrev pub with_closer : Parts O Closer E
  with_closer = record q { open_to_close = closer_logic }

  observed :
      (done total : ℤ) (n : ℕ) (s : Closer)
      → s.concurrent_successful_attempts ≡ pos n
      → n + 1 < 2 ^ 63
      → should_close done (observe (success done total) s)
        ≡ leb_ℤ s.close_on_current_count (pos (with_this done total s.opened_at n))
  unfolding observe Closer.success should_close
  observed done total n s count room =
      elim (Bool-cases (started_while_open done total s.opened_at)) [
        | inl probe ↦ simp (probe, count, add64-pos n 1 room)
        | inr earlier ↦ simp (earlier, count)
      ]

  -- A successful run of an open circuit that is not forced open closes it exactly if the successes in a
  -- row of the requests that started in this open episode, this one included if it did, fewer than 2^63,
  -- have reached the required number; a run that started before the circuit opened does not count.
  pub judge-recovers :
      (ret : Option Err) (expected_done_by done total : ℤ) (n : ℕ) (w : World O Closer E)
      → verdict with_closer ret
          (is_late with_closer expected_done_by done)
          (is_interrupt with_closer ret (q.context_err w.env) w)
          done
          total
        ≡ success done total
      → w.is_open ≡ true
      → w.config.force_open ≡ false
      → w.closer.concurrent_successful_attempts ≡ pos n
      → n + 1 < 2 ^ 63
      → (judge with_closer ret expected_done_by done total w).1.is_open
        ≡ not (
            leb_ℤ w.closer.close_on_current_count (pos (with_this done total w.closer.opened_at n)))
  unfolding closer_logic
  judge-recovers ret expected_done_by done total n w kind is_open not_forced count room =
      let answer = observed done total n w.closer count room in
      let enough =
        leb_ℤ w.closer.close_on_current_count (pos (with_this done total w.closer.opened_at n)) in
      elim (Bool-cases enough) [
        | inl reached ↦
            judge-does_close with_closer ret expected_done_by done total w kind is_open not_forced
              (record { at_first = answer ∙ reached; again = answer ∙ reached })
            ∙ sym (ap not reached)
        | inr below ↦
            elim (Bool-cases (judge with_closer ret expected_done_by done total w).1.is_open) [
              | inl stays ↦ stays ∙ sym (ap not below)
              | inr closes ↦
                  let may =
                    judge-closes with_closer ret expected_done_by done total w is_open closes in
                  let agrees =
                    ap (λ event. should_close done (observe event w.closer)) (sym kind)
                    ∙ may.closer_agrees in
                  closes ∙ sym (ap not (sym answer ∙ agrees))
            ]
      ]
