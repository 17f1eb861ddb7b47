-- ===== src/SimpleLogic/Opening.antt =====
-- closers/simplelogic/closers.go in a circuit: the run that opens it.
use circuit.Prelude.{
  ℕ, ℤ, pos, false, Bool-cases, inl, inr, Option, ◌≡◌, refl, ◌∙◌, sym, ap, add64, add64-pos, leb_ℤ,
  ◌+◌, ◌<◌, ◌^◌,
}
use circuit.Circuit.Errors.{Err}
use circuit.Circuit.Logic.{err_failure, Parts}
use circuit.Circuit.World.{World}
use circuit.Circuit.Execute.{judge, is_interrupt}
use circuit.Circuit.Execute.Outcomes.{verdict, is_late, judge-opens}
use circuit.Circuit.Execute.Opening.{judge-does_open}
use circuit.SimpleLogic.{ConsecutiveErrOpener, observe, should_open, consecutive_err_logic}

module _ {C E : Type 0} (q : Parts ConsecutiveErrOpener C E) where
  -- The circuit with this opener.
  abbrev pub with_opener : Parts ConsecutiveErrOpener C E
  with_opener = record q { closed_to_open = consecutive_err_logic }

  -- A failed run of a closed circuit that is not forced closed opens it exactly if the failures in a row
  -- have reached the threshold with this one.
  pub judge-threshold :
      (ret : Option Err) (expected_done_by done total : ℤ) (n : ℕ)
      (w : World ConsecutiveErrOpener C E)
      → verdict with_opener ret
          (is_late with_opener expected_done_by done)
          (is_interrupt with_opener ret (q.context_err w.env) w)
          done
          total
        ≡ err_failure done total
      → w.is_open ≡ false
      → w.config.forced_closed ≡ false
      → w.opener.consecutive_count ≡ pos n
      → n + 1 < 2 ^ 63
      → (judge with_opener ret expected_done_by done total w).1.is_open
        ≡ leb_ℤ w.opener.close_threshold (pos (n + 1))
  unfolding consecutive_err_logic observe should_open
  judge-threshold ret expected_done_by done total n w kind is_closed not_forced count room =
      let up = ap (λ k. add64 k (pos 1)) count ∙ add64-pos n 1 room in
      let answer = ap (leb_ℤ w.opener.close_threshold) up in
      elim (Bool-cases (leb_ℤ w.opener.close_threshold (pos (n + 1)))) [
        | inl reached ↦
            judge-does_open with_opener ret expected_done_by done total w (err_failure done total)
              kind refl is_closed not_forced
              (record { at_first = answer ∙ reached; again = answer ∙ reached })
            ∙ sym reached
        | inr below ↦
            elim (Bool-cases (judge with_opener ret expected_done_by done total w).1.is_open) [
              | inl opens ↦
                  let may =
                    judge-opens with_opener ret expected_done_by done total w is_closed opens in
                  let agrees =
                    ap
                      (λ event.
                        leb_ℤ (observe event w.opener).close_threshold
                          (observe event w.opener).consecutive_count)
                      (sym kind)
                    ∙ may.opener_agrees in
                  opens ∙ sym (sym answer ∙ agrees)
              | inr stays ↦ stays ∙ sym below
            ]
      ]
