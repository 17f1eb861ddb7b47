-- ===== src/Circuit/Execute/Closing.antt =====
-- circuit.go: when a successful run does close the circuit.
use circuit.Prelude.{ℤ, true, false, Option, ◌≡◌, ◌∙◌, ap, arith}
use circuit.Circuit.Errors.{Err}
use circuit.Circuit.Logic.{success, Parts}
use circuit.Circuit.World.{World, emit, should_close}
use circuit.Circuit.Transitions.{transition_to, commit_transition, ask, flip}
use circuit.Circuit.Execute.{judge, is_interrupt}
use circuit.Circuit.Execute.Outcomes.{verdict, is_late, respond, judge-verdict}
use circuit.Circuit.Execute.Opening.{deliver-is_open, flip-is_open}

module _ {O C E : Type 0} (p : Parts O C E) where
  -- The closer agrees both times that it is asked.
  pub record Agrees (t : ℤ) (c : C) : Type 0 where
    pub at_first : (p.open_to_close.should_close t c).0 ≡ true
    pub again : (p.open_to_close.should_close t (p.open_to_close.should_close t c).1).0 ≡ true

  respond-does_close :
      (t total : ℤ) (w : World O C E)
      → w.is_open ≡ true
      → w.config.force_open ≡ false
      → Agrees t (p.open_to_close.observe (success t total) w.closer)
      → (respond p (success t total) (emit p (success t total) w)).is_open ≡ false
  unfolding emit should_close transition_to commit_transition ask
  respond-does_close t total w is_open not_forced agrees =
      let asked = (should_close p t (should_close p t (emit p (success t total) w)).1).1 in
      ground (
        arith,
        agrees.at_first,
        agrees.again,
        deliver-is_open p (flip p t false asked),
        flip-is_open p t false asked,
      )

  -- A successful run closes a circuit that is open and not forced open, if the closer, which has heard of
  -- the run, agrees both when it is asked first and when it is asked again.
  pub judge-does_close :
      (ret : Option Err) (expected_done_by done total : ℤ) (w : World O C E)
      → verdict p ret
          (is_late p expected_done_by done)
          (is_interrupt p ret (p.context_err w.env) w)
          done
          total
        ≡ success done total
      → w.is_open ≡ true
      → w.config.force_open ≡ false
      → Agrees done (p.open_to_close.observe (success done total) w.closer)
      → (judge p ret expected_done_by done total w).1.is_open ≡ false
  judge-does_close ret expected_done_by done total w kind is_open not_forced agrees =
      ap (λ r. r.1.is_open) (judge-verdict p ret expected_done_by done total w)
      ∙ ap (λ ev. (respond p ev (emit p ev w)).is_open) kind
      ∙ respond-does_close done total w is_open not_forced agrees
