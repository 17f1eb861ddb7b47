-- ===== src/Hystrix/Opener/Opening.antt =====
-- closers/hystrix/opener.go in a circuit: the run that opens it.
use circuit.Prelude.{
  ℕ, ℤ, pos, true, false, Bool, Bool-cases, inl, inr, ◌⊎◌, subst, Option, some, ◌>>=◌, ◌≡◌, refl,
  ◌∙◌, sym, ap, ◌*◌, ◌<◌, ◌^◌, length,
}
use circuit.Faststats.RollingCounter.History.{History, index?, moved, recorded}
use circuit.Circuit.Errors.{Err}
use circuit.Circuit.Logic.{RunEvent, err_failure, err_timeout, Parts}
use circuit.Circuit.World.{World}
use circuit.Circuit.Execute.{judge, is_interrupt}
use circuit.Circuit.Execute.Outcomes.{verdict, is_late, counts_as_failure, judge-opens}
use circuit.Circuit.Execute.Opening.{judge-does_open}
use circuit.Hystrix.Opener
use circuit.Hystrix.Opener.{Opener, should_open}
use circuit.Hystrix.Opener.Threshold
use circuit.Hystrix.Opener.Threshold.{
  Tally, tally, failures, Holds, decision, react-Holds, should_open-decision, moved-moved,
}
use circuit.Hystrix.Opener.Logic.{react, answered, opener_logic}

-- The attempts and the errors in the window at `now`, with one more of each at that time.
abbrev pub with_failure : ℕ → ℕ → ℤ → ℤ → History → ℕ
with_failure n w start now h =
    let i = index? start w now in length (moved n i (recorded n i h)).events

module _ (n w : ℕ) (start : ℤ) (p : ℕ) (now : ℤ) (t : Tally) (e : Opener) where
  -- What is known of the opener before a failure at that time, and that no product overflows.
  pub record Ready : Type 0 where
    pub holds : Holds n w start t e
    pub percentage : e.error_percentage ≡ pos p
    pub attempts_fit : with_failure n w start now t.attempts < 2 ^ 63
    pub percentage_fits : p * with_failure n w start now t.attempts < 2 ^ 63
    pub errors_fit : with_failure n w start now t.errors * 100 < 2 ^ 63

  -- The decision on the window with the failure.
  abbrev pub decided : Bool
  decided =
      decision p e.request_volume (with_failure n w start now t.attempts)
        (with_failure n w start now t.errors)

  -- After it has heard of the failure the opener decides so, and again when it is asked again.
  record Decides (o : Option Opener) : Type 0 where
    at_first : (answered (o >>= λ e'. should_open now e')).0 ≡ decided
    again :
        (answered ((answered (o >>= λ e'. should_open now e')).1 >>= λ e'. should_open now e')).0
        ≡ decided

  failure-Decides : Ready → Decides (Opener.err_failure now e)
  unfolding tally Threshold.react
  failure-Decides r =
      let a = with_failure n w start now t.attempts in
      let b = with_failure n w start now t.errors in
      let i = index? start w now in
      let t₁ = tally n w start (failures now) t in
      let (e₁, run, v₁, same_p, same_v) = react-Holds n w start (failures now) t e r.holds in
      let (t₂, e₂, run₂, v₂, attempts₂, errors₂, same_p₂, same_v₂) =
        should_open-decision n w start now p a b t₁ e₁ v₁ (same_p ∙ r.percentage) refl refl
          r.percentage_fits r.attempts_fit r.errors_fit in
      let (t₃, e₃, run₃, _, _, _, _, _) =
        should_open-decision n w start now p a b t₂ e₂ v₂ (same_p₂ ∙ same_p ∙ r.percentage)
          (ap (λ h. length (moved n i h).events) attempts₂
            ∙ ap (λ h. length h.events) (moved-moved n i t₁.attempts))
          (ap (λ h. length h.events) errors₂) r.percentage_fits r.attempts_fit r.errors_fit in
      record {
        at_first = rw (run, run₂) (ap (λ v. decision p v a b) same_v);
        again = rw (run, run₂, run₃) (ap (λ v. decision p v a b) (same_v₂ ∙ same_v));
      }

  react-Decides :
      (total : ℤ) (event : RunEvent)
      → event ≡ err_failure now total ⊎ event ≡ err_timeout now total
      → Ready
      → Decides (react event e)
  unfolding react Opener.err_timeout Opener.err_failure
  react-Decides total event (inl failed) r =
      subst (λ ev. Decides (react ev e)) (sym failed) (failure-Decides r)
  react-Decides total event (inr late) r =
      subst (λ ev. Decides (react ev e)) (sym late) (failure-Decides r)

module _ {C E : Type 0} (q : Parts (Option Opener) C E) where
  -- The circuit with this opener.
  abbrev pub with_opener : Parts (Option Opener) C E
  with_opener = record q { closed_to_open = opener_logic }

  -- A run that failed or was late, of a closed circuit that is not forced closed, opens it exactly if the
  -- window with this run decides so: enough attempts, and a percentage of errors that has reached the
  -- threshold, where the opener holds a window of which no product overflows.
  pub judge-decided :
      (ret : Option Err) (expected_done_by done total : ℤ) (event : RunEvent) (n w : ℕ) (start : ℤ)
      (p : ℕ) (t : Tally) (e : Opener) (c : World (Option Opener) C E)
      → verdict with_opener ret
          (is_late with_opener expected_done_by done)
          (is_interrupt with_opener ret (q.context_err c.env) c)
          done
          total
        ≡ event
      → event ≡ err_failure done total ⊎ event ≡ err_timeout done total
      → c.is_open ≡ false
      → c.config.forced_closed ≡ false
      → c.opener ≡ some e
      → Ready n w start p done t e
      → (judge with_opener ret expected_done_by done total c).1.is_open
        ≡ decided n w start p done t e
  unfolding opener_logic
  judge-decided ret expected_done_by done total event n w start p t e c kind failed is_closed
        not_forced opener ready =
      let answer : Decides n w start p done t e (c.opener >>= λ e'. react event e') =
        subst (λ o. Decides n w start p done t e (o >>= λ e'. react event e')) (sym opener)
          (react-Decides n w start p done t e total event failed ready) in
      let counts = counted total event failed in
      elim (Bool-cases (decided n w start p done t e)) [
        | inl reached ↦
            judge-does_open with_opener ret expected_done_by done total c event kind counts
              is_closed not_forced
              (record { at_first = answer.at_first ∙ reached; again = answer.again ∙ reached })
            ∙ sym reached
        | inr below ↦
            elim (Bool-cases (judge with_opener ret expected_done_by done total c).1.is_open) [
              | inr stays ↦ stays ∙ sym below
              | inl opens ↦
                  let may =
                    judge-opens with_opener ret expected_done_by done total c is_closed opens in
                  let agrees =
                    ap
                      (λ ev.
                        (answered
                          ((c.opener >>= λ e'. react ev e') >>= λ e'. should_open done e')).0)
                      (sym kind)
                    ∙ may.opener_agrees in
                  opens ∙ sym (sym answer.at_first ∙ agrees)
            ]
      ]
    where
      counted :
          (total : ℤ) (event : RunEvent)
          → event ≡ err_failure done total ⊎ event ≡ err_timeout done total
          → counts_as_failure with_opener event ≡ true
      counted total event (inl f) = ap (counts_as_failure with_opener) f
      counted total event (inr l) = ap (counts_as_failure with_opener) l
