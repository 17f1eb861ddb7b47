-- ===== src/Circuit/Execute/Opening.antt =====
-- circuit.go: when a failed run does open the circuit.
use circuit.Prelude.{
  ℤ, Bool, true, false, Option, List, [], ◌∷◌, ◌≡◌, refl, ◌∙◌, sym, ap, subst, arith, if◌then◌else◌,
}
use circuit.Circuit.Errors.{Err}
use circuit.Circuit.Logic.{
  RunEvent, success, err_failure, err_timeout, err_bad_request, err_interrupt,
  err_concurrency_limit_reject, err_short_circuit, Transition, Parts,
}
use circuit.Circuit.World.{World, emit, should_open, now}
use circuit.Circuit.Transitions.{
  attempt_to_open, transition_to, commit_transition, ask, flip, notify_state_machines,
  deliver_pending_transitions, drain, notify_listeners,
}
use circuit.Circuit.Execute.{judge, is_interrupt}
use circuit.Circuit.Execute.Outcomes.{
  verdict, is_late, respond, counts_as_failure, event_time, verdict-event_time, judge-verdict,
}

module _ {O C E : Type 0} (p : Parts O C E) where
  pub drain-is_open : (ts : List Transition) (w : World O C E) → (drain p ts w).is_open ≡ w.is_open
  unfolding drain notify_listeners
  drain-is_open [] w = refl
  drain-is_open (t ∷ ts) w =
      drain-is_open ts (notify_listeners p t (record w { pending_transitions = ts }))

  pub deliver-is_open : (w : World O C E) → (deliver_pending_transitions p w).is_open ≡ w.is_open
  unfolding deliver_pending_transitions
  deliver-is_open w =
      ground
        (arith, drain-is_open w.pending_transitions (record w { delivering_transitions = true }))

  pub flip-is_open : (t : ℤ) (open? : Bool) (w : World O C E) → (flip p t open? w).is_open ≡ open?
  unfolding flip notify_state_machines now
  flip-is_open t open? w = refl

  -- The opener agrees both times that it is asked.
  pub record Agrees (t : ℤ) (o : O) : Type 0 where
    pub at_first : (p.closed_to_open.should_open t o).0 ≡ true
    pub again : (p.closed_to_open.should_open t (p.closed_to_open.should_open t o).1).0 ≡ true

  attempt_to_open-does_open :
      (t : ℤ) (w : World O C E)
      → w.config.forced_closed ≡ false
      → Agrees t w.opener
      → (attempt_to_open p t w).is_open ≡ true
  unfolding attempt_to_open should_open transition_to commit_transition ask
  attempt_to_open-does_open t w not_forced agrees =
      let asked = (should_open p t (should_open p t w).1).1 in
      ground (
        arith,
        agrees.at_first,
        agrees.again,
        deliver-is_open (flip p t true asked),
        flip-is_open t true asked,
      )

  failure-does_open :
      (event : RunEvent) (t : ℤ) (w : World O C E)
      → w.is_open ≡ false
      → w.config.forced_closed ≡ false
      → Agrees t (p.closed_to_open.observe event w.opener)
      → (if w.is_open then emit p event w else attempt_to_open p t (emit p event w)).is_open ≡ true
  unfolding emit
  failure-does_open event t w is_closed not_forced agrees =
      ground (arith, attempt_to_open-does_open t (emit p event w) not_forced agrees)

  respond-does_open :
      (event : RunEvent) (w : World O C E)
      → counts_as_failure p event ≡ true
      → w.is_open ≡ false
      → w.config.forced_closed ≡ false
      → Agrees (event_time p event) (p.closed_to_open.observe event w.opener)
      → (respond p event (emit p event w)).is_open ≡ true
  unfolding emit
  respond-does_open (err_failure t total) w failed is_closed not_forced agrees =
      failure-does_open (err_failure t total) t w is_closed not_forced agrees
  respond-does_open (err_timeout t total) w failed is_closed not_forced agrees =
      failure-does_open (err_timeout t total) t w is_closed not_forced agrees
  respond-does_open (success t total) w failed is_closed not_forced agrees = ground arith
  respond-does_open (err_bad_request t total) w failed is_closed not_forced agrees = ground arith
  respond-does_open (err_interrupt t total) w failed is_closed not_forced agrees = ground arith
  respond-does_open (err_concurrency_limit_reject t) w failed is_closed not_forced agrees =
      ground arith
  respond-does_open (err_short_circuit t) w failed is_closed not_forced agrees = ground arith

  -- A run that failed or was late opens a circuit that is closed and not forced closed, if the opener,
  -- which has heard of the run, agrees both when it is asked first and when it is asked again.
  pub judge-does_open :
      (ret : Option Err) (expected_done_by done total : ℤ) (w : World O C E) (event : RunEvent)
      → verdict p ret
          (is_late p expected_done_by done)
          (is_interrupt p ret (p.context_err w.env) w)
          done
          total
        ≡ event
      → counts_as_failure p event ≡ true
      → w.is_open ≡ false
      → w.config.forced_closed ≡ false
      → Agrees done (p.closed_to_open.observe event w.opener)
      → (judge p ret expected_done_by done total w).1.is_open ≡ true
  judge-does_open ret expected_done_by done total w event kind failed is_closed not_forced agrees =
      let late = is_late p expected_done_by done in
      let interrupted = is_interrupt p ret (p.context_err w.env) w in
      let timed : event_time p event ≡ done =
        ap (event_time p) (sym kind) ∙ verdict-event_time p ret late interrupted done total in
      ap (λ r. r.1.is_open) (judge-verdict p ret expected_done_by done total w)
      ∙ ap (λ ev. (respond p ev (emit p ev w)).is_open) kind
      ∙ respond-does_open event w failed is_closed not_forced
          (subst (λ t. Agrees t (p.closed_to_open.observe event w.opener)) (sym timed) agrees)
