-- ===== src/Circuit/Execute/Kept.antt =====
-- circuit.go: what `run` does after the run function leaves the counts of running requests alone.
use circuit.Prelude.{ℤ, Bool, true, false, Option, some, none, List, [], ◌∷◌, ◌≡◌, ◌∙◌, refl, arith}
use circuit.Circuit.Errors.{Err}
use circuit.Circuit.Logic.{RunEvent, success, err_failure, err_timeout, Parts, Transition}
use circuit.Circuit.World.{World, now, emit, should_open, should_close}
use circuit.Circuit.Transitions
use circuit.Circuit.Transitions.{
  same, flip, drain, deliver_pending_transitions, commit_transition, transition_to, attempt_to_open,
}
use circuit.Circuit.Execute.{
  check_success, check_err_interrupt, check_err_bad_request, check_err_failure, check_err_timeout,
  count_failure, judge,
}

module _ {O C E : Type 0} where
  -- The two counts are the same in both states.
  pub record Kept (w w' : World O C E) : Type 0 where
    pub commands : w'.concurrent_commands ≡ w.concurrent_commands
    pub fallbacks : w'.concurrent_fallbacks ≡ w.concurrent_fallbacks

  pub Kept-trans : {a b c : World O C E} → Kept a b → Kept b c → Kept a c
  Kept-trans h k = record {
    commands = k.commands ∙ h.commands;
    fallbacks = k.fallbacks ∙ h.fallbacks;
  }

module _ {O C E : Type 0} (p : Parts O C E) where
  drain-Kept : (ts : List Transition) (w : World O C E) → Kept w (drain p ts w)
  unfolding drain Transitions.notify_listeners
  drain-Kept [] w = record { commands = refl; fallbacks = refl }
  drain-Kept (t ∷ ts) w =
      let k =
        drain-Kept ts (Transitions.notify_listeners p t (record w { pending_transitions = ts })) in
      record { commands = k.commands; fallbacks = k.fallbacks }

  deliver-Kept : (w : World O C E) → Kept w (deliver_pending_transitions p w)
  unfolding deliver_pending_transitions
  deliver-Kept w =
      ground (arith, drain-Kept w.pending_transitions (record w { delivering_transitions = true }))

  flip-Kept : (t : ℤ) (open? : Bool) (w : World O C E) → Kept w (flip p t open? w)
  unfolding flip Transitions.notify_state_machines now
  flip-Kept t open? w = record { commands = refl; fallbacks = refl }

  transition_to_ask-Kept :
      (t : ℤ) (open? : Bool) (recheck : Transitions.Recheck p) (w : World O C E)
      → Kept w (recheck t w).1
      → Kept w (transition_to p t open? (some recheck) w)
  unfolding transition_to commit_transition Transitions.ask
  transition_to_ask-Kept t open? recheck w k =
      let asked = (recheck t w).1 in
      ground
        (arith, flip-Kept t open? asked, deliver-Kept asked, deliver-Kept (flip p t open? asked))

  attempt_to_open-Kept : (t : ℤ) (w : World O C E) → Kept w (attempt_to_open p t w)
  unfolding attempt_to_open should_open
  attempt_to_open-Kept t w =
      let asked = (should_open p t w).1 in
      ground (
        arith,
        transition_to_ask-Kept t true (should_open p) asked
            (record { commands = refl; fallbacks = refl }),
      )

  count_failure-Kept : (ev : RunEvent) (t : ℤ) (w : World O C E) → Kept w (count_failure p ev t w)
  unfolding count_failure emit
  count_failure-Kept ev t w = ground (arith, attempt_to_open-Kept t (emit p ev w))

  check_success-Kept : (done total : ℤ) (w : World O C E) → Kept w (check_success p done total w)
  unfolding check_success emit should_close
  check_success-Kept done total w =
      let seen = emit p (success done total) w in
      let asked = (should_close p done seen).1 in
      ground (
        arith,
        transition_to_ask-Kept done false (should_close p) asked
            (record { commands = refl; fallbacks = refl }),
      )

  check_err_failure-Kept :
      (ret : Option Err) (done total : ℤ) (w : World O C E)
      → Kept w (check_err_failure p ret done total w).1
  unfolding check_err_failure
  check_err_failure-Kept none done total w = record { commands = refl; fallbacks = refl }
  check_err_failure-Kept (some e) done total w = count_failure-Kept (err_failure done total) done w

  check_err_timeout-Kept :
      (expected done total : ℤ) (w : World O C E)
      → Kept w (check_err_timeout p expected done total w).1
  unfolding check_err_timeout
  check_err_timeout-Kept expected done total w =
      ground (arith, count_failure-Kept (err_timeout done total) done w)

  check_err_bad_request-Kept :
      (ret : Option Err) (done total : ℤ) (w : World O C E)
      → Kept w (check_err_bad_request p ret done total w).1
  unfolding check_err_bad_request emit
  check_err_bad_request-Kept ret done total w = ground arith

  check_err_interrupt-Kept :
      (ret : Option Err) (done total : ℤ) (w : World O C E)
      → Kept w (check_err_interrupt p ret done total w).1
  unfolding check_err_interrupt emit
  check_err_interrupt-Kept ret done total w = ground arith

  pub judge-Kept :
      (ret : Option Err) (expected done total : ℤ) (w : World O C E)
      → Kept w (judge p ret expected done total w).1
  unfolding judge
  judge-Kept ret expected done total w =
      let w₁ = (check_err_bad_request p ret done total w).1 in
      let w₂ = (check_err_timeout p expected done total w₁).1 in
      let w₃ = (check_err_interrupt p ret done total w₂).1 in
      let w₄ = (check_err_failure p ret done total w₃).1 in
      ground (
        arith,
        check_err_bad_request-Kept ret done total w,
        check_err_timeout-Kept expected done total w₁,
        check_err_interrupt-Kept ret done total w₂,
        check_err_failure-Kept ret done total w₃,
        check_success-Kept done total w₄,
      )
