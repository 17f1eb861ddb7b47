-- ===== src/Circuit/Execute/Outcomes.antt =====
-- circuit.go: what the result of the run function does to the circuit.
use circuit.Prelude.{
  ℤ, Bool, true, false, ◌&&◌, not, Option, some, none, ◌≡◌, refl, ◌∙◌, sym, ap, subst, arith,
  if◌then◌else◌, is_zero, before,
}
use circuit.Circuit.Errors.{Err, is_bad_request}
use circuit.Circuit.Logic.{
  RunEvent, success, err_failure, err_timeout, err_bad_request, err_interrupt,
  err_concurrency_limit_reject, err_short_circuit, Parts,
}
use circuit.Circuit.World.{World, emit, should_open, should_close}
use circuit.Circuit.Transitions.{transition_to, attempt_to_open}
use circuit.Circuit.Execute.{
  returned, check_success, is_interrupt, check_err_interrupt, check_err_bad_request, count_failure,
  check_err_failure, check_err_timeout, judge,
}

module _ {O C E : Type 0} (p : Parts O C E) where
  -- The kind of a run, by the order of the checks that the documentation gives.
  abbrev pub verdict : Option Err → Bool → Bool → ℤ → ℤ → RunEvent
  verdict none late interrupted done total =
      if late then err_timeout done total else success done total
  verdict (some e) late interrupted done total =
      if is_bad_request (some e)
      then err_bad_request done total
      else if late
      then err_timeout done total
      else if interrupted
      then err_interrupt done total
      else err_failure done total

  abbrev pub is_late : ℤ → ℤ → Bool
  is_late expected_done_by done = not (is_zero expected_done_by) && before expected_done_by done

  -- What the circuit does about a run of that kind, after the listeners have heard of it.
  abbrev pub respond : RunEvent → World O C E → World O C E
  respond (success done total) w =
      if w.is_open && not w.config.force_open
      then (let (ok, w') = should_close p done w in
          if ok then transition_to p done false (some (should_close p)) w' else w')
      else w
  respond (err_failure done total) w = if w.is_open then w else attempt_to_open p done w
  respond (err_timeout done total) w = if w.is_open then w else attempt_to_open p done w
  respond _ w = w

  pub judge-verdict :
      (ret : Option Err) (expected_done_by done total : ℤ) (w : World O C E)
      → (let event =
            verdict ret
              (is_late expected_done_by done)
              (is_interrupt p ret (p.context_err w.env) w)
              done
              total in
          judge p ret expected_done_by done total w
          ≡ (returned ret, respond event (emit p event w)))
  unfolding judge check_err_bad_request check_err_timeout check_err_interrupt check_err_failure
      check_success count_failure is_bad_request is_interrupt
  judge-verdict none expected_done_by done total w = grind arith
  judge-verdict (some e) expected_done_by done total w = grind arith

  abbrev pub counts_as_failure : RunEvent → Bool
  counts_as_failure (err_failure done total) = true
  counts_as_failure (err_timeout done total) = true
  counts_as_failure _ = false

  abbrev pub event_time : RunEvent → ℤ
  event_time (success t total) = t
  event_time (err_failure t total) = t
  event_time (err_timeout t total) = t
  event_time (err_bad_request t total) = t
  event_time (err_interrupt t total) = t
  event_time (err_concurrency_limit_reject t) = t
  event_time (err_short_circuit t) = t

  attempt_to_open-opens :
      (t : ℤ) (w : World O C E)
      → w.is_open ≡ false
      → (attempt_to_open p t w).is_open ≡ true
      → w.config.forced_closed ≡ false × (p.closed_to_open.should_open t w.opener).0 ≡ true
  unfolding attempt_to_open should_open
  attempt_to_open-opens t w is_closed opens = ground arith

  -- What it takes for a run of that kind to open a circuit in that state.
  pub record MayOpen (event : RunEvent) (t : ℤ) (w : World O C E) : Type 0 where
    pub failed : counts_as_failure event ≡ true
    pub not_forced : w.config.forced_closed ≡ false
    pub opener_agrees :
        (p.closed_to_open.should_open t (p.closed_to_open.observe event w.opener)).0 ≡ true

  failure-opens :
      (event : RunEvent) (t : ℤ) (w : World O C E)
      → counts_as_failure event ≡ true
      → w.is_open ≡ false
      → (if w.is_open then emit p event w else attempt_to_open p t (emit p event w)).is_open ≡ true
      → MayOpen event t w
  unfolding emit
  failure-opens event t w failed is_closed opens =
      let (not_forced, agrees) =
        attempt_to_open-opens t (emit p event w) is_closed (ground arith) in
      record { failed = failed; not_forced = not_forced; opener_agrees = agrees }

  respond-opens :
      (event : RunEvent) (w : World O C E)
      → w.is_open ≡ false
      → (respond event (emit p event w)).is_open ≡ true
      → MayOpen event (event_time event) w
  unfolding emit
  respond-opens (success done total) w is_closed opens = ground arith
  respond-opens (err_failure done total) w is_closed opens =
      failure-opens (err_failure done total) done w refl is_closed opens
  respond-opens (err_timeout done total) w is_closed opens =
      failure-opens (err_timeout done total) done w refl is_closed opens
  respond-opens (err_bad_request done total) w is_closed opens = ground arith
  respond-opens (err_interrupt done total) w is_closed opens = ground arith
  respond-opens (err_concurrency_limit_reject t) w is_closed opens = ground arith
  respond-opens (err_short_circuit t) w is_closed opens = ground arith

  pub verdict-event_time :
      (ret : Option Err) (late interrupted : Bool) (done total : ℤ)
      → event_time (verdict ret late interrupted done total) ≡ done
  verdict-event_time none late interrupted done total = ground arith
  verdict-event_time (some e) late interrupted done total = ground arith

  -- A run opens a closed circuit only if it failed or was late, the circuit is not forced closed, and
  -- the opener, which had heard of this run and of no later one, said that the circuit should open.
  pub judge-opens :
      (ret : Option Err) (expected_done_by done total : ℤ) (w : World O C E)
      → w.is_open ≡ false
      → (judge p ret expected_done_by done total w).1.is_open ≡ true
      → MayOpen
          (verdict ret
            (is_late expected_done_by done)
            (is_interrupt p ret (p.context_err w.env) w)
            done
            total)
          done
          w
  judge-opens ret expected_done_by done total w is_closed opens =
      let late = is_late expected_done_by done in
      let interrupted = is_interrupt p ret (p.context_err w.env) w in
      let event = verdict ret late interrupted done total in
      let responded =
        sym (ap (λ r. r.1.is_open) (judge-verdict ret expected_done_by done total w)) ∙ opens in
      subst (λ t. MayOpen event t w) (verdict-event_time ret late interrupted done total)
        (respond-opens event w is_closed responded)

  -- What it takes for a run of that kind to close a circuit in that state.
  pub record MayClose (event : RunEvent) (t total : ℤ) (w : World O C E) : Type 0 where
    pub succeeded : event ≡ success t total
    pub not_forced : w.config.force_open ≡ false
    pub closer_agrees :
        (p.open_to_close.should_close t (p.open_to_close.observe event w.closer)).0 ≡ true

  success-closes :
      (t total : ℤ) (w : World O C E)
      → w.is_open ≡ true
      → (respond (success t total) (emit p (success t total) w)).is_open ≡ false
      → MayClose (success t total) t total w
  unfolding emit should_close
  success-closes t total w is_open closes = record {
    succeeded = refl;
    not_forced = ground arith;
    closer_agrees = ground arith;
  }

  verdict-closes :
      (ret : Option Err) (late interrupted : Bool) (t total : ℤ) (w : World O C E)
      → w.is_open ≡ true
      → (let event = verdict ret late interrupted t total in
          (respond event (emit p event w)).is_open ≡ false → MayClose event t total w)
  unfolding emit
  verdict-closes none true interrupted t total w is_open closes = ground arith
  verdict-closes none false interrupted t total w is_open closes =
      success-closes t total w is_open closes
  verdict-closes (some e) late interrupted t total w is_open closes = ground arith

  -- A run closes an open circuit only if it was a success in time, the circuit is not forced open, and
  -- the closer, which had heard of this run and of no later one, said that the circuit should close.
  pub judge-closes :
      (ret : Option Err) (expected_done_by done total : ℤ) (w : World O C E)
      → w.is_open ≡ true
      → (judge p ret expected_done_by done total w).1.is_open ≡ false
      → MayClose
          (verdict ret
            (is_late expected_done_by done)
            (is_interrupt p ret (p.context_err w.env) w)
            done
            total)
          done
          total
          w
  judge-closes ret expected_done_by done total w is_open closes =
      let late = is_late expected_done_by done in
      let interrupted = is_interrupt p ret (p.context_err w.env) w in
      verdict-closes ret late interrupted done total w is_open
        (sym (ap (λ r. r.1.is_open) (judge-verdict ret expected_done_by done total w)) ∙ closes)
