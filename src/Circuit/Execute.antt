-- ===== src/Circuit/Execute.antt =====
-- circuit.go: `Execute`. The run and fallback functions are arbitrary code: they may change the whole
-- state, as other goroutines do meanwhile, and may panic. A nil function is `none`.
pub mod Kept
pub mod Counters
pub mod Refusals
pub mod Outcomes
pub mod Opening
pub mod Closing
use circuit.Prelude.{
  ℤ, pos, negsuc, Bool, true, false, ◌&&◌, not, Option, some, none, if◌then◌else◌, add64, leb_ℤ,
  ltb_ℤ, time_add, time_sub, before, is_zero, zero_time, leb, ltb, ◌==◌, pos_part, neg_part,
}
use circuit.Circuit.Errors.{
  Err, is_bad_request, err_circuit_open, err_throttled_concurrent_commands,
  err_throttled_concurrent_fallbacks,
}
use circuit.Circuit.Logic.{
  RunEvent, success, err_failure, err_timeout, err_bad_request, err_interrupt,
  err_concurrency_limit_reject, err_short_circuit, fallback_success, fallback_failure,
  fallback_reject, Parts,
}
use circuit.Circuit.World.{World, now, emit, emit_fallback, prevent, should_close, allow}
use circuit.Circuit.Transitions.{transition_to, attempt_to_open}

pub data Outcome : Type 0 where
  returned : Option Err → Outcome
  panicked : Outcome

-- The user's functions. The run function is given the deadline that the circuit sets.
abbrev pub RunFunc : Type 0 → Type 0 → Type 0 → Type 0
RunFunc O C E = Option ℤ → World O C E → Outcome × World O C E

abbrev pub FallbackFunc : Type 0 → Type 0 → Type 0 → Type 0
FallbackFunc O C E = Err → World O C E → Outcome × World O C E

module _ {O C E : Type 0} (p : Parts O C E) where
  unfoldable pub allow_new_run : ℤ → ℤ → World O C E → Bool × World O C E
  allow_new_run t max_concurrent w =
      if w.config.force_open
      then (false, w)
      else if (if w.config.forced_closed then true else not w.is_open)
      then (true, w)
      else if leb_ℤ (pos 0) max_concurrent && leb_ℤ max_concurrent w.concurrent_commands
      then (false, w)
      else allow p t w

  unfoldable pub check_success : ℤ → ℤ → World O C E → World O C E
  check_success done total w =
      let w' = emit p (success done total) w in
      if (if w'.is_open then w'.config.force_open else true)
      then w'
      else let (ok, w'') = should_close p done w' in
        if ok then transition_to p done false (some (should_close p)) w'' else w''

  -- The default is that every error of the caller's context is an interrupt.
  unfoldable pub interrupts : Option (Err → Bool) → Err → Bool
  interrupts none e = true
  interrupts (some is_err_interrupt) e = is_err_interrupt e

  -- With the caller's context error, nil or not, and what the function returned.
  unfoldable pub is_interrupt : Option Err → Option Err → World O C E → Bool
  is_interrupt none context_err w = false
  is_interrupt (some e) none w = false
  is_interrupt (some e) (some context_err) w =
      not w.config.ignore_interrupts && interrupts w.is_err_interrupt context_err

  unfoldable pub check_err_interrupt : Option Err → ℤ → ℤ → World O C E → Bool × World O C E
  check_err_interrupt ret done total w =
      if is_interrupt ret (p.context_err w.env) w
      then (true, emit p (err_interrupt done total) w)
      else (false, w)

  unfoldable pub check_err_bad_request : Option Err → ℤ → ℤ → World O C E → Bool × World O C E
  check_err_bad_request ret done total w =
      if is_bad_request ret then (true, emit p (err_bad_request done total) w) else (false, w)

  -- A failure counts, and may open a circuit that is not open.
  unfoldable pub count_failure : RunEvent → ℤ → World O C E → World O C E
  count_failure event done w =
      let w' = emit p event w in if w'.is_open then w' else attempt_to_open p done w'

  unfoldable pub check_err_failure : Option Err → ℤ → ℤ → World O C E → Bool × World O C E
  check_err_failure none done total w = (false, w)
  check_err_failure (some e) done total w = (true, count_failure (err_failure done total) done w)

  unfoldable pub check_err_timeout : ℤ → ℤ → ℤ → World O C E → Bool × World O C E
  check_err_timeout expected_done_by done total w =
      if not (is_zero expected_done_by) && before expected_done_by done
      then (true, count_failure (err_timeout done total) done w)
      else (false, w)

  -- What `run` does with the function's result: the first check that applies counts it.
  unfoldable pub judge : Option Err → ℤ → ℤ → ℤ → World O C E → Outcome × World O C E
  judge ret expected_done_by done total w =
      let (bad, w₁) = check_err_bad_request ret done total w in
      if bad
      then (returned ret, w₁)
      else let (late, w₂) = check_err_timeout expected_done_by done total w₁ in
        if late
        then (returned ret, w₂)
        else let (interrupted, w₃) = check_err_interrupt ret done total w₂ in
          if interrupted
          then (returned ret, w₃)
          else let (failed, w₄) = check_err_failure ret done total w₃ in
            if failed then (returned ret, w₄) else (returned none, check_success done total w₄)

  -- After the run function: a panic goes on at once.
  unfoldable pub after_run : ℤ → ℤ → Outcome × World O C E → Outcome × World O C E
  after_run start expected_done_by (panicked, w) = (panicked, w)
  after_run start expected_done_by (returned ret, w) =
      let (done, w') = now p w in judge ret expected_done_by done (time_sub done start) w'

  -- The part of `run` for a request that counts as a running command.
  unfoldable pub run_counted : RunFunc O C E → ℤ → ℤ → World O C E → Outcome × World O C E
  run_counted run_func start max_concurrent w =
      if leb_ℤ (pos 0) max_concurrent && ltb_ℤ max_concurrent w.concurrent_commands
      then (
        returned (some err_throttled_concurrent_commands),
        emit p (err_concurrency_limit_reject start) w,
      )
      else let timeout = w.config.execution_timeout in
        let expected_done_by = time_add start timeout in
        if ltb_ℤ (pos 0) timeout
        then after_run start expected_done_by (run_func (some expected_done_by) w)
        else after_run start zero_time (run_func none w)

  -- `concurrentCommands.Add(1)`, and the deferred `Add(-1)`, also on a panic.
  unfoldable pub with_command :
      (World O C E → Outcome × World O C E) → World O C E → Outcome × World O C E
  with_command body w =
      let counted = record w { concurrent_commands = add64 w.concurrent_commands (pos 1) } in
      let (out, w') = body counted in
      (out, record w' { concurrent_commands = add64 w'.concurrent_commands (negsuc 0) })

  unfoldable pub run : RunFunc O C E → World O C E → Outcome × World O C E
  run run_func w =
      let (start, w₀) = now p w in
      let max_concurrent = w₀.config.max_concurrent_requests in
      let (allowed, w₁) = allow_new_run start max_concurrent w₀ in
      if not allowed
      then (returned (some err_circuit_open), emit p (err_short_circuit start) w₁)
      else let (prevented, w₂) = prevent p start w₁ in
        if prevented
        then (returned (some err_circuit_open), w₂)
        else with_command (run_counted run_func start max_concurrent) w₂

  -- What `fallback` does with the fallback function's result.
  unfoldable pub after_fallback : ℤ → Outcome × World O C E → Outcome × World O C E
  after_fallback start (panicked, w) = (panicked, w)
  after_fallback start (returned ret, w) =
      let (done, w') = now p w in
      let total = time_sub done start in
      elim ret [
        | none ↦ (returned none, emit_fallback p (fallback_success start total) w')
        | some e ↦ (returned (some e), emit_fallback p (fallback_failure start total) w')
      ]

  unfoldable pub fallback_counted : FallbackFunc O C E → Err → World O C E → Outcome × World O C E
  fallback_counted fallback_func err w =
      let max_fallback = w.config.fallback_max_concurrent_requests in
      let (start, w') = now p w in
      if leb_ℤ (pos 0) max_fallback && ltb_ℤ max_fallback w.concurrent_fallbacks
      then (
        returned (some err_throttled_concurrent_fallbacks),
        emit_fallback p (fallback_reject start) w',
      )
      else after_fallback start (fallback_func err w')

  unfoldable pub with_fallback :
      (World O C E → Outcome × World O C E) → World O C E → Outcome × World O C E
  with_fallback body w =
      let counted = record w { concurrent_fallbacks = add64 w.concurrent_fallbacks (pos 1) } in
      let (out, w') = body counted in
      (out, record w' { concurrent_fallbacks = add64 w'.concurrent_fallbacks (negsuc 0) })

  unfoldable pub fallback : Option (FallbackFunc O C E) → Err → World O C E → Outcome × World O C E
  fallback none err w = (returned (some err), w)
  fallback (some fallback_func) err w =
      if w.config.fallback_disabled
      then (returned (some err), w)
      else with_fallback (fallback_counted fallback_func err) w

  -- What `Execute` does with the result of `run`.
  unfoldable pub after_execute :
      Option (FallbackFunc O C E) → Outcome × World O C E → Outcome × World O C E
  after_execute fallback_func (panicked, w) = (panicked, w)
  after_execute fallback_func (returned none, w) = (returned none, w)
  after_execute fallback_func (returned (some err), w) =
      if is_bad_request (some err) then (returned (some err), w) else fallback fallback_func err w

  -- `Execute`, of a circuit that is nil or empty or of one that is not.
  unfoldable pub execute :
      Bool
      → Option (RunFunc O C E)
      → Option (FallbackFunc O C E)
      → World O C E
      → Outcome × World O C E
  execute empty_or_nil none fallback_func w = (returned none, w)
  execute empty_or_nil (some run_func) fallback_func w =
      if (if empty_or_nil then true else w.config.disabled)
      then run_func none w
      else after_execute fallback_func (run run_func w)
