-- ===== src/Circuit/Execute/Refusals.antt =====
-- circuit.go: the calls that a circuit refuses without a call of the run function.
use circuit.Prelude.{
  ℤ, pos, Bool, true, false, ◌&&◌, ◌∙◌, ◌≤ℤ◌, ◌+ℤ◌, IsInt64, not, Option, some, ◌≡◌, refl, arith,
  leb_ℤ, ltb_ℤ, ap, sym, subst, add64-eq, add64-cancel, if◌then◌else◌,
}
use circuit.Circuit.Errors.{err_circuit_open, err_throttled_concurrent_commands, is_bad_request}
use circuit.Circuit.Logic.{err_short_circuit, err_concurrency_limit_reject, Parts}
use circuit.Circuit.World.{World, now, emit, prevent, allow, shows_open}
use circuit.Circuit.Execute.{
  returned, RunFunc, FallbackFunc, allow_new_run, run, run_counted, with_command, fallback,
  after_execute, execute,
}

module _ {O C E : Type 0} (p : Parts O C E) where
  -- What the comments of the code say of the answer to a request at time t: a forced open circuit refuses it, a
  -- circuit that does not show open takes it, an open circuit at its limit refuses it, and any other
  -- open circuit leaves the answer to the closer.
  abbrev pub admits : ℤ → World O C E → Bool
  admits t w =
      if shows_open w
      then not w.config.force_open
        && not (
            leb_ℤ (pos 0) w.config.max_concurrent_requests
            && leb_ℤ w.config.max_concurrent_requests w.concurrent_commands)
        && (p.open_to_close.allow t w.closer).0
      else true

  -- `allowNewRun` answers as the description says.
  pub allow_new_run-admits :
      (t : ℤ) (w : World O C E)
      → (allow_new_run p t w.config.max_concurrent_requests w).0 ≡ admits t w
  unfolding allow_new_run allow shows_open
  allow_new_run-admits t w = ground arith

  -- The state of the circuit after `allowNewRun`: only the closer's, and only if the answer was left
  -- to the closer.
  abbrev pub asked : ℤ → World O C E → World O C E
  asked t w =
      if shows_open w
        && not w.config.force_open
        && not (
            leb_ℤ (pos 0) w.config.max_concurrent_requests
            && leb_ℤ w.config.max_concurrent_requests w.concurrent_commands)
      then record w { closer = (p.open_to_close.allow t w.closer).1 }
      else w

  allow_new_run-asked :
      (t : ℤ) (w : World O C E)
      → (allow_new_run p t w.config.max_concurrent_requests w).1 ≡ asked t w
  unfolding allow_new_run allow shows_open
  allow_new_run-asked t w = grind arith

  -- A request to a circuit that is not disabled and that `admits` refuses: the run function is not
  -- called, the listeners hear of one short circuit at the time of the request, no state but the
  -- closer's answer has changed by then, and `errCircuitOpen` goes to the fallback.
  pub execute-refused :
      (f : RunFunc O C E) (g : Option (FallbackFunc O C E)) (w : World O C E)
      → w.config.disabled ≡ false
      → admits (now p w).0 (now p w).1 ≡ false
      → execute p false (some f) g w
        ≡ fallback p g err_circuit_open
            (emit p (err_short_circuit (now p w).0) (asked (now p w).0 (now p w).1))
  unfolding execute run after_execute is_bad_request
  execute-refused f g w enabled refused =
      let (t, w₀) = now p w in
      let answer : (allow_new_run p t w₀.config.max_concurrent_requests w₀).0 ≡ false =
        allow_new_run-admits t w₀ ∙ refused in
      simp (enabled, answer, allow_new_run-asked t w₀)

  -- The guard of `run` on the count that the request is part of.
  over_limit : (m n : ℤ) → pos 0 ≤ℤ m → m ≤ℤ n → (leb_ℤ (pos 0) m && ltb_ℤ m (n +ℤ pos 1)) ≡ true
  unfolding ◌+ℤ◌
  over_limit m n limited full = ground arith

  run_counted-throttled :
      (f : RunFunc O C E) (t m : ℤ) (w : World O C E)
      → IsInt64 w.concurrent_commands
      → IsInt64 (w.concurrent_commands +ℤ pos 1)
      → pos 0 ≤ℤ m
      → m ≤ℤ w.concurrent_commands
      → with_command p (run_counted p f t m) w ≡ (
        returned (some err_throttled_concurrent_commands),
        emit p (err_concurrency_limit_reject t) w,
      )
  unfolding with_command run_counted emit
  run_counted-throttled f t m w range room limited full =
      let n = w.concurrent_commands in
      let over =
        ap (λ k. leb_ℤ (pos 0) m && ltb_ℤ m k) (add64-eq n (pos 1) room)
        ∙ over_limit m n limited full in
      rw (over, add64-cancel n range) refl

  -- What a request that is let in meets before it counts: the answers of the closer and the opener.
  abbrev pub entered : ℤ → World O C E → World O C E
  entered t w = (prevent p t (asked t w)).1

  entered-commands :
      (t : ℤ) (w : World O C E) → (entered t w).concurrent_commands ≡ w.concurrent_commands
  unfolding prevent
  entered-commands t w = ground arith

  asked-opener : (t : ℤ) (w : World O C E) → (asked t w).opener ≡ w.opener
  asked-opener t w = ground arith

  run-let_in :
      (f : RunFunc O C E) (w : World O C E)
      → (let (t, w₀) = now p w in
          admits t w₀ ≡ true
          → (p.closed_to_open.prevent t w₀.opener).0 ≡ false
          → run p f w
            ≡ with_command p (run_counted p f t w₀.config.max_concurrent_requests) (entered t w₀))
  unfolding run prevent
  run-let_in f w let_in not_prevented =
      let (t, w₀) = now p w in
      let answer : (allow_new_run p t w₀.config.max_concurrent_requests w₀).0 ≡ true =
        allow_new_run-admits t w₀ ∙ let_in in
      let prevented =
        ap (λ o. (p.closed_to_open.prevent t o).0) (asked-opener t w₀) ∙ not_prevented in
      rw (answer, allow_new_run-asked t w₀, prevented) refl

  -- A request that is let in, and that the opener does not prevent, when as many commands run as the
  -- limit allows: the run function is not called, the listeners hear of one rejection at the time of
  -- the request, the count of running commands is as before, and the fallback gets
  -- `errThrottledConcurrentCommands`.
  pub execute-throttled :
      (f : RunFunc O C E) (g : Option (FallbackFunc O C E)) (w : World O C E)
      → w.config.disabled ≡ false
      → admits (now p w).0 (now p w).1 ≡ true
      → (p.closed_to_open.prevent (now p w).0 w.opener).0 ≡ false
      → IsInt64 (w.concurrent_commands +ℤ pos 1)
      → IsInt64 w.concurrent_commands
      → pos 0 ≤ℤ w.config.max_concurrent_requests
      → w.config.max_concurrent_requests ≤ℤ w.concurrent_commands
      → execute p false (some f) g w
        ≡ fallback p g err_throttled_concurrent_commands (
            emit p
              (err_concurrency_limit_reject (now p w).0)
              (prevent p (now p w).0 (asked (now p w).0 (now p w).1)).1)
  unfolding execute after_execute is_bad_request now
  execute-throttled f g w enabled let_in not_prevented room range limited full =
      let (t, w₀) = now p w in
      let m = w.config.max_concurrent_requests in
      let same = entered-commands t w₀ in
      let throttled =
        run-let_in f w let_in not_prevented
        ∙ run_counted-throttled f t m (entered t w₀) (subst IsInt64 (sym same) range)
            (subst (λ n. IsInt64 (n +ℤ pos 1)) (sym same) room) limited
            (subst (λ n. m ≤ℤ n) (sym same) full) in
      simp (enabled, throttled)
