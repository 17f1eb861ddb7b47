-- ===== src/Circuit/Execute/Counters.antt =====
-- circuit.go: the counts of running commands and fallbacks.
use circuit.Prelude.{
  ℤ, pos, negsuc, Bool, Option, some, none, add64, IsInt64, ◌∙◌, refl, ap, sym, arith, add64-cancel,
  time_sub, time_add, zero_time, subst,
}
use circuit.Circuit.Errors.{Err}
use circuit.Circuit.Logic.{Parts}
use circuit.Circuit.World.{World, now, emit, emit_fallback, prevent, allow}
use circuit.Circuit.Execute.{
  Outcome, returned, panicked, RunFunc, FallbackFunc, allow_new_run, after_run, run_counted,
  with_command, run, after_fallback, fallback_counted, with_fallback, fallback, after_execute,
  execute,
}
use circuit.Circuit.Execute.Kept.{Kept, Kept-trans, judge-Kept}

module _ {O C E : Type 0} (p : Parts O C E) where
  -- A run function, or an optional fallback function, that leaves the two counts as they were.
  abbrev pub KeepsRun : RunFunc O C E → Type 0
  KeepsRun f = (d : Option ℤ) (w : World O C E) → Kept w (f d w).1

  abbrev pub KeepsFallback : Option (FallbackFunc O C E) → Type 0
  KeepsFallback none = (w : World O C E) → Kept w w
  KeepsFallback (some g) = (e : Err) (w : World O C E) → Kept w (g e w).1

  abbrev Counted : World O C E → Type 0
  Counted w = IsInt64 w.concurrent_commands × IsInt64 w.concurrent_fallbacks

  now-Kept : (w : World O C E) → Kept w (now p w).1
  unfolding now
  now-Kept w = record { commands = refl; fallbacks = refl }

  after_run-Kept :
      (start expected : ℤ) (r : Outcome × World O C E) → Kept r.1 (after_run p start expected r).1
  unfolding after_run
  after_run-Kept start expected (panicked, w) = record { commands = refl; fallbacks = refl }
  after_run-Kept start expected (returned ret, w) =
      let (done, w') = now p w in
      Kept-trans (now-Kept w) (judge-Kept p ret expected done (time_sub done start) w')

  run_counted-Kept :
      (f : RunFunc O C E) (start max_concurrent : ℤ) (w : World O C E)
      → KeepsRun f
      → Kept w (run_counted p f start max_concurrent w).1
  unfolding run_counted emit
  run_counted-Kept f start max_concurrent w keeps =
      let due = time_add start w.config.execution_timeout in
      ground (
        arith,
        Kept-trans (keeps (some due) w) (after_run-Kept start due (f (some due) w)),
        Kept-trans (keeps none w) (after_run-Kept start zero_time (f none w)),
      )

  with_command-Kept :
      (body : World O C E → Outcome × World O C E) (w : World O C E)
      → Counted w
      → ((v : World O C E) → Kept v (body v).1)
      → Kept w (with_command p body w).1
  unfolding with_command
  with_command-Kept body w c keeps =
      let k = keeps (record w { concurrent_commands = add64 w.concurrent_commands (pos 1) }) in
      record {
        commands = ap (λ n. add64 n (negsuc 0)) k.commands ∙ add64-cancel w.concurrent_commands c.0;
        fallbacks = k.fallbacks;
      }

  with_fallback-Kept :
      (body : World O C E → Outcome × World O C E) (w : World O C E)
      → Counted w
      → ((v : World O C E) → Kept v (body v).1)
      → Kept w (with_fallback p body w).1
  unfolding with_fallback
  with_fallback-Kept body w c keeps =
      let k = keeps (record w { concurrent_fallbacks = add64 w.concurrent_fallbacks (pos 1) }) in
      record {
        commands = k.commands;
        fallbacks =
            ap (λ n. add64 n (negsuc 0)) k.fallbacks ∙ add64-cancel w.concurrent_fallbacks c.1;
      }

  Kept-Counted : {w w' : World O C E} → Kept w w' → Counted w → Counted w'
  Kept-Counted k c = (subst IsInt64 (sym k.commands) c.0, subst IsInt64 (sym k.fallbacks) c.1)

  allow_new_run-Kept :
      (t max_concurrent : ℤ) (w : World O C E) → Kept w (allow_new_run p t max_concurrent w).1
  unfolding allow_new_run allow
  allow_new_run-Kept t max_concurrent w = ground arith

  prevent-Kept : (t : ℤ) (w : World O C E) → Kept w (prevent p t w).1
  unfolding prevent
  prevent-Kept t w = record { commands = refl; fallbacks = refl }

  run-Kept : (f : RunFunc O C E) (w : World O C E) → KeepsRun f → Counted w → Kept w (run p f w).1
  unfolding run emit
  run-Kept f w keeps c =
      let (start, w₀) = now p w in
      let max_concurrent = w₀.config.max_concurrent_requests in
      let w₁ = (allow_new_run p start max_concurrent w₀).1 in
      let w₂ = (prevent p start w₁).1 in
      let k₁ = Kept-trans (now-Kept w) (allow_new_run-Kept start max_concurrent w₀) in
      let k₂ = Kept-trans k₁ (prevent-Kept start w₁) in
      let body = run_counted p f start max_concurrent in
      let k₃ = Kept-trans k₂ (
        with_command-Kept body w₂ (Kept-Counted k₂ c)
          (λ v. run_counted-Kept f start max_concurrent v keeps)) in
      ground (arith, k₁, k₂, k₃)

  after_fallback-Kept :
      (start : ℤ) (r : Outcome × World O C E) → Kept r.1 (after_fallback p start r).1
  unfolding after_fallback emit_fallback now
  after_fallback-Kept start (panicked, w) = record { commands = refl; fallbacks = refl }
  after_fallback-Kept start (returned none, w) = record { commands = refl; fallbacks = refl }
  after_fallback-Kept start (returned (some e), w) = record { commands = refl; fallbacks = refl }

  fallback_counted-Kept :
      (g : FallbackFunc O C E) (err : Err) (w : World O C E)
      → KeepsFallback (some g)
      → Kept w (fallback_counted p g err w).1
  unfolding fallback_counted emit_fallback now
  fallback_counted-Kept g err w keeps =
      let (start, w') = now p w in
      ground (
        arith,
        Kept-trans (now-Kept w) (Kept-trans (keeps err w') (after_fallback-Kept start (g err w'))),
      )

  fallback-Kept :
      (g : Option (FallbackFunc O C E)) (err : Err) (w : World O C E)
      → KeepsFallback g
      → Counted w
      → Kept w (fallback p g err w).1
  unfolding fallback
  fallback-Kept none err w keeps c = record { commands = refl; fallbacks = refl }
  fallback-Kept (some g) err w keeps c = ground (
    arith,
    with_fallback-Kept (fallback_counted p g err) w c (λ v. fallback_counted-Kept g err v keeps),
  )

  after_execute-Kept :
      (g : Option (FallbackFunc O C E)) (r : Outcome × World O C E)
      → KeepsFallback g
      → Counted r.1
      → Kept r.1 (after_execute p g r).1
  unfolding after_execute
  after_execute-Kept g (panicked, w) keeps c = record { commands = refl; fallbacks = refl }
  after_execute-Kept g (returned none, w) keeps c = record { commands = refl; fallbacks = refl }
  after_execute-Kept g (returned (some err), w) keeps c =
      ground (arith, fallback-Kept g err w keeps c)

  -- `Execute` leaves the counts of running commands and fallbacks as it found them on every path, a
  -- panic of either function included, when both are int64 values and the functions themselves leave
  -- the counts as they were.
  pub execute-Kept :
      (empty_or_nil : Bool) (f : RunFunc O C E) (g : Option (FallbackFunc O C E)) (w : World O C E)
      → KeepsRun f
      → KeepsFallback g
      → IsInt64 w.concurrent_commands
      → IsInt64 w.concurrent_fallbacks
      → Kept w (execute p empty_or_nil (some f) g w).1
  unfolding execute
  execute-Kept empty_or_nil f g w keeps_run keeps_fallback c d =
      let k = run-Kept f w keeps_run (c, d) in
      ground (
        arith,
        keeps_run none w,
        Kept-trans k (after_execute-Kept g (run p f w) keeps_fallback (Kept-Counted k (c, d))),
      )
