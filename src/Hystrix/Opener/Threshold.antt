-- ===== src/Hystrix/Opener/Threshold.antt =====
-- closers/hystrix/opener.go: every handler against the events of the window, and the decision to open.
use native.Mathlib.Nat.{mul-zero, zero-mul}
use circuit.Prelude.{
  ℕ, ℤ, pos, leb_ℤ, ltb_ℤ, eqb_ℤ, [], Bool, true, false, not, ◌&&◌, ◌||◌, Option, some, none, mul64,
  wrap64, wrap64-eq, leb, ◌==◌, ◌≡◌, ◌*◌, ◌^◌, ◌<◌, ◌*ℤ◌, refl, ap, ◌∙◌, arith, length, Bool-cases,
  inl, inr,
}
use circuit.Faststats.RollingCounter.History.{History, index?, moved, recorded, Represents}
use circuit.Faststats.RollingCounter.Refinement.{
  inc-Represents, rolling_sum_at-Represents, reset-Represents,
}
use circuit.Hystrix.Opener.{
  Opener, success, err_failure, err_timeout, err_bad_request, err_interrupt,
  err_concurrency_limit_reject, err_short_circuit, opened, closed, should_open,
}

pub data Event : Type 0 where
  successes failures timeouts bad_requests interrupts rejects short_circuits opens closes :
      ℤ → Event

-- The handler of an event.
unfoldable pub react : Event → Opener → Option Opener
unfolding success err_failure err_timeout err_bad_request err_interrupt err_concurrency_limit_reject
    err_short_circuit opened closed
react (successes now) e = success now e
react (failures now) e = err_failure now e
react (timeouts now) e = err_timeout now e
react (bad_requests now) e = some (err_bad_request now e)
react (interrupts now) e = some (err_interrupt now e)
react (rejects now) e = some (err_concurrency_limit_reject now e)
react (short_circuits now) e = some (err_short_circuit now e)
react (opens now) e = opened now e
react (closes now) e = closed now e

-- The attempts and the errors of the window.
pub record Tally : Type 0 where
  pub attempts : History
  pub errors : History

-- A success is an attempt, a failure or timeout an attempt and an error; a transition forgets both,
-- and the other outcomes do not count.
unfoldable pub tally : ℕ → ℕ → ℤ → Event → Tally → Tally
tally n w start (successes now) t = record t {
  attempts = recorded n (index? start w now) t.attempts;
}
tally n w start (failures now) t = record {
  attempts = recorded n (index? start w now) t.attempts;
  errors = recorded n (index? start w now) t.errors;
}
tally n w start (timeouts now) t = record {
  attempts = recorded n (index? start w now) t.attempts;
  errors = recorded n (index? start w now) t.errors;
}
tally n w start (bad_requests now) t = t
tally n w start (interrupts now) t = t
tally n w start (rejects now) t = t
tally n w start (short_circuits now) t = t
tally n w start (opens now) t = record {
  attempts = record (moved n (index? start w now) t.attempts) { events = [] };
  errors = record (moved n (index? start w now) t.errors) { events = [] };
}
tally n w start (closes now) t = record {
  attempts = record (moved n (index? start w now) t.attempts) { events = [] };
  errors = record (moved n (index? start w now) t.errors) { events = [] };
}

pub record Holds (n w : ℕ) (start : ℤ) (t : Tally) (e : Opener) : Type 0 where
  pub attempts : Represents n w start t.attempts e.legitimate_attempts_count
  pub errors : Represents n w start t.errors e.errors_count

-- The error percentage has reached the threshold, and there are enough attempts.
unfoldable pub decision : ℕ → ℤ → ℕ → ℕ → Bool
decision percentage volume attempts errors =
    not (attempts == 0) && leb_ℤ volume (pos attempts) && leb (percentage * attempts) (errors * 100)

mul64-pos : (a b : ℕ) → a * b < 2 ^ 63 → mul64 (pos a) (pos b) ≡ pos (a * b)
unfolding mul64 ◌*ℤ◌
mul64-pos a b h =
    let exact : pos a *ℤ pos b ≡ pos (a * b) = simp (mul-zero, zero-mul) (ground arith) in
    rw exact (wrap64-eq (pos (a * b)) (omega arith))

-- A second look at the same time changes nothing.
pub moved-moved : (n : ℕ) (a : Option ℕ) (h : History) → moved n a (moved n a h) ≡ moved n a h
moved-moved n none h = refl
moved-moved n (some a) h = ground arith

-- The guard of the source: too few attempts.
abbrev too_few : ℤ → ℕ → Bool
too_few volume attempts = eqb_ℤ (pos attempts) (pos 0) || ltb_ℤ (pos attempts) volume

decision_few :
    (p : ℕ) (volume : ℤ) (a r : ℕ) → too_few volume a ≡ true → decision p volume a r ≡ false
unfolding decision
decision_few p volume a r h = ground arith

decision_enough :
    (p : ℕ) (volume : ℤ) (a r : ℕ)
    → too_few volume a ≡ false
    → leb_ℤ (pos (p * a)) (pos (r * 100)) ≡ decision p volume a r
unfolding decision
decision_enough p volume a r h = ground arith

module _ (n w : ℕ) (start : ℤ) where
  both :
      (now : ℤ) (t : Tally) (e : Opener)
      → Holds n w start t e
      → (e' : Opener) × (err_failure now e ≡ some e')
        × Holds n w start (tally n w start (failures now) t) e'
        × (e'.error_percentage ≡ e.error_percentage)
        × (e'.request_volume ≡ e.request_volume)
  unfolding err_failure tally
  both now t e v =
      let (a, run, va) =
        inc-Represents n w start t.attempts e.legitimate_attempts_count now v.attempts in
      let (b, run', vb) = inc-Represents n w start t.errors e.errors_count now v.errors in
      (
        record e { errors_count = b; legitimate_attempts_count = a },
        rw (run, run'),
        record { attempts = va; errors = vb },
        refl,
        refl,
      )

  forget :
      (now : ℤ) (t : Tally) (e : Opener)
      → Holds n w start t e
      → (e' : Opener) × (closed now e ≡ some e')
        × Holds n w start (tally n w start (closes now) t) e'
        × (e'.error_percentage ≡ e.error_percentage)
        × (e'.request_volume ≡ e.request_volume)
  unfolding closed tally
  forget now t e v =
      let (a, run, va) =
        reset-Represents n w start t.attempts e.legitimate_attempts_count now v.attempts in
      let (b, run', vb) = reset-Represents n w start t.errors e.errors_count now v.errors in
      (
        record e { errors_count = b; legitimate_attempts_count = a },
        rw (run', run),
        record { attempts = va; errors = vb },
        refl,
        refl,
      )

  -- The handlers count as the tally does, keep the settings, and never panic.
  pub react-Holds :
      (ev : Event) (t : Tally) (e : Opener)
      → Holds n w start t e
      → (e' : Opener) × (react ev e ≡ some e')
        × Holds n w start (tally n w start ev t) e'
        × (e'.error_percentage ≡ e.error_percentage)
        × (e'.request_volume ≡ e.request_volume)
  unfolding react tally
  react-Holds (successes now) t e v =
      let (a, run, v') =
        inc-Represents n w start t.attempts e.legitimate_attempts_count now v.attempts in
      (
        record e { legitimate_attempts_count = a },
        rw run,
        record { attempts = v'; errors = v.errors },
        refl,
        refl,
      )
  react-Holds (failures now) t e v = both now t e v
  react-Holds (timeouts now) t e v = both now t e v
  react-Holds (bad_requests now) t e v = (e, refl, v, refl, refl)
  react-Holds (interrupts now) t e v = (e, refl, v, refl, refl)
  react-Holds (rejects now) t e v = (e, refl, v, refl, refl)
  react-Holds (short_circuits now) t e v = (e, refl, v, refl, refl)
  react-Holds (opens now) t e v = forget now t e v
  react-Holds (closes now) t e v = forget now t e v

  -- The circuit opens exactly if the attempts and errors of the window at `now` decide so, where the
  -- products with the percentage and with 100 stay below 2^63; the settings stay, and so do the windows
  -- that a second question at that time would see.
  pub should_open-decision :
      (now : ℤ) (p a r : ℕ) (t : Tally) (e : Opener)
      → Holds n w start t e
      → e.error_percentage ≡ pos p
      → length (moved n (index? start w now) t.attempts).events ≡ a
      → length (moved n (index? start w now) t.errors).events ≡ r
      → p * a < 2 ^ 63
      → a < 2 ^ 63
      → r * 100 < 2 ^ 63
      → (t' : Tally) × (e' : Opener) × (should_open now e
          ≡ some (decision p e.request_volume a r, e'))
        × Holds n w start t' e'
        × (t'.attempts ≡ moved n (index? start w now) t.attempts)
        × (moved n (index? start w now) t'.errors ≡ moved n (index? start w now) t.errors)
        × (e'.error_percentage ≡ e.error_percentage)
        × (e'.request_volume ≡ e.request_volume)
  unfolding should_open
  should_open-decision now p a r t e v percent size size' ha ha' hr =
      let h = moved n (index? start w now) t.attempts in
      let h' = moved n (index? start w now) t.errors in
      let (c, run, va) =
        rolling_sum_at-Represents n w start t.attempts e.legitimate_attempts_count now v.attempts in
      let (d, run', vb) =
        rolling_sum_at-Represents n w start t.errors e.errors_count now v.errors in
      let exact = ap (λ k. wrap64 (pos k)) size ∙ wrap64-eq (pos a) (omega arith) in
      let exact' = ap (λ k. wrap64 (pos k)) size' ∙ wrap64-eq (pos r) (omega arith) in
      elim (Bool-cases (too_few e.request_volume a)) [
        | inl few ↦ (
          record t { attempts = h },
          record e { legitimate_attempts_count = c },
          simp (run, exact, few, decision_few p e.request_volume a r few),
          record { attempts = va; errors = v.errors },
          refl,
          refl,
          refl,
          refl,
        )
        | inr enough ↦ (
          record { attempts = h; errors = h' },
          record e { legitimate_attempts_count = c; errors_count = d },
          simp (
            run,
            run',
            exact,
            exact',
            enough,
            percent,
            mul64-pos p a ha,
            mul64-pos r 100 hr,
            decision_enough p e.request_volume a r enough,
          ),
          record { attempts = va; errors = vb },
          refl,
          moved-moved n (index? start w now) t.errors,
          refl,
          refl,
        )
      ]
