-- ===== src/SimpleLogic/Streak.antt =====
-- closers/simplelogic/closers.go: what the count of a `ConsecutiveErrOpener` counts, and what that
-- means for a circuit.
use circuit.Prelude.{
  ℕ, suc, ℤ, pos, List, [], ◌∷◌, length, add64, add64-pos, leb_ℤ, ◌≡◌, ◌∙◌, refl, ap, arith, ◌<◌,
  ◌≤◌, ◌^◌, ◌+◌,
}
use circuit.Circuit.Logic.{
  RunEvent, success, err_failure, err_timeout, err_bad_request, err_interrupt,
  err_concurrency_limit_reject, err_short_circuit, Transition,
}
use circuit.SimpleLogic.{ConsecutiveErrOpener, observe, notice, should_open}

-- What a circuit tells its opener.
pub data Event : Type 0 where
  ran : RunEvent → Event
  moved : Transition → Event

unfoldable pub react : Event → ConsecutiveErrOpener → ConsecutiveErrOpener
react (ran event) c = observe event c
react (moved t) c = notice t c

-- The last event first.
unfoldable pub reacts : List Event → ConsecutiveErrOpener → ConsecutiveErrOpener
reacts [] c = c
reacts (event ∷ earlier) c = react event (reacts earlier c)

-- How many failures and timeouts since the last success or transition, the last event first.
unfoldable pub streak : List Event → ℕ
streak [] = 0
streak (ran (success now total) ∷ earlier) = 0
streak (ran (err_failure now total) ∷ earlier) = suc (streak earlier)
streak (ran (err_timeout now total) ∷ earlier) = suc (streak earlier)
streak (ran (err_bad_request now total) ∷ earlier) = streak earlier
streak (ran (err_interrupt now total) ∷ earlier) = streak earlier
streak (ran (err_concurrency_limit_reject now) ∷ earlier) = streak earlier
streak (ran (err_short_circuit now) ∷ earlier) = streak earlier
streak (moved t ∷ earlier) = 0

streak-le_length : (events : List Event) → streak events ≤ length events
unfolding streak
streak-le_length [] = omega arith
streak-le_length (ran (success now total) ∷ earlier) = omega arith
streak-le_length (ran (err_failure now total) ∷ earlier) = omega (arith, streak-le_length earlier)
streak-le_length (ran (err_timeout now total) ∷ earlier) = omega (arith, streak-le_length earlier)
streak-le_length (ran (err_bad_request now total) ∷ earlier) =
    omega (arith, streak-le_length earlier)
streak-le_length (ran (err_interrupt now total) ∷ earlier) = omega (arith, streak-le_length earlier)
streak-le_length (ran (err_concurrency_limit_reject now) ∷ earlier) =
    omega (arith, streak-le_length earlier)
streak-le_length (ran (err_short_circuit now) ∷ earlier) = omega (arith, streak-le_length earlier)
streak-le_length (moved t ∷ earlier) = omega arith

record Counts (n : ℕ) (limit : ℤ) (c : ConsecutiveErrOpener) : Type 0 where
  count : c.consecutive_count ≡ pos n
  threshold : c.close_threshold ≡ limit

counted_up :
    (n : ℕ) (limit : ℤ) (c : ConsecutiveErrOpener)
    → n + 1 < 2 ^ 63
    → Counts n limit c
    → Counts (suc n) limit (record c { consecutive_count = add64 c.consecutive_count (pos 1) })
counted_up n limit c room h = record {
  count = ap (λ k. add64 k (pos 1)) h.count ∙ add64-pos n 1 room ∙ ap pos (omega arith);
  threshold = h.threshold;
}

react-Counts :
    (event : Event) (earlier : List Event) (limit : ℤ) (c : ConsecutiveErrOpener)
    → streak earlier + 1 < 2 ^ 63
    → Counts (streak earlier) limit c
    → Counts (streak (event ∷ earlier)) limit (react event c)
unfolding react observe notice streak
react-Counts (ran (success now total)) earlier limit c room k = record {
  count = ground (arith, k.count);
  threshold = ground (arith, k.threshold);
}
react-Counts (ran (err_failure now total)) earlier limit c room k =
    counted_up (streak earlier) limit c room k
react-Counts (ran (err_timeout now total)) earlier limit c room k =
    counted_up (streak earlier) limit c room k
react-Counts (ran (err_bad_request now total)) earlier limit c room k = k
react-Counts (ran (err_interrupt now total)) earlier limit c room k = k
react-Counts (ran (err_concurrency_limit_reject now)) earlier limit c room k = k
react-Counts (ran (err_short_circuit now)) earlier limit c room k = k
react-Counts (moved t) earlier limit c room k = record { count = refl; threshold = k.threshold }

reacts-Counts :
    (events : List Event) (c : ConsecutiveErrOpener)
    → length events < 2 ^ 63
    → c.consecutive_count ≡ pos 0
    → Counts (streak events) c.close_threshold (reacts events c)
unfolding reacts streak
reacts-Counts [] c room h = record { count = h; threshold = refl }
reacts-Counts (event ∷ earlier) c room h =
    react-Counts event earlier c.close_threshold (reacts earlier c)
      (omega (arith, streak-le_length earlier)) (reacts-Counts earlier c (omega arith) h)

-- The opener says that the circuit should open exactly if the last errors in a row, with no success
-- and no transition since, are at least as many as the threshold, over any history of fewer than 2^63
-- events from a count of 0.
pub should_open-streak :
    (now : ℤ) (events : List Event) (c : ConsecutiveErrOpener)
    → length events < 2 ^ 63
    → c.consecutive_count ≡ pos 0
    → should_open now (reacts events c) ≡ leb_ℤ c.close_threshold (pos (streak events))
unfolding should_open
should_open-streak now events c room h =
    let k = reacts-Counts events c room h in rw (k.count, k.threshold) refl
