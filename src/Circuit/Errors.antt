-- ===== src/Circuit/Errors.antt =====
-- errors.go: the library's own errors, and which errors are bad requests.
use circuit.Prelude.{ℕ, Bool, true, false, Option, some, none, ◌≡◌, refl}

-- An error by the methods that the code asks it for: none, those of `*circuitError`, `BadRequest`,
-- `Unwrap() error` (of nil or of an error), `Unwrap() []error`, and `As`, alone or with `Unwrap`. `As`
-- finds a bad request that answers with the Bool, or refuses. A message is a number here.
mutual
  pub data Err : Type 0 where
    plain : ℕ → Err
    circuit_error : Bool → Bool → ℕ → Err
    bad_request : Bool → Err
    wrap_nil : Err
    wrap : Err → Err
    join : Errs → Err
    with_as : Option Bool → Err
    with_as_wrap : Option Bool → Err → Err

  pub data Errs : Type 0 where
    no_errs : Errs
    more_errs : Err → Errs → Errs

abbrev pub err_throttled_concurrent_commands : Err
err_throttled_concurrent_commands = circuit_error true false 0

abbrev pub err_throttled_concurrent_fallbacks : Err
err_throttled_concurrent_fallbacks = circuit_error true false 1

abbrev pub err_circuit_open : Err
err_circuit_open = circuit_error false true 2

-- `ConcurrencyLimitReached` and `CircuitOpen` of a `*circuitError`.
unfoldable pub concurrency_limit_reached : Err → Bool
concurrency_limit_reached (circuit_error reached opened msg) = reached
concurrency_limit_reached _ = false

unfoldable pub circuit_open : Err → Bool
circuit_open (circuit_error reached opened msg) = opened
circuit_open _ = false

-- The first of two answers.
abbrev first : Option Bool → Option Bool → Option Bool
first none b = b
first (some a) b = some a

-- `errors.As(err, &br)` and the answer of `br.BadRequest()`: the first error of the tree that fits.
unfoldable mutual
  pub as_bad_request : Err → Option Bool
  as_bad_request (plain n) = none
  as_bad_request (circuit_error reached opened msg) = none
  as_bad_request (bad_request answer) = some answer
  as_bad_request wrap_nil = none
  as_bad_request (wrap e) = as_bad_request e
  as_bad_request (join es) = any_bad_request es
  as_bad_request (with_as answer) = answer
  as_bad_request (with_as_wrap answer e) = first answer (as_bad_request e)

  pub any_bad_request : Errs → Option Bool
  any_bad_request no_errs = none
  any_bad_request (more_errs e es) = first (as_bad_request e) (any_bad_request es)

abbrev found : Option Bool → Bool
found none = false
found (some answer) = answer

-- `IsBadRequest`, by the cases of its type switch; `none` is the nil error.
unfoldable pub is_bad_request : Option Err → Bool
unfolding as_bad_request any_bad_request
is_bad_request none = false
is_bad_request (some (circuit_error reached opened msg)) = false
is_bad_request (some (bad_request answer)) = answer
is_bad_request (some wrap_nil) = found (as_bad_request wrap_nil)
is_bad_request (some (wrap e)) = found (as_bad_request (wrap e))
is_bad_request (some (join es)) = found (as_bad_request (join es))
is_bad_request (some (with_as answer)) = found (as_bad_request (with_as answer))
is_bad_request (some (with_as_wrap answer e)) = found (as_bad_request (with_as_wrap answer e))
is_bad_request (some (plain n)) = false

-- What `errors.As` alone would say.
abbrev pub reference : Option Err → Bool
reference none = false
reference (some e) = found (as_bad_request e)

-- The fast paths of `IsBadRequest` answer as `errors.As` does on every error, the nil error included.
pub is_bad_request-reference : (e : Option Err) → is_bad_request e ≡ reference e
unfolding is_bad_request
is_bad_request-reference none = refl
is_bad_request-reference (some (plain n)) = refl
is_bad_request-reference (some (circuit_error reached opened msg)) = refl
is_bad_request-reference (some (bad_request answer)) = refl
is_bad_request-reference (some wrap_nil) = refl
is_bad_request-reference (some (wrap e)) = refl
is_bad_request-reference (some (join es)) = refl
is_bad_request-reference (some (with_as answer)) = refl
is_bad_request-reference (some (with_as_wrap answer e)) = refl
