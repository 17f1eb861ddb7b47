-- ===== src/Circuit/Wrapper/Outcomes.antt =====
-- gowrapper.go: what becomes of the function's result.
use circuit.Prelude.{
  ℕ, Bool, true, false, ◌||◌, Option, some, none, List, [], ◌∷◌, ◌++◌, if◌then◌else◌, ◌≡◌,
}
use circuit.Circuit.Errors.{Err}
use circuit.Circuit.Wrapper.{Result, returns, panics, Caller, selecting, got, gave_up, Call}

abbrev in_errs : Option (Option Err) → List Result
in_errs none = []
in_errs (some ret) = returns ret ∷ []

abbrev in_panics : Option ℕ → List Result
in_panics none = []
in_panics (some v) = panics v ∷ []

abbrev with_caller : Caller → List Result
with_caller selecting = []
with_caller (got r) = r ∷ []
with_caller (gave_up e) = []

abbrev one : Option Result → List Result
one none = []
one (some r) = r ∷ []

abbrev quit : Caller → Bool
quit selecting = false
quit (got r) = false
quit (gave_up e) = true

abbrev is_some_loss : List Result → Bool
is_some_loss [] = false
is_some_loss (r ∷ rs) = true

abbrev error_of : Caller → Option Err
error_of selecting = none
error_of (got r) = none
error_of (gave_up e) = some e

-- The result of the function is in exactly one place, and who gave up waits for it or has lost it.
record Inv (c : Call) : Type 0 where
  place :
      in_errs c.run_func_err ++ (in_panics c.panic_result ++ (with_caller c.caller ++ c.lost))
      ≡ one c.run_result
  waits : c.collecting || is_some_loss c.lost ≡ (if quit c.caller then c.has_lost_errors else false)
  once : c.collecting ≡ true → c.lost ≡ []
  told : quit c.caller ≡ true → c.ctx_err ≡ error_of c.caller

-- What the caller has, and what was reported as lost.
pub data Settled (has_lost : Bool) (r : Result) (c : Call) : Type 0 where
  -- The caller has what the function did, and nothing was lost.
  delivered : c.caller ≡ got r → c.lost ≡ [] → Settled has_lost r c
  -- The caller has the context's error, and the function's result was reported once if anyone asked.
  reported :
      (e : Err)
      → c.caller ≡ gave_up e
      → c.ctx_err ≡ some e
      → c.lost ≡ (if has_lost then r ∷ [] else [])
      → Settled has_lost r c
