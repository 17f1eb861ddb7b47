-- ===== src/Circuit/Wrapper.antt =====
-- gowrapper.go: one call of a function that the wrapper runs on a goroutine of its own, as the goroutine,
-- the caller, the context and `waitForErrors` take their steps in any order. A fallback function is run as
-- a run function that has its error. A panic that nobody catches ends the program and is no step.
pub mod Outcomes
use circuit.Prelude.{
  ℕ, Bool, true, false, not, Option, some, none, List, [], ◌∷◌, ◌++◌, if◌then◌else◌, ◌≡◌,
}
use circuit.Circuit.Errors.{Err}

-- What the function does in the end.
pub data Result : Type 0 where
  returns : Option Err → Result
  panics : ℕ → Result

-- Where the caller stands: in its select, with the function's result, or with the context's error.
pub data Caller : Type 0 where
  selecting : Caller
  got : Result → Caller
  gave_up : Err → Caller

-- The two channels hold at most one value each; `run_result` is what the function did, if it is over.
pub record Call : Type 0 where
  pub catches_panics : Bool
  pub has_lost_errors : Bool
  pub run_result : Option Result
  pub run_func_err : Option (Option Err)
  pub panic_result : Option ℕ
  pub ctx_err : Option Err
  pub caller : Caller
  pub collecting : Bool
  pub lost : List Result

abbrev pub started : Bool → Bool → Call
started catches has_lost = record {
  catches_panics = catches;
  has_lost_errors = has_lost;
  run_result = none;
  run_func_err = none;
  panic_result = none;
  ctx_err = none;
  caller = selecting;
  collecting = false;
  lost = [];
}

-- The goroutine.
unfoldable pub finish : Option Err → Call → Call
finish ret c = record c { run_result = some (returns ret); run_func_err = some ret }

unfoldable pub recover : ℕ → Call → Call
recover v c = record c { run_result = some (panics v); panic_result = some v }

-- The context.
unfoldable pub cancel : Err → Call → Call
cancel e c = record c { ctx_err = some e }

-- The cases of the caller's select; the first starts `waitForErrors` if someone wants lost errors.
unfoldable pub give_up : Err → Call → Call
give_up e c = record c { caller = gave_up e; collecting = c.has_lost_errors }

unfoldable pub take_err : Option Err → Call → Call
take_err ret c = record c { caller = got (returns ret); run_func_err = none }

unfoldable pub take_panic : ℕ → Call → Call
take_panic v c = record c { caller = got (panics v); panic_result = none }

-- The cases of the select of `waitForErrors`.
unfoldable pub lose_err : Option Err → Call → Call
lose_err ret c = record c { lost = returns ret ∷ c.lost; run_func_err = none; collecting = false }

unfoldable pub lose_panic : ℕ → Call → Call
lose_panic v c = record c { lost = panics v ∷ c.lost; panic_result = none; collecting = false }

pub data Step : Call → Call → Type 0 where
  finishes : (ret : Option Err) (c : Call) → c.run_result ≡ none → Step c (finish ret c)
  recovers :
      (v : ℕ) (c : Call) → c.run_result ≡ none → c.catches_panics ≡ true → Step c (recover v c)
  cancels : (e : Err) (c : Call) → c.ctx_err ≡ none → Step c (cancel e c)
  gives_up : (e : Err) (c : Call) → c.caller ≡ selecting → c.ctx_err ≡ some e → Step c (give_up e c)
  takes_err :
      (ret : Option Err) (c : Call)
      → c.caller ≡ selecting
      → c.run_func_err ≡ some ret
      → Step c (take_err ret c)
  takes_panic :
      (v : ℕ) (c : Call) → c.caller ≡ selecting → c.panic_result ≡ some v → Step c (take_panic v c)
  loses_err :
      (ret : Option Err) (c : Call)
      → c.collecting ≡ true
      → c.run_func_err ≡ some ret
      → Step c (lose_err ret c)
  loses_panic :
      (v : ℕ) (c : Call) → c.collecting ≡ true → c.panic_result ≡ some v → Step c (lose_panic v c)

pub data Reachable (catches has_lost : Bool) : Call → Type 0 where
  starts : Reachable catches has_lost (started catches has_lost)
  steps : {c c' : Call} → Reachable catches has_lost c → Step c c' → Reachable catches has_lost c'
