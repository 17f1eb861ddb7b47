-- ===== src/Hystrix/Opener/Logic.antt =====
-- closers/hystrix/opener.go: the `Opener` as the logic of a circuit. An opener whose method has panicked
-- is `none`: the panic leaves the circuit's call, and what follows is not modelled.
use circuit.Prelude.{Bool, false, Option, some, none, ◌>>=◌, if◌then◌else◌}
use circuit.Circuit.Logic.{
  RunEvent, success, err_failure, err_timeout, err_bad_request, err_interrupt,
  err_concurrency_limit_reject, err_short_circuit, Transition, OpenerLogic,
}
use circuit.Hystrix.Opener
use circuit.Hystrix.Opener.{Opener}

unfoldable pub react : RunEvent → Opener → Option Opener
react (success now duration) e = Opener.success now e
react (err_failure now duration) e = Opener.err_failure now e
react (err_timeout now duration) e = Opener.err_timeout now e
react (err_bad_request now duration) e = some (Opener.err_bad_request now e)
react (err_interrupt now duration) e = some (Opener.err_interrupt now e)
react (err_concurrency_limit_reject now) e = some (Opener.err_concurrency_limit_reject now e)
react (err_short_circuit now) e = some (Opener.err_short_circuit now e)

unfoldable pub notice : Transition → Opener → Option Opener
notice t e = if t.to_open then Opener.opened t.at e else Opener.closed t.at e

-- The answer of an opener that has panicked does not matter.
abbrev pub answered : Option (Bool × Opener) → Bool × Option Opener
answered none = (false, none)
answered (some (yes?, e)) = (yes?, some e)

unfoldable pub opener_logic : OpenerLogic (Option Opener)
opener_logic = record {
  observe = λ event o. o >>= λ e. react event e;
  notice = λ t o. o >>= λ e. notice t e;
  should_open = λ now o. answered (o >>= λ e. Opener.should_open now e);
  prevent = λ now o. elim o [ none ↦ (false, none) | some e ↦ (Opener.prevent now e, some e) ];
}
