-- ===== src/Tests/Wrapper.antt =====
-- gowrapper.go: a call that panics after the caller gave up.
use circuit.Prelude.{true}
use circuit.Circuit.Errors.{plain}
use circuit.Circuit.Wrapper.{Call, started, recover, cancel, give_up, lose_panic}

abbrev before_panic : Call
before_panic = give_up (plain 4) (cancel (plain 4) (started true true))

abbrev settled : Call
settled = lose_panic 9 (recover 9 before_panic)
