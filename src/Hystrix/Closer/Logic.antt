-- ===== src/Hystrix/Closer/Logic.antt =====
-- closers/hystrix/closer.go: the `Closer` as the logic of a circuit.
use circuit.Prelude.{if◌then◌else◌}
use circuit.Circuit.Logic.{
  RunEvent, success, err_failure, err_timeout, err_bad_request, err_interrupt,
  err_concurrency_limit_reject, err_short_circuit, Transition, CloserLogic,
}
use circuit.Hystrix.Closer
use circuit.Hystrix.Closer.{Closer}

unfoldable pub observe : RunEvent → Closer → Closer
observe (success now duration) s = Closer.success now duration s
observe (err_failure now duration) s = Closer.err_failure now duration s
observe (err_timeout now duration) s = Closer.err_timeout now duration s
observe (err_bad_request now duration) s = Closer.err_bad_request now duration s
observe (err_interrupt now duration) s = Closer.err_interrupt now duration s
observe (err_concurrency_limit_reject now) s = Closer.err_concurrency_limit_reject now s
observe (err_short_circuit now) s = Closer.err_short_circuit now s

unfoldable pub notice : Transition → Closer → Closer
notice t s = if t.to_open then Closer.opened t.at s else Closer.closed t.at s

unfoldable pub closer_logic : CloserLogic Closer
closer_logic = record {
  observe = observe;
  notice = notice;
  should_close = λ now s. (Closer.should_close now s, s);
  allow = Closer.allow;
}
