-- ===== src/Lib.antt =====
-- A circuit breaker for Go: its parts as the library builds them, and what makes them correct.
--
-- A circuit (circuit.go) runs functions of its user. It counts them, bounds how many run at once, judges
-- each result, and tells the event to its open logic, its close logic and the listeners. The open logic
-- (closers.go, `ClosedToOpen`) says when a closed circuit opens, and the close logic (`OpenToClosed`)
-- which requests may probe an open circuit and when it closes. A change of state is made under a lock and
-- then told to the listeners by one goroutine at a time. closers/hystrix and closers/simplelogic are such
-- logics; they stand on the rolling window and the timed check of faststats.
--
-- Faststats/RollingBuckets, Faststats/RollingCounter: faststats/rolling_bucket.go, rolling_counter.go.
-- Faststats/TimedCheck: faststats/timedcheck.go; a callback of a timer is an event that may come late.
-- Faststats/DurationsBucket, Faststats/RollingPercentile, Faststats/SortedDurations:
--   faststats/rolling_percentile.go, from the bucket over the ring of buckets to the sorted snapshot.
-- Hystrix/Opener, Hystrix/Closer: closers/hystrix/opener.go and closer.go; Hystrix/Opener/Logic and
--   Hystrix/Closer/Logic are them as `ClosedToOpen` and `OpenToClosed`.
-- SimpleLogic: closers/simplelogic/closers.go.
-- Circuit/Errors: errors.go. Circuit/Logic: the interfaces of closers.go and metrics.go.
-- Circuit/World: the fields of a `Circuit`, with the environment (the clock, the listeners' own state).
-- Circuit/Transitions: transitionTo and its parts, as one goroutine runs them.
-- Circuit/Delivery: commitTransition and deliverPendingTransitions as steps of any number of calls at once;
--   Delivery/Ending and Delivery/Progress are about the end of a delivery.
-- Circuit/Execute: Execute, run, fallback and the checks of a result.
-- Circuit/Closers: the default logic of closers.go. Circuit/Config: config.go.
-- Circuit/Configure: NewCircuitFromConfig and the SetConfig methods of circuit.go.
-- Circuit/Wrapper: gowrapper.go, as the steps of the goroutines of one call.
-- Hystrix/Factory: closers/hystrix/config.go. ResponseTimeSlo: metrics/responsetimeslo/responsetime.go.
-- Rolling: metrics/rolling/rolling.go, a module each for the settings, RunStats, FallbackStats and the
--   factory, whose statistics a circuit tells its events.
-- EventStream: metriceventstream/metriceventstream.go; Metric and Command collect what the dashboard is
--   told of a circuit, Streams sends it to the clients.
-- Manager: manager.go, over any constructor of circuits. Clock: internal/clock/clock.go.
-- Sorting: the sorts of the standard library that the percentile and the clock call.
-- Prelude: numbers, lists and tests that the parts share. Tests: runs and instances.
--
-- Conventions. An int64 or an int is an integer with its wrap-around written out; a Duration is an int64
-- of nanoseconds, and a Time the nanoseconds since the zero Time, without the monotonic reading and
-- without bounds of its own. A panic of an index is `none`. A function value that the code only keeps is
-- a number, and one that it calls is a function on the whole state, so a run function may do to a circuit
-- what other goroutines can. The loop that clears buckets takes as many rounds as there are buckets,
-- which is what its bound in the code allows, and `TickUntil` takes fuel. A division by zero is `none`. A
-- float64 is an element of a parameter, with laws of rounding where a theorem needs them. The statistics
-- that a factory and a circuit share are places in a list of allocations. A method of faststats or
-- closers is one atomic step, except that the unlocked part of `Check` may be followed by the locked part
-- in a later state.
--
-- Not modelled: expvar, HTTP and strings; JSON, but for that of a counter and of a timed check, whose
-- library is a parameter; the helpers of the tests.
pub mod Prelude
pub mod Sorting
pub mod Faststats
pub mod Circuit
pub mod Hystrix
pub mod SimpleLogic
pub mod Manager
pub mod ResponseTimeSlo
pub mod Rolling
pub mod EventStream
pub mod Clock
pub mod Tests
