-- ===== src/Tests.antt =====
-- Runs at concrete inputs, and the theorems at inputs that meet their hypotheses.
mod Faststats
mod Hystrix
mod SimpleLogic
mod Delivery
mod Execute
mod Manager
mod Wrapper
mod Slo
mod Percentile
mod Rolling
mod Clock
mod Logic
mod EventStream
