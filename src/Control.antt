-- ===== src/Control.antt =====
-- The blocks of a control system and the time domains that run them: includes/eeros/control and
-- src/control.
pub mod Signals
pub mod Delay
pub mod Trace
pub mod Filters
pub mod Switch
pub mod Vectors
pub mod Sum
pub mod Transition
pub mod RateLimiter
pub mod Step
pub mod PathPlannerCubic
pub mod WrapAround
pub mod Gain
pub mod ZTransferFunction
pub mod Integrator
pub mod Saturation
pub mod SignalChecker
pub mod TimeDomain
mod Examples
