-- ===== src/Core.antt =====
-- The containers of includes/eeros/core.
pub mod RingBuffer
pub mod AsyncBuffer
pub mod Statistics
pub mod PeriodicCounter
mod Examples
