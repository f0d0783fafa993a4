-- ===== src/Sequencer.antt =====
-- The sequencer: includes/eeros/sequencer and src/sequencer.
pub mod Monitors
pub mod Action
pub mod Timeout
pub mod Registry
mod Examples
