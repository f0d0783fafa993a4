-- ===== src/Safety.antt =====
-- The safety system: includes/eeros/safety and src/safety.
pub mod Level
pub mod Properties
pub mod System
