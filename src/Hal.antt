-- ===== src/Hal.antt =====
-- The hardware abstraction layer: src/hal/HAL.cpp.
pub mod Claims
pub mod Registry
mod Examples
