-- ===== src/Task.antt =====
-- Periodic tasks: includes/eeros/task and src/task, and how the executor of
-- src/core/Executor.cpp arranges them.
pub mod Harmonic
pub mod Executor
pub mod Priorities
pub mod Async
mod Examples
