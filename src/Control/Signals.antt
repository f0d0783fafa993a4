-- ===== src/Control/Signals.antt =====
-- What a signal carries: includes/eeros/control/Signal.hpp.
use eeros_framework.Base.{ℕ}

-- A value with its timestamp.
pub record Signal (T : Type 0) : Type 0 where
  pub value : T
  pub timestamp : ℕ
