-- ===== src/Math.antt =====
-- Mathematics: includes/eeros/math.
pub mod Ring
pub mod Polynome
pub mod Fraction
pub mod Bits
pub mod Matrix
pub mod CoordinateSystem
pub mod Frame
mod Examples
