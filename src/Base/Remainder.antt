-- ===== src/Base/Remainder.antt =====
-- Remainders.
use Prim.Native.Nat.{ℕ, ◌+◌, ◌-◌, ◌%◌, ◌≤◌, ◌<◌}
use mathlib.Core.Path.{◌≡◌, ◌∙◌}
use mathlib.Core.Logic.{◌⊎◌, inl, inr}
use native.Mathlib.Nat.{mod-eq_of_lt, mod-eq-sub-mod}
use native.Mathlib.Decide.{dec_lt}
use native.Mathlib.Omega.{arith}

-- One time round at most, the remainder is found by one subtraction.
pub mod_once : (a n : ℕ) → a < n + n → (a % n ≡ a) ⊎ ((a % n ≡ a - n) × (n ≤ a))
mod_once a n h = elim (dec_lt a n) [
  | yes p ↦ inl (mod-eq_of_lt p)
  | no p ↦
      inr (mod-eq-sub-mod {n = a} {m = n} (omega arith) ∙ mod-eq_of_lt (omega arith), omega arith)
]
