-- ===== src/Base/Loops.antt =====
-- Counted loops.
use Prim.Native.Nat.{ℕ, zero, suc, ◌<◌}
use mathlib.Core.Path.{◌≡◌, refl}
use mathlib.Core.Bool.{Bool, true, ◌&&◌}
use native.Mathlib.Omega.{arith}

-- `for (i = 0; i < n; i++) s = body(i, s)`
abbrev pub for_below {ℓ} : {S : Type ℓ} → ℕ → (ℕ → S → S) → S → S
for_below zero body s = s
for_below (suc n) body s = body n (for_below n body s)

-- `for (i = 0; i < n; i++) if (!test(i)) return false; return true;`
abbrev pub all_below : ℕ → (ℕ → Bool) → Bool
all_below zero test = true
all_below (suc n) test = all_below n test && test n

pub all_below_congr :
    (n : ℕ) (p q : ℕ → Bool) → ((i : ℕ) → i < n → p i ≡ q i) → all_below n p ≡ all_below n q
all_below_congr zero p q h = refl
all_below_congr (suc n) p q h =
    ground (arith, h n, all_below_congr n p q (λ i k. h i (omega arith)))

pub all_below_sound : (n : ℕ) (p : ℕ → Bool) (i : ℕ) → all_below n p ≡ true → i < n → p i ≡ true
all_below_sound zero p i h k = absurd (omega arith)
all_below_sound (suc n) p i h k = ground (arith, all_below_sound n p i)

pub all_below_complete :
    (n : ℕ) (p : ℕ → Bool) → ((i : ℕ) → i < n → p i ≡ true) → all_below n p ≡ true
all_below_complete zero p h = refl
all_below_complete (suc n) p h =
    ground (arith, h n, all_below_complete n p (λ i k. h i (omega arith)))
