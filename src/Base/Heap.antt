-- ===== src/Base/Heap.antt =====
-- Objects behind pointers: a store maps each address to the object that stands there.
use Prim.Native.Nat.{ℕ}
use mathlib.Core.Path.{◌≡◌, fun_ext}
use mathlib.Core.Logic.{◌≢◌}
use native.Mathlib.Omega.{arith}
use eeros_framework.Base.Tests.{◌==◌, if◌then◌else◌}

abbrev pub Store {ℓ} : Type ℓ → Type ℓ
Store A = ℕ → A

module _ {ℓ} {A : Type ℓ} where
  -- `*p = a`
  abbrev pub update : Store A → ℕ → A → Store A
  update s p a q = if p == q then a else s q

  pub update_self : (s : Store A) (p : ℕ) (a : A) → update s p a p ≡ a
  update_self s p a = ground arith

  pub update_ne : (s : Store A) (p q : ℕ) (a : A) → p ≢ q → update s p a q ≡ s q
  update_ne s p q a h = ground arith

  pub update-update : (s : Store A) (p : ℕ) (a b : A) → update (update s p a) p b ≡ update s p b
  update-update s p a b = fun_ext (λ q. ground arith)
