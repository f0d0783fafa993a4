-- ===== src/Base/Sets.antt =====
-- Sets of numbers as lists without repetition, for the hash sets of the source.
use Prim.Native.Nat.{ℕ}
use mathlib.Core.Path.{◌≡◌, refl}
use mathlib.Core.Bool.{Bool, false, ◌||◌}
use mathlib.Core.List.{List, [], ◌∷◌}
use native.Mathlib.Omega.{arith}
use eeros_framework.Base.Tests.{◌==◌, if◌then◌else◌}

abbrev pub elem : ℕ → List ℕ → Bool
elem a [] = false
elem a (b ∷ bs) = b == a || elem a bs

-- `insert` of a set.
abbrev pub insert_set : ℕ → List ℕ → List ℕ
insert_set a bs = if elem a bs then bs else a ∷ bs

-- `erase` of a set, where the number stands at most once.
abbrev pub erase : ℕ → List ℕ → List ℕ
erase a [] = []
erase a (b ∷ bs) = if b == a then bs else b ∷ erase a bs

pub elem-insert_set : (a b : ℕ) (bs : List ℕ) → elem a (insert_set b bs) ≡ (b == a || elem a bs)
elem-insert_set a b bs = ground arith

pub elem-erase_ne : (a b : ℕ) (bs : List ℕ) → (a == b) ≡ false → elem a (erase b bs) ≡ elem a bs
elem-erase_ne a b [] h = refl
elem-erase_ne a b (c ∷ cs) h = ground (arith, elem-erase_ne a b cs)

-- Erasing adds nothing.
pub elem-erase : (a b : ℕ) (bs : List ℕ) → elem a bs ≡ false → elem a (erase b bs) ≡ false
elem-erase a b [] h = refl
elem-erase a b (c ∷ cs) h = ground (arith, elem-erase a b cs)

pub erase-absent : (a : ℕ) (bs : List ℕ) → elem a bs ≡ false → erase a bs ≡ bs
erase-absent a [] h = refl
erase-absent a (c ∷ cs) h = ground (arith, erase-absent a cs)
