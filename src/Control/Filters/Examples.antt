-- ===== src/Control/Filters/Examples.antt =====
-- Runs of the filters.
use eeros_framework.Base.{
  ℕ, zero, suc, ◌-◌, ◌/◌, ◌%◌, ◌<◌, ◌≤◌, ◌≡◌, refl, arith, Bool, true, false, ltb, ◌==◌,
  if◌then◌else◌, List, [], ◌∷◌, length, get_or, count, nat_order, Bool-cases, inl, inr,
}
use eeros_framework.Math.Bits.{bits}
use eeros_framework.Control.Signals.{Signal}
use eeros_framework.Control.Filters.Median.{create, enable, disable, run, run_times}
use eeros_framework.Control.Filters.Median.Middle.{latest, IsMiddle, run-IsMiddle}
use eeros_framework.Control.Filters.MovingAverage
use eeros_framework.Control.Filters.MovingAverage.Sums.{weighted, run-weighted}

-- Insertion sort, as an instance of the sort.
abbrev insert_sorted : ℕ → List ℕ → List ℕ
insert_sorted x [] = x ∷ []
insert_sorted x (y ∷ ys) = if ltb y x then y ∷ insert_sorted x ys else x ∷ (y ∷ ys)

abbrev sort : List ℕ → List ℕ
sort [] = []
sort (x ∷ xs) = insert_sorted x (sort xs)

count-insert_sorted :
    (p : ℕ → Bool) (x : ℕ) (xs : List ℕ) → count p (insert_sorted x xs) ≡ count p (x ∷ xs)
count-insert_sorted p x [] = refl
count-insert_sorted p x (y ∷ ys) = ground (arith, count-insert_sorted p x ys)

count-sort : (p : ℕ → Bool) (xs : List ℕ) → count p (sort xs) ≡ count p xs
count-sort p [] = refl
count-sort p (x ∷ xs) = ground (arith, count-insert_sorted p x (sort xs), count-sort p xs)

abbrev AtLeast : ℕ → List ℕ → Type 0
AtLeast x [] = Unit
AtLeast x (y ∷ ys) = x ≤ y × AtLeast x ys

abbrev IsSorted : List ℕ → Type 0
IsSorted [] = Unit
IsSorted (x ∷ xs) = AtLeast x xs × IsSorted xs

AtLeast-trans : (x y : ℕ) (ys : List ℕ) → x ≤ y → AtLeast y ys → AtLeast x ys
AtLeast-trans x y [] h a = a
AtLeast-trans x y (z ∷ zs) h (a, b) = (omega arith, AtLeast-trans x y zs h b)

insert_sorted-AtLeast :
    (v x : ℕ) (ys : List ℕ) → v ≤ x → AtLeast v ys → AtLeast v (insert_sorted x ys)
insert_sorted-AtLeast v x [] h a = (h, a)
insert_sorted-AtLeast v x (y ∷ ys) h (a, b) = elim (Bool-cases (ltb y x)) [
  | inl e ↦ rw e (a, insert_sorted-AtLeast v x ys h b)
  | inr e ↦ rw e (h, (a, b))
]

insert_sorted-IsSorted : (x : ℕ) (ys : List ℕ) → IsSorted ys → IsSorted (insert_sorted x ys)
insert_sorted-IsSorted x [] s = (s, s)
insert_sorted-IsSorted x (y ∷ ys) (a, b) = elim (Bool-cases (ltb y x)) [
  | inl e ↦ rw e (insert_sorted-AtLeast y x ys (ground arith) a, insert_sorted-IsSorted x ys b)
  | inr e ↦ rw e (((ground arith), AtLeast-trans x y ys (ground arith) a), (a, b))
]

sort-IsSorted : (xs : List ℕ) → IsSorted (sort xs)
sort-IsSorted [] = tt
sort-IsSorted (x ∷ xs) = insert_sorted-IsSorted x (sort xs) (sort-IsSorted xs)

get_or-AtLeast : (x : ℕ) (xs : List ℕ) (d j : ℕ) → AtLeast x xs → j < length xs → x ≤ get_or xs j d
get_or-AtLeast x [] d j a l = absurd (omega arith)
get_or-AtLeast x (y ∷ ys) d zero (a, b) l = a
get_or-AtLeast x (y ∷ ys) d (suc j) (a, b) l = get_or-AtLeast x ys d j b (omega arith)

get_or-IsSorted :
    (xs : List ℕ) (d i j : ℕ) → IsSorted xs → i ≤ j → j < length xs → get_or xs i d ≤ get_or xs j d
get_or-IsSorted [] d i j s h l = absurd (omega arith)
get_or-IsSorted (x ∷ xs) d zero zero s h l = omega arith
get_or-IsSorted (x ∷ xs) d zero (suc j) (a, b) h l = get_or-AtLeast x xs d j a (omega arith)
get_or-IsSorted (x ∷ xs) d (suc i) zero s h l = absurd (omega arith)
get_or-IsSorted (x ∷ xs) d (suc i) (suc j) (a, b) h l =
    get_or-IsSorted xs d i j b (omega arith) (omega arith)

sort_sorted :
    (xs : List ℕ) (d i j : ℕ)
    → i ≤ j
    → j < length (sort xs)
    → ltb (get_or (sort xs) j d) (get_or (sort xs) i d) ≡ false
sort_sorted xs d i j h l = ground (arith, get_or-IsSorted (sort xs) d i j (sort-IsSorted xs) h l)

abbrev noisy : ℕ → Signal ℕ
noisy i = record { value = if i % 2 == 0 then 100 - i else i; timestamp = i }

abbrev odd_on : ℕ → Bool
odd_on i = i % 2 == 1

-- Run 5 of a filter of five places.
run-IsMiddle_example :
    let f = run_times sort 5 noisy odd_on 4 (create sort 5 0 77) in
    IsMiddle sort 5 nat_order count-sort sort_sorted
      (5 / 2)
      (latest sort 5 0 noisy 4)
      (run sort 5 (noisy 4) (enable sort 5 f)).1.value
    × ((run sort 5 (noisy 4) (disable sort 5 f)).1 ≡ noisy 4)
run-IsMiddle_example =
    run-IsMiddle sort 5 nat_order count-sort sort_sorted 0 77 noisy odd_on 4 (omega arith)

abbrev coefficients : ℕ → Bool
coefficients i = if i == 1 then false else true

abbrev parity : ℕ → Signal Bool
parity i = record { value = i % 2 == 0; timestamp = i }

-- A filter over the field of two elements with three coefficients.
run-weighted_example :
    let f =
      MovingAverage.run_times bits 3 parity odd_on 4 (MovingAverage.create bits 3 coefficients) in
    ((MovingAverage.run bits 3 (parity 4) (MovingAverage.enable bits 3 f)).1
      ≡ record { value = weighted bits 3 coefficients parity 4; timestamp = (parity 4).timestamp })
    × ((MovingAverage.run bits 3 (parity 4) (MovingAverage.disable bits 3 f)).1 ≡ parity 4)
run-weighted_example = run-weighted bits 3 coefficients parity odd_on 4 (omega arith)
