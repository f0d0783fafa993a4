-- ===== src/Task/Priorities/Sorting.antt =====
-- An insertion sort that does what `StdSort` asks of `std::sort`, to run the assignment of
-- priorities with.
use mathlib.Core.Bool.{Bool-set}
use mathlib.Core.List.{Perm, mem-cons, not-mem-nil}
use mathlib.Core.List.Perm
use mathlib.Core.Logic.Or
use eeros_framework.Base.{
  ◌≡◌, ap, ◌∙◌, true, false, List, [], ◌∷◌, arith, if◌then◌else◌, Bool-cases, inl, inr,
}
use eeros_framework.Task.Priorities.{Info, goes_before, IsOrdered, StdSort}

insert : Info → List Info → List Info
insert x [] = x ∷ []
insert x (y ∷ ys) = let rest = insert x ys in if goes_before y x then y ∷ rest else x ∷ y ∷ ys

sort : List Info → List Info
sort [] = []
sort (x ∷ xs) = insert x (sort xs)

behind :
    (a b c : Info) → goes_before a b ≡ false → goes_before b c ≡ false → goes_before a c ≡ false
unfolding goes_before
behind a b c h k = ground arith

one_way : (a b : Info) → goes_before a b ≡ true → goes_before b a ≡ false
unfolding goes_before
one_way a b h = ground arith

never_self : (a : Info) → goes_before a a ≡ false
unfolding goes_before
never_self a = ground arith

insert-perm : (x : Info) (ys : List Info) → Perm (x ∷ ys) (insert x ys)
unfolding insert
insert-perm x [] = Perm.refl (x ∷ [])
insert-perm x (y ∷ ys) = elim (Bool-cases (goes_before y x)) [
  | inl h ↦ rw h (Perm.trans (Perm.swap y x ys) (Perm.cons y (insert-perm x ys)))
  | inr h ↦ rw h (Perm.refl (x ∷ y ∷ ys))
]

sort-perm : (xs : List Info) → Perm xs (sort xs)
unfolding sort
sort-perm [] = Perm.refl []
sort-perm (x ∷ xs) = Perm.trans (Perm.cons x (sort-perm xs)) (insert-perm x (sort xs))

insert-IsOrdered : (x : Info) (ys : List Info) → IsOrdered ys → IsOrdered (insert x ys)
unfolding insert
insert-IsOrdered x [] o = (λ u m. absurd (not-mem-nil m), tt)
insert-IsOrdered x (y ∷ ys) o = elim (Bool-cases (goes_before y x)) [
  | inl h ↦ rw h (
    λ u m.
        Or.elim (Bool-set _ _) (mem-cons.0 (Perm.subset (Perm.symm (insert-perm x ys)) u m))
          (λ e. ap (λ v. goes_before v y) e ∙ one_way y x h) (λ later. o.0 u later),
    insert-IsOrdered x ys o.1,
  )
  | inr h ↦ rw h (
    λ u m.
        Or.elim (Bool-set _ _) (mem-cons.0 m) (λ e. ap (λ v. goes_before v x) e ∙ h)
          (λ later. behind u y x (o.0 u later) h),
    o,
  )
]

sort-IsOrdered : (xs : List Info) → IsOrdered (sort xs)
unfolding sort
sort-IsOrdered [] = tt
sort-IsOrdered (x ∷ xs) = insert-IsOrdered x (sort xs) (sort-IsOrdered xs)

pub insertion : StdSort
insertion = record { sort = sort; sort-IsOrdered = sort-IsOrdered; sort-perm = sort-perm }
