-- ===== src/Core/Statistics/Extremes.antt =====
-- The least and the greatest measurement: src/core/Statistics.cpp.
use eeros_framework.Base.{
  ◌≡◌, refl, sym, subst, ◌∙◌, ◌⊎◌, inl, inr, false, List, [], ◌∷◌, All, Order, Bool-cases,
  if◌then◌else◌, lt_asymm, not_lt_trans,
}
use eeros_framework.Core.Statistics.{Numbers, Statistics, reset, add, adds}

-- `x` is one of the list.
abbrev pub Among : {T : Type 0} → T → List T → Type 0
Among x [] = ⊥
Among x (y ∷ ys) = (x ≡ y) ⊎ Among x ys

-- `m` is the least of the list in the order.
abbrev pub IsLeast : {T : Type 0} → Order T → List T → T → Type 0
IsLeast o vs m = All (λ w. o.lt w m ≡ false) vs × Among m vs

-- The order turned round.
abbrev pub opposite : {T : Type 0} → Order T → Order T
opposite o = record {
  lt = λ a b. o.lt b a;
  lt_irrefl = o.lt_irrefl;
  lt_trans = λ a b c p q. o.lt_trans c b a q p;
  lt_connex = λ a b p q. o.lt_connex a b q p;
}

module _ {T : Type 0} (o : Order T) where
  abbrev least : List T → T → T
  least [] m = m
  least (v ∷ vs) m = least vs (if o.lt v m then v else m)

  lower_left : (v m : T) → o.lt v (if o.lt v m then v else m) ≡ false
  lower_left v m = elim (Bool-cases (o.lt v m)) [ inl h ↦ rw h (o.lt_irrefl v) | inr h ↦ rw h h ]

  lower_right : (v m : T) → o.lt m (if o.lt v m then v else m) ≡ false
  lower_right v m = elim (Bool-cases (o.lt v m)) [
    | inl h ↦ rw h (lt_asymm o v m h)
    | inr h ↦ rw h (o.lt_irrefl m)
  ]

  least-start : (vs : List T) (m : T) → o.lt m (least vs m) ≡ false
  least-start [] m = o.lt_irrefl m
  least-start (v ∷ vs) m =
      let n = if o.lt v m then v else m in
      not_lt_trans o (least vs n) n m (least-start vs n) (lower_right v m)

  least-All : (vs : List T) (m : T) → All (λ w. o.lt w (least vs m) ≡ false) vs
  least-All [] m = tt
  least-All (v ∷ vs) m =
      let n = if o.lt v m then v else m in
      (not_lt_trans o (least vs n) n v (least-start vs n) (lower_left v m), least-All vs n)

  least-Among : (vs : List T) (m : T) → (least vs m ≡ m) ⊎ Among (least vs m) vs
  least-Among [] m = inl refl
  least-Among (v ∷ vs) m = elim (least-Among vs (if o.lt v m then v else m)) [
    | inr h ↦ inr (inr h)
    | inl e ↦ elim (Bool-cases (o.lt v m)) [
      | inl h ↦ inr (inl (e ∙ rw h refl))
      | inr h ↦ inl (e ∙ rw h refl)
    ]
  ]

  least-IsLeast :
      (top : T) (v : T) (vs : List T) → o.lt top v ≡ false → IsLeast o (v ∷ vs) (least (v ∷ vs) top)
  least-IsLeast top v vs h =
      let all = least-All (v ∷ vs) top in
      (
        all,
        elim (least-Among (v ∷ vs) top) [
          | inr a ↦ a
          | inl e ↦ inl (e ∙ sym (o.lt_connex v top (subst (λ m. o.lt v m ≡ false) e all.0) h))
        ],
      )

module _ {T : Type 0} (t : Numbers T) where
  adds-min : (vs : List T) (s : Statistics T) → (adds t vs s).min ≡ least t.order vs s.min
  unfolding adds add
  adds-min [] s = refl
  adds-min (v ∷ vs) s = adds-min vs (add t v s)

  adds-max :
      (vs : List T) (s : Statistics T) → (adds t vs s).max ≡ least (opposite t.order) vs s.max
  unfolding adds add
  adds-max [] s = refl
  adds-max (v ∷ vs) s = adds-max vs (add t v s)

  -- After a reset the minimum and the maximum are the least and the greatest of the measurements
  -- `v` and `vs`, where `v` is within the limits of the type.
  pub adds-IsLeast :
      (v : T) (vs : List T)
      → t.order.lt t.biggest v ≡ false
      → t.order.lt v t.lowest ≡ false
      → let s = adds t (v ∷ vs) (reset t) in
        IsLeast t.order (v ∷ vs) s.min × IsLeast (opposite t.order) (v ∷ vs) s.max
  unfolding reset
  adds-IsLeast v vs h k = (
    subst (IsLeast t.order (v ∷ vs)) (sym (adds-min (v ∷ vs) (reset t)))
        (least-IsLeast t.order t.biggest v vs h),
    subst (IsLeast (opposite t.order) (v ∷ vs)) (sym (adds-max (v ∷ vs) (reset t)))
        (least-IsLeast (opposite t.order) t.lowest v vs k),
  )
