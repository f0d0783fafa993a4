-- ===== src/Control/Switch/Calls.antt =====
-- The calls of the combined switches end, if they are not combined in a circle.
use eeros_framework.Base.{
  ℕ, zero, suc, ◌<◌, ◌≡◌, refl, ap, subst, ◌∙◌, ◌⊎◌, inl, inr, arith, Bool-cases, ltb, ◌==◌, ==_iff,
  Option, some, List, [], ◌∷◌, Store, update_self, Has,
}
use eeros_framework.Control.Switch.{Switch, each, ◌>>=◌, set_current, switch_to_input}

module _ {T : Type 0} where
  -- `h'` is `h` with the input of some switches set to `index`.
  abbrev pub Moved : ℕ → Store (Switch T) → Store (Switch T) → Type 0
  Moved index h h' = (x : ℕ) → h' x ≡ h x ⊎ h' x ≡ record (h x) { current_input = index }

  pub Moved-refl : (index : ℕ) (h : Store (Switch T)) → Moved index h h
  Moved-refl index h x = inl refl

  pub Moved-trans :
      (index : ℕ) (h h' h'' : Store (Switch T))
      → Moved index h h'
      → Moved index h' h''
      → Moved index h h''
  Moved-trans index h h' h'' p q x = join (p x) (q x)
    where
      join :
          (h' x ≡ h x ⊎ h' x ≡ record (h x) { current_input = index })
          → (h'' x ≡ h' x ⊎ h'' x ≡ record (h' x) { current_input = index })
          → h'' x ≡ h x ⊎ h'' x ≡ record (h x) { current_input = index }
      join (inl a) (inl b) = inl (b ∙ a)
      join (inl a) (inr b) = inr (b ∙ ap (λ (s : Switch T). record s { current_input = index }) a)
      join (inr a) (inl b) = inr (b ∙ a)
      join (inr a) (inr b) = inr (b ∙ ap (λ (s : Switch T). record s { current_input = index }) a)

  pub combined-Moved :
      (index : ℕ) (h h' : Store (Switch T)) (x : ℕ)
      → Moved index h h'
      → (h' x).combined ≡ (h x).combined
  combined-Moved index h h' x p = elim (p x) [
    | inl e ↦ ap (λ (s : Switch T). s.combined) e
    | inr e ↦ ap (λ (s : Switch T). s.combined) e
  ]

  pub safety_event-Moved :
      (index : ℕ) (h h' : Store (Switch T)) (x : ℕ)
      → Moved index h h'
      → (h' x).safety_event ≡ (h x).safety_event
  safety_event-Moved index h h' x p = elim (p x) [
    | inl e ↦ ap (λ (s : Switch T). s.safety_event) e
    | inr e ↦ ap (λ (s : Switch T). s.safety_event) e
  ]

  pub current_input-Moved :
      (index : ℕ) (h h' : Store (Switch T)) (x : ℕ)
      → Moved index h h'
      → (h x).current_input ≡ index
      → (h' x).current_input ≡ index
  current_input-Moved index h h' x p c = elim (p x) [
    | inl e ↦ ap (λ (s : Switch T). s.current_input) e ∙ c
    | inr e ↦ ap (λ (s : Switch T). s.current_input) e
  ]

  -- Each switch is combined with switches of less depth only, so there is no circle.
  abbrev pub IsRanked : (ℕ → ℕ) → Store (Switch T) → Type 0
  IsRanked depth h = (x b : ℕ) → Has b (h x).combined → depth b < depth x

  pub IsRanked-Moved :
      (depth : ℕ → ℕ) (index : ℕ) (h h' : Store (Switch T))
      → Moved index h h'
      → IsRanked depth h
      → IsRanked depth h'
  IsRanked-Moved depth index h h' p r x b m =
      r x b (subst (Has b) (combined-Moved index h h' x p) m)

  set_current-Moved :
      (bound a index : ℕ) (h : Store (Switch T)) → Moved index h (set_current bound a index h)
  unfolding set_current
  set_current-Moved bound a index h x = elim (Bool-cases (a == x)) [
    | inl e ↦
        let same : a ≡ x = (==_iff a x).0 e in
        inr (rw e (ap (λ y. record (h y) { current_input = index }) same))
    | inr e ↦ inl (rw e refl)
  ]

  set_current_self :
      (bound a index : ℕ) (h : Store (Switch T))
      → (set_current bound a index h a).current_input ≡ index
  unfolding set_current
  set_current_self bound a index h =
      ap (λ (s : Switch T). s.current_input)
        (update_self h a (record (h a) { current_input = index }))

  pub each-Moved :
      (depth : ℕ → ℕ) (index : ℕ) (body : ℕ → Store (Switch T) → Option (Store (Switch T)))
      (bs : List ℕ) (h : Store (Switch T))
      → ((b : ℕ) (h : Store (Switch T))
          → Has b bs
          → IsRanked depth h
          → (h' : Store (Switch T)) × (body b h ≡ some h') × Moved index h h')
      → IsRanked depth h
      → (h' : Store (Switch T)) × (each body bs h ≡ some h') × Moved index h h'
  each-Moved depth index body [] h f r = (h, refl, Moved-refl index h)
  each-Moved depth index body (b ∷ bs) h f r =
      let (h', e, p) = f b h (inl refl) r in
      let (h'', e', q) =
        each-Moved depth index body bs h' (λ c h m r. f c h (inr m) r)
          (IsRanked-Moved depth index h h' p r) in
      (h'', ap (λ o. o >>= λ s. each body bs s) e ∙ e', Moved-trans index h h' h'' p q)

  -- With more fuel than the depth of a switch the call returns: it leaves all but the inputs of the
  -- switches alone, those that change become `index`, and the input of the switch itself does, if
  -- there is an input of that number.
  pub switch_to_input_returns :
      (bound : ℕ) (depth : ℕ → ℕ) (fuel a index : ℕ) (h : Store (Switch T))
      → IsRanked depth h
      → depth a < fuel
      → (h' : Store (Switch T)) × (switch_to_input bound fuel a index h ≡ some h')
        × Moved index h h'
        × (index < bound → (h' a).current_input ≡ index)
  unfolding switch_to_input
  switch_to_input_returns bound depth zero a index h r l = absurd (omega arith)
  switch_to_input_returns bound depth (suc fuel) a index h r l =
      elim (Bool-cases (ltb index bound)) [
        | inl e ↦
            let s = set_current bound a index h in
            let (h', f, p) =
              each-Moved depth index (λ b. switch_to_input bound fuel b index) (h a).combined s
                (λ b g m q.
                  let (g', f, p, c) =
                    switch_to_input_returns bound depth fuel b index g q (omega (arith, r a b m)) in
                  (g', f, p))
                (IsRanked-Moved depth index h s (set_current-Moved bound a index h) r) in
            (
              h',
              rw e f,
              Moved-trans index h s h' (set_current-Moved bound a index h) p,
              λ k. current_input-Moved index s h' a p (set_current_self bound a index h),
            )
        | inr e ↦ (h, rw e refl, Moved-refl index h, λ k. absurd (ground arith))
      ]
