-- ===== src/Safety/Properties/Verify.antt =====
-- `SafetyProperties::verify` against what it has to check: every level names an action for every
-- critical output and for every critical input.
use eeros_framework.Base.{
  ℕ, ◌≡◌, refl, sym, ap, ◌∙◌, ◌↔◌, inl, inr, Bool, true, false, ◌&&◌, Option, none, some, List, [],
  ◌∷◌, map, arith, Bool-cases, ==_iff, ◌==◌, is_empty, is_some, All, Has, Store, Result, ok, throw,
  undefined, Result-cases,
}
use eeros_framework.Safety.Level.{InputAction, OutputAction, Level, get_input, get_output}
use eeros_framework.Safety.Properties.{
  Properties, erase_all, left_outputs, left_inputs, verify_levels, verify,
}

-- What the loops leave of `copy` when the actions are for the ends `ends`.
erase_each : List ℕ → List ℕ → List ℕ
erase_each [] copy = copy
erase_each (e ∷ ends) copy = erase_each ends (erase_all e copy)

erase_all-All :
    (t : ℕ) (ends copy : List ℕ)
    → All (λ o. Has o ends) (erase_all t copy) ↔ All (λ o. Has o (t ∷ ends)) copy
unfolding erase_all
erase_all-All t ends [] = (λ h. tt, λ h. tt)
erase_all-All t ends (y ∷ ys) = elim (Bool-cases (y == t)) [
  | inl e ↦ (
    λ h. (inl ((==_iff y t).0 e), (erase_all-All t ends ys).0 (rw (e, erase_all) at h)),
    λ h. rw (e, erase_all) ((erase_all-All t ends ys).1 h.1),
  )
  | inr e ↦ (
    λ h.
        let h' : All (λ o. Has o ends) (y ∷ erase_all t ys) = rw (e, erase_all) at h in
        (inr h'.0, (erase_all-All t ends ys).0 h'.1),
    λ h. rw (e, erase_all) (ground arith, (erase_all-All t ends ys).1 h.1),
  )
]

erase_each-empty :
    (ends copy : List ℕ) → (is_empty (erase_each ends copy) ≡ true) ↔ All (λ o. Has o ends) copy
unfolding erase_each
erase_each-empty [] [] = (λ h. tt, λ h. refl)
erase_each-empty [] (y ∷ ys) = (λ h. cc, λ h. absurd h.0)
erase_each-empty (e ∷ ends) copy = (
  λ h. (erase_all-All e ends copy).0 ((erase_each-empty ends (erase_all e copy)).0 h),
  λ h. (erase_each-empty ends (erase_all e copy)).1 ((erase_all-All e ends copy).1 h),
)

-- The actions are not null, and each of `critical` is the end of one of them.
abbrev pub Covers : {A : Type 0} → (A → ℕ) → List (Option A) → List ℕ → Type 0
Covers {A} end actions critical =
    (as' : List A) × (actions ≡ map some as') × All (λ o. Has o (map end as')) critical

-- Both loops over the actions of a level are this one.
left_of : {A : Type 0} → (A → ℕ) → List (Option A) → List ℕ → Result (List ℕ)
left_of end [] copy = ok copy
left_of end (none ∷ as') copy = throw undefined
left_of end (some a ∷ as') copy = left_of end as' (erase_all (end a) copy)

left_of-some :
    {A : Type 0} (end : A → ℕ) (as' : List A) (copy : List ℕ)
    → left_of end (map some as') copy ≡ ok (erase_each (map end as') copy)
unfolding left_of erase_each
left_of-some end [] copy = refl
left_of-some end (a ∷ as') copy = left_of-some end as' (erase_all (end a) copy)

left_of-ok :
    {A : Type 0} (end : A → ℕ) (actions : List (Option A)) (copy : List ℕ) {r : List ℕ}
    → left_of end actions copy ≡ ok r
    → (as' : List A) × (actions ≡ map some as')
unfolding left_of
left_of-ok end [] copy h = ([], refl)
left_of-ok end (none ∷ actions) copy h = cc
left_of-ok end (some a ∷ actions) copy h =
    let (as', e) = left_of-ok end actions (erase_all (end a) copy) h in
    (a ∷ as', ap (◌∷◌ (some a)) e)

left_outputs-eq-left_of :
    {V : Type 0} (outs : Store (OutputAction V)) (actions : List (Option ℕ)) (copy : List ℕ)
    → left_outputs outs actions copy ≡ left_of (λ a. get_output (outs a)) actions copy
unfolding left_outputs left_of
left_outputs-eq-left_of outs [] copy = refl
left_outputs-eq-left_of outs (none ∷ actions) copy = refl
left_outputs-eq-left_of outs (some a ∷ actions) copy = left_outputs-eq-left_of outs actions _

left_inputs-eq-left_of :
    {V : Type 0} (actions : List (Option (InputAction V))) (copy : List ℕ)
    → left_inputs actions copy ≡ left_of get_input actions copy
unfolding left_inputs left_of
left_inputs-eq-left_of [] copy = refl
left_inputs-eq-left_of (none ∷ actions) copy = refl
left_inputs-eq-left_of (some a ∷ actions) copy = left_inputs-eq-left_of actions _

nil_of_is_empty : {A : Type 0} (xs : List A) → is_empty xs ≡ true → xs ≡ []
nil_of_is_empty [] h = refl
nil_of_is_empty (x ∷ xs) h = cc

left_of-All :
    {A : Type 0} (end : A → ℕ) (as' : List A) (critical : List ℕ)
    → (left_of end (map some as') critical ≡ ok []) ↔ All (λ o. Has o (map end as')) critical
left_of-All end as' critical = (
  λ h.
      let e : erase_each (map end as') critical ≡ [] = cc (left_of-some end as' critical) in
      (erase_each-empty (map end as') critical).0 (rw e),
  λ h.
      left_of-some end as' critical
      ∙ ap ok (nil_of_is_empty _ ((erase_each-empty (map end as') critical).1 h)),
)

left_of-Covers :
    {A : Type 0} (end : A → ℕ) (actions : List (Option A)) (critical : List ℕ)
    → (left_of end actions critical ≡ ok []) ↔ Covers end actions critical
left_of-Covers end actions critical = (
  λ h.
      let (as', e) = left_of-ok end actions critical h in
      (as', e, (left_of-All end as' critical).0 (rw e at h)),
  λ (as', e, c). rw e ((left_of-All end as' critical).1 c),
)

-- What `verify` has to establish of one level.
pub record IsCovered {W V : Type 0} (p : Properties) (outs : Store (OutputAction V)) (l : Level W V)
    : Type 0 where
  pub outputs : Covers (λ a. get_output (outs a)) l.output_action p.critical_outputs
  pub inputs : Covers get_input l.input_action p.critical_inputs

module _ {W V : Type 0} (p : Properties) (heap : Store (Level W V))
    (outs : Store (OutputAction V)) where
  and_true : (b : Bool) → b && true && true ≡ b
  and_true true = refl
  and_true false = refl

  verify_levels_step :
      (l : ℕ) (ls : List ℕ) (checked b : Bool)
      → verify_levels p heap outs (l ∷ ls) checked ≡ ok b
      → (left_outputs outs (heap l).output_action p.critical_outputs ≡ ok [])
        × (left_inputs (heap l).input_action p.critical_inputs ≡ ok [])
        × (verify_levels p heap outs ls checked ≡ ok b)
  unfolding verify_levels
  verify_levels_step l ls checked b h = ground (arith, and_true checked)

  verify_levels_next :
      (l : ℕ) (ls : List ℕ) (checked : Bool)
      → left_outputs outs (heap l).output_action p.critical_outputs ≡ ok []
      → left_inputs (heap l).input_action p.critical_inputs ≡ ok []
      → verify_levels p heap outs (l ∷ ls) checked ≡ verify_levels p heap outs ls checked
  unfolding verify_levels
  verify_levels_next l ls checked h k = ground (arith, and_true checked)

  IsCovered-left_of :
      (l : Level W V)
      → IsCovered p outs l ↔ (
          (left_outputs outs l.output_action p.critical_outputs ≡ ok [])
          × (left_inputs l.input_action p.critical_inputs ≡ ok []))
  IsCovered-left_of l = (
    λ c. (
      left_outputs-eq-left_of outs _ _ ∙ (left_of-Covers _ _ _).1 c.outputs,
      left_inputs-eq-left_of _ _ ∙ (left_of-Covers _ _ _).1 c.inputs,
    ),
    λ (h, k). record {
      outputs = (left_of-Covers _ _ _).0 (sym (left_outputs-eq-left_of outs _ _) ∙ h);
      inputs = (left_of-Covers _ _ _).0 (sym (left_inputs-eq-left_of _ _) ∙ k);
    },
  )

  verify_levels-ok :
      (ls : List ℕ) (checked b : Bool)
      → verify_levels p heap outs ls checked ≡ ok b
      → All (λ l. IsCovered p outs (heap l)) ls × (b ≡ checked)
  unfolding verify_levels
  verify_levels-ok [] checked b h = (tt, cc)
  verify_levels-ok (l ∷ ls) checked b h =
      let (o, i, r) = verify_levels_step l ls checked b h in
      let (all, e) = verify_levels-ok ls checked b r in
      (((IsCovered-left_of (heap l)).1 (o, i), all), e)

  verify_levels-All :
      (ls : List ℕ) (checked : Bool)
      → All (λ l. IsCovered p outs (heap l)) ls
      → verify_levels p heap outs ls checked ≡ ok checked
  unfolding verify_levels
  verify_levels-All [] checked h = refl
  verify_levels-All (l ∷ ls) checked h =
      let (o, i) = (IsCovered-left_of (heap l)).0 h.0 in
      verify_levels_next l ls checked o i ∙ verify_levels-All ls checked h.1

  -- `verify` returns true exactly when every level has a non-null action for each critical output
  -- and for each critical input, no level has a null action, and the entry level is set.
  pub verify_iff :
      (verify p heap outs ≡ ok true)
      ↔ (All (λ l. IsCovered p outs (heap l)) p.levels × (is_some p.entry_level ≡ true))
  unfolding verify
  verify_iff = (there, back)
    where
      there :
          verify p heap outs ≡ ok true
          → All (λ l. IsCovered p outs (heap l)) p.levels × (is_some p.entry_level ≡ true)
      there h = elim (Result-cases (verify_levels p heap outs p.levels true)) [
        | inl (b, e) ↦ let (all, t) = verify_levels-ok p.levels true b e in (all, ground arith)
        | inr (f, e) ↦ absurd (ground arith)
      ]

      back :
          All (λ l. IsCovered p outs (heap l)) p.levels × (is_some p.entry_level ≡ true)
          → verify p heap outs ≡ ok true
      back (all, e) = rw (verify_levels-All p.levels true all) (ap ok e)
