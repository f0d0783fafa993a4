-- ===== src/Safety/System/Run.antt =====
-- `SafetySystem::run`: a cycle of the safety system never faults once a level is defined, enters
-- the pending level, and reacts to its inputs.
use eeros_framework.Base.{
  ℕ, ◌+◌, ◌%◌, ◌^◌, ◌≡◌, refl, subst, ◌∙◌, inl, inr, true, Option, none, some, List, [], ◌∷◌, arith,
  Option-cases, Bool-cases, All, Store, update, ok,
}
use eeros_framework.Safety.Level.{SafetyEvent, in_context, Callback, InputAction, Level, rank}
use eeros_framework.Safety.System.{
  System, Hal, same_level, call, switch_level, fires, check_inputs, trigger_event, make_request,
}
use eeros_framework.Safety.System.Trigger.{
  Keeps, Keeps-refl, Keeps-trans, bound_later, trigger_event-world, Runs, IsServed,
  make_requests-Runs, make_request-Runs,
}

-- What step 2 makes of the current level when `next` is pending.
abbrev pub entered : Option ℕ → Option ℕ → Option ℕ
entered level none = level
entered level (some n) = some n

same_level→eq : (n : ℕ) (level : Option ℕ) → same_level (some n) level ≡ true → level ≡ some n
same_level→eq n none h = cc
same_level→eq n (some l) h = ground arith

module _ {W V : Type 0} where
  pub call-Runs :
      (s : System W V) (f : Option (Callback W)) (c : ℕ)
      → s.current_level ≡ some c
      → Runs s (call s f)
  unfolding call
  call-Runs s none c h = (s, refl, Keeps-refl s)
  call-Runs s (some f) c h =
      let (t, e, k, _) =
        make_requests-Runs (record s { world = (f s.world).0 }) (f s.world).1 c h in
      (t, e, record { current = k.current; levels = k.levels; bound = k.bound })

  -- The state `t` behind step 2, with its local variable `level`.
  pub record Switched (s : System W V) (level next : Option ℕ) (t : System W V × Option ℕ)
      : Type 0 where
    pub local : t.1 ≡ entered level next
    pub current : t.0.current_level ≡ entered level next
    pub levels : t.0.levels ≡ s.levels

  leave_level :
      (s : System W V) (level : Option ℕ)
      → s.current_level ≡ level
      → Runs s (elim level [ none ↦ ok s | some l ↦ call s (s.levels l).on_exit ])
  leave_level s none h = (s, refl, Keeps-refl s)
  leave_level s (some l) h = call-Runs s (s.levels l).on_exit l h

  pub switch_level-Switched :
      (s : System W V) (level next : Option ℕ)
      → s.current_level ≡ level
      → (t : System W V × Option ℕ) × (switch_level s level next ≡ ok t) × Switched s level next t
  unfolding switch_level
  switch_level-Switched s level none h =
      ((s, level), refl, record { local = refl; current = h; levels = refl })
  switch_level-Switched s level (some n) h = elim (Bool-cases (same_level (some n) level)) [
    | inl e ↦
        let is = same_level→eq n level e in
        ((s, level), rw e, record { local = is; current = h ∙ is; levels = refl })
    | inr e ↦
        let (s1, e1, k1) = leave_level s level h in
        let (s2, e2, k2) =
          call-Runs (record s1 { current_level = some n }) (s1.levels n).on_entry n refl in
        (
          (s2, some n),
          rw (e, e1, e2),
          record { local = refl; current = k2.current; levels = k2.levels ∙ k1.levels },
        )
  ]

-- The level objects once level `l` counts one more activation.
abbrev pub activate : {W V : Type 0} → Store (Level W V) → ℕ → Store (Level W V)
activate heap l =
    update heap l (record (heap l) { nof_activations = ((heap l).nof_activations + 1) % 2 ^ 32 })

module _ {W V : Type 0} (hal : Hal W V) where
  -- If the input action triggers its event in the world `w`, then the event is served.
  abbrev pub IsReacted : W → Store (Level W V) → ℕ → Option ℕ → Option (InputAction V) → Type 0
  IsReacted w heap c next none = Unit
  IsReacted w heap c next (some a) =
      (event : SafetyEvent) → fires hal w a ≡ some event → IsServed heap c next (in_context event)

  -- The body of the loop over the input actions.
  check_input-Runs :
      (s : System W V) (a : InputAction V) (c : ℕ)
      → s.current_level ≡ some c
      → (t : System W V) × ((elim (fires hal s.world a) [
        | none ↦ ok s
        | some event ↦ trigger_event s event true
      ])
          ≡ ok t)
        × Keeps s t
        × (t.world ≡ s.world)
        × IsReacted s.world s.levels c t.next_level (some a)
  check_input-Runs s a c h = elim (Option-cases (fires hal s.world a)) [
    | inl e ↦ (s, rw e, Keeps-refl s, refl, λ event f. cc)
    | inr (event, e) ↦
        let (t, r, k, served) = make_request-Runs s (in_context event) c h in
        let r' : trigger_event s event true ≡ ok t = unfold make_request in r in
        (
          t,
          rw e r',
          k,
          trigger_event-world s t event true c h r',
          λ event' f. subst (λ v. IsServed s.levels c t.next_level (in_context v)) (cc) served,
        )
  ]

  pub check_inputs-Runs :
      (s : System W V) (actions : List (Option (InputAction V))) (c : ℕ)
      → s.current_level ≡ some c
      → (t : System W V) × (check_inputs hal s actions ≡ ok t)
        × Keeps s t
        × All (IsReacted s.world s.levels c t.next_level) actions
  unfolding check_inputs
  check_inputs-Runs s [] c h = (s, refl, Keeps-refl s, tt)
  check_inputs-Runs s (none ∷ actions) c h =
      let (t, e, k, all) = check_inputs-Runs s actions c h in (t, e, k, (tt, all))
  check_inputs-Runs s (some a ∷ actions) c h =
      let (t, e, k, same, first) = check_input-Runs s a c h in
      let (u, e', l, others) = check_inputs-Runs t actions c (k.current ∙ h) in
      (
        u,
        rw e e',
        Keeps-trans k l,
        (
          λ event f n d. bound_later (rank (s.levels n).id) k l (first event f n d),
          subst (λ heap. All (IsReacted s.world heap c u.next_level) actions) k.levels
              (subst (λ w. All (IsReacted w t.levels c u.next_level) actions) same others),
        ),
      )
