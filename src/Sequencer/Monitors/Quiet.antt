-- ===== src/Sequencer/Monitors/Quiet.antt =====
-- Monitors that do not fire, and how the loops of `checkMonitors` go over them.
use eeros_framework.Base.{
  ℕ, ◌≡◌, refl, ap, ok, Bool, false, Option, none, List, [], ◌∷◌, ◌++◌, Store, All, Bool-cases, inl,
  inr,
}
use eeros_framework.Sequencer.Monitors.{
  Monitor, BaseSequence, check_monitor, check_all, check_stack, handle_active, check_monitors,
}

-- No monitor of the list fires, whatever the world.
abbrev pub AreQuiet : {W : Type 0} → (ℕ → W → Bool × W) → List Monitor → Type 0
AreQuiet {W} validate ms = All (λ (m : Monitor). (w : W) → (validate m.condition w).0 ≡ false) ms

module _ {W : Type 0} (validate : ℕ → W → Bool × W)
    (start : ℕ → Store BaseSequence × W → Store BaseSequence × W) where
  check_monitor-quiet :
      (m : Monitor) (h : Store BaseSequence) (w : W)
      → (validate m.condition w).0 ≡ false
      → check_monitor validate start m (h, w) ≡ (none, (h, (validate m.condition w).1))
  unfolding check_monitor
  check_monitor-quiet m h w f = rw f refl

  pub check_all-quiet :
      (ms : List Monitor) (active : Option ℕ) (h : Store BaseSequence) (w : W)
      → AreQuiet validate ms
      → (w' : W) × (check_all validate start ms active (h, w) ≡ (active, (h, w')))
  unfolding check_all
  check_all-quiet [] active h w q = (w, refl)
  check_all-quiet (m ∷ ms) active h w q =
      let (w', e) = check_all-quiet ms active h (validate m.condition w).1 q.1 in
      (w', rw (check_monitor-quiet m h w (q.0 w)) e)

  pub check_all-append :
      (ms ns : List Monitor) (active : Option ℕ) (x : Store BaseSequence × W)
      → check_all validate start (ms ++ ns) active x
        ≡ (let (a, y) = check_all validate start ms active x in check_all validate start ns a y)
  unfolding check_all
  check_all-append [] ns active x = refl
  check_all-append (m ∷ ms) ns active x = check_all-append ms ns _ _

  pub check_stack-append :
      (ss ts : List ℕ) (active : Option ℕ) (x : Store BaseSequence × W)
      → check_stack validate start (ss ++ ts) active x
        ≡ (let (a, y) = check_stack validate start ss active x in check_stack validate start ts a y)
  unfolding check_stack
  check_stack-append [] ts active x = refl
  check_stack-append (s ∷ ss) ts active (h, w) = check_stack-append ss ts _ _

  pub check_stack-quiet :
      (ss : List ℕ) (active : Option ℕ) (h : Store BaseSequence) (w : W)
      → All (λ s. AreQuiet validate (h s).monitors) ss
      → (w' : W) × (check_stack validate start ss active (h, w) ≡ (active, (h, w')))
  unfolding check_stack
  check_stack-quiet [] active h w q = (w, refl)
  check_stack-quiet (s ∷ ss) active h w q = elim (Bool-cases (h s).in_exc_processing) [
    | inl e ↦ rw e (check_stack-quiet ss active h w q.1)
    | inr e ↦
        let (w', e') = check_all-quiet (h s).monitors active h w q.0 in
        let (w2, e2) = check_stack-quiet ss active h w' q.1 in (w2, rw (e, e') e2)
  ]

  -- When no monitor of the caller stack fires, `checkMonitors` leaves the sequences as they are.
  pub check_monitors-quiet :
      (self : ℕ) (h : Store BaseSequence) (w : W)
      → All (λ s. AreQuiet validate (h s).monitors) (h self).caller_stack
      → (w' : W) × (check_monitors validate start self (h, w) ≡ ok (h, w'))
  unfolding check_monitors handle_active
  check_monitors-quiet self h w q =
      let (w', e) = check_stack-quiet (h self).caller_stack none h w q in
      (w', ap (handle_active validate start self) e)
