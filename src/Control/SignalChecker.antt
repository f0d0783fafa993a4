-- ===== src/Control/SignalChecker.antt =====
-- The block that watches a signal and triggers a safety event:
-- includes/eeros/control/SignalChecker.hpp, for signals that are compared with their limits
-- themselves. The safety system is that of `Safety.System`.
mod Examples
use eeros_framework.Base.{
  ℕ, ◌≡◌, refl, ap, ◌∙◌, Bool, true, false, not, ◌&&◌, Option, none, some, List, [], ◌∷◌, ◌++◌,
  Order, if◌then◌else◌, All, Result, ok, throw, ◌>>=◌,
}
use eeros_framework.Safety.Level.{SafetyEvent, level_le}
use eeros_framework.Safety.System.{System, get_current_level, trigger_event}

-- `active_level` is the address of a level; `event` stands for the safety system and its event,
-- which are registered together.
pub record SignalChecker (T : Type 0) : Type 0 where
  pub lower_limit : T
  pub upper_limit : T
  pub fired : Bool
  pub event : Option SafetyEvent
  pub active_level : Option ℕ
  pub off_range : Bool

module _ {T : Type 0} where
  pub create : T → T → Bool → SignalChecker T
  create lower upper off_range = record {
    lower_limit = lower;
    upper_limit = upper;
    fired = false;
    event = none;
    active_level = none;
    off_range = off_range;
  }

  pub reset : SignalChecker T → SignalChecker T
  reset c = record c { fired = false }

  pub set_limits : T → T → SignalChecker T → SignalChecker T
  set_limits lower upper c = record c { lower_limit = lower; upper_limit = upper }

  pub register_safety_event : SafetyEvent → SignalChecker T → SignalChecker T
  register_safety_event e c = record c { event = some e }

  pub set_active_level : ℕ → SignalChecker T → SignalChecker T
  set_active_level l c = record c { active_level = some l }

module _ {T : Type 0} (o : Order T) where
  -- `withinLimits`; `limitsExceeded` is its negation.
  pub within_limits : SignalChecker T → T → Bool
  within_limits c v = o.lt c.lower_limit v && o.lt v c.upper_limit

  -- Whether the value is one to fire at.
  pub violates : SignalChecker T → T → Bool
  unfolding within_limits
  violates c v = if c.off_range then within_limits c v else not (within_limits c v)

module _ {T W V : Type 0} where
  -- The test of the active level.
  pub is_active : SignalChecker T → System W V → Result Bool
  unfolding level_le
  is_active c s = elim c.active_level [
    | none ↦ ok true
    | some l ↦ do current ← get_current_level s; ok (level_le (s.levels l) current)
  ]

  -- What happens with an event and a value to fire at, when the checker is active and when not.
  fire_if :
      Bool → SafetyEvent → SignalChecker T → System W V → Result (SignalChecker T × System W V)
  fire_if false e c s = ok (c, s)
  fire_if true e c s = trigger_event s e false >>= (λ s'. ok (record c { fired = true }, s'))

  pub fire : SafetyEvent → SignalChecker T → System W V → Result (SignalChecker T × System W V)
  unfolding is_active fire_if
  fire e c s = is_active c s >>= (λ active. fire_if active e c s)

  -- The tests of a run, of which the first says that the checker has not fired and the value is one
  -- to fire at.
  check :
      Bool
      → Option SafetyEvent
      → SignalChecker T
      → System W V
      → Result (SignalChecker T × System W V)
  unfolding fire
  check false event c s = ok (c, s)
  check true none c s = ok (c, s)
  check true (some e) c s = fire e c s

module _ {T W V : Type 0} (o : Order T) where
  pub run : T → SignalChecker T → System W V → Result (SignalChecker T × System W V)
  unfolding violates check
  run v c s = check (not c.fired && violates o c v) c.event c s

  -- Runs with the values of a list.
  pub run_all : List T → SignalChecker T → System W V → Result (SignalChecker T × System W V)
  run_all [] c s = ok (c, s)
  run_all (v ∷ vs) c s = do (c', s') ← run v c s; run_all vs c' s'

  -- A run at which the first test fails.
  run_all-skip :
      (v : T) (vs : List T) (c : SignalChecker T) (s : System W V)
      → (not c.fired && violates o c v) ≡ false
      → run_all (v ∷ vs) c s ≡ run_all vs c s
  unfolding run_all run check
  run_all-skip v vs c s d = ap (λ b. check b c.event c s >>= (λ (c', s'). run_all vs c' s')) d

  run_all-fired :
      (vs : List T) (c : SignalChecker T) (s : System W V)
      → c.fired ≡ true
      → run_all vs c s ≡ ok (c, s)
  unfolding run_all
  run_all-fired [] c s f = refl
  run_all-fired (v ∷ vs) c s f =
      run_all-skip v vs c s (ap (λ b. not b && violates o c v) f) ∙ run_all-fired vs c s f

  run_all-once_more :
      (vs : List T) (c : SignalChecker T) (r : Result (System W V))
      → (r >>= (λ s'. ok (record c { fired = true }, s')) >>= (λ (c', s'). run_all vs c' s'))
        ≡ (r >>= (λ s'. ok (record c { fired = true }, s')))
  run_all-once_more vs c (ok s') = run_all-fired vs (record c { fired = true }) s' refl
  run_all-once_more vs c (throw e) = refl

  -- A checker that has not fired and is active in the current level triggers its registered event
  -- at the first value to fire at, then counts as fired, and whatever values come later it does not
  -- trigger again.
  pub run_all-once :
      (c : SignalChecker T) (s : System W V) (e : SafetyEvent) (before after : List T) (v : T)
      → c.fired ≡ false
      → c.event ≡ some e
      → is_active c s ≡ ok true
      → All (λ u. violates o c u ≡ false) before
      → violates o c v ≡ true
      → run_all (before ++ (v ∷ after)) c s
        ≡ (trigger_event s e false >>= (λ s'. ok (record c { fired = true }, s')))
  unfolding run_all run check fire fire_if
  run_all-once c s e [] after v f ev a q p =
      let next =
        λ (r : Result (SignalChecker T × System W V)). r >>= (λ (c', s'). run_all after c' s') in
      let due : (not c.fired && violates o c v) ≡ true = ap (λ b. not b && violates o c v) f ∙ p in
      ap (λ b. next (check b c.event c s)) due
      ∙ ap (λ event. next (check true event c s)) ev
      ∙ ap (λ (r : Result Bool). next (r >>= (λ active. fire_if active e c s))) a
      ∙ run_all-once_more after c (trigger_event s e false)
  run_all-once c s e (u ∷ before) after v f ev a q p =
      run_all-skip u (before ++ (v ∷ after)) c s (ap (λ b. not b && violates o c u) f ∙ q.0)
      ∙ run_all-once c s e before after v f ev a q.1 p
