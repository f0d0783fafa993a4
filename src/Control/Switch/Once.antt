-- ===== src/Control/Switch/Once.antt =====
-- An armed switch switches once.
use eeros_framework.Base.{
  ℕ, ◌<◌, ◌≡◌, refl, ap, ap₂, ◌∙◌, arith, true, false, none, some, Store, update_self, Order,
}
use eeros_framework.Control.Signals.{Signal}
use eeros_framework.Control.Switch.{
  Switch, each, ◌>>=◌, switch_to_input, due, mark, fire, run, triggered,
}
use eeros_framework.Control.Switch.Calls.{
  Moved, Moved-trans, safety_event-Moved, current_input-Moved, IsRanked, IsRanked-Moved, each-Moved,
  switch_to_input_returns,
}

module _ {T : Type 0} (bound : ℕ) (add sub : T → T → T) (o : Order T) where
  mark_self :
      (a : ℕ) (h : Store (Switch T))
      → mark bound add sub o a h a ≡ record (h a) { switched = true; armed = false }
  unfolding mark
  mark_self a h = update_self h a (record (h a) { switched = true; armed = false })

  fire_returns :
      (depth : ℕ → ℕ) (fuel a : ℕ) (h : Store (Switch T))
      → IsRanked depth h
      → depth a < fuel
      → (h' : Store (Switch T)) × (fire bound add sub o fuel a h ≡ some (mark bound add sub o a h'))
        × Moved (h a).next_input h h'
        × ((h a).next_input < bound → (h' a).current_input ≡ (h a).next_input)
  unfolding fire
  fire_returns depth fuel a h k l =
      let next = (h a).next_input in
      let (h', e, p, c) = switch_to_input_returns bound depth fuel a next h k l in
      let k' = IsRanked-Moved depth next h h' p k in
      let (h'', f, q) =
        each-Moved depth next (λ b. switch_to_input bound fuel b next) (h' a).combined h'
          (λ b g m k''.
            let (g', f, p, c) =
              switch_to_input_returns bound depth fuel b next g k'' (omega (arith, k' a b m, l)) in
            (g', f, p))
          k' in
      (
        h'',
        ap
              (λ s. s >>= λ h.
                each (λ b. switch_to_input bound fuel b next) (h a).combined h >>= λ h.
                some (mark bound add sub o a h))
              e
            ∙ ap (λ s. s >>= λ h. some (mark bound add sub o a h)) f,
        Moved-trans next h h' h'' p q,
        λ b. current_input-Moved next h' h'' a q (c b),
      )

  -- A switch that is not due puts out its current input and changes nothing.
  run_idle :
      (fuel level a : ℕ) (inputs : ℕ → Signal T) (h : Store (Switch T))
      → due bound add sub o level (inputs (h a).current_input).value (h a) ≡ false
      → run bound add sub o fuel level a inputs h ≡ some (h, inputs (h a).current_input, none)
  unfolding run
  run_idle fuel level a inputs h e = rw e refl

  run-due :
      (fuel level a : ℕ) (inputs : ℕ → Signal T) (h h' : Store (Switch T))
      → due bound add sub o level (inputs (h a).current_input).value (h a) ≡ true
      → fire bound add sub o fuel a h ≡ some h'
      → run bound add sub o fuel level a inputs h
        ≡ some (h', inputs (h' a).current_input, (h' a).safety_event)
  unfolding run
  run-due fuel level a inputs h h' e f = rw (e, f) refl

  -- A switch that is not armed is not due.
  due_armed :
      (level : ℕ) (val : T) (s : Switch T)
      → s.armed ≡ false
      → due bound add sub o level val s ≡ false
  unfolding due
  due_armed level val s e = rw e refl

  -- A switch that was due has switched, and is not due again whatever comes, until it is armed:
  -- `run` puts out the input that it has switched to, if there is one of that number, with the
  -- safety event that is registered, and each later `run`, with any inputs at any level, puts out
  -- that input without an event and changes nothing.
  pub run-once :
      (depth : ℕ → ℕ) (fuel level a : ℕ) (inputs : ℕ → Signal T) (h : Store (Switch T))
      → IsRanked depth h
      → depth a < fuel
      → (h a).next_input < bound
      → due bound add sub o level (inputs (h a).current_input).value (h a) ≡ true
      → let next = (h a).next_input in
        (h' : Store (Switch T)) × (run bound add sub o fuel level a inputs h
          ≡ some (h', inputs next, (h a).safety_event))
        × (triggered bound (h' a) ≡ true)
        × ((fuel level : ℕ) (inputs : ℕ → Signal T)
            → run bound add sub o fuel level a inputs h' ≡ some (h', inputs next, none))
  unfolding triggered
  run-once depth fuel level a inputs h k l b d =
      let next = (h a).next_input in
      let (h', e, p, c) = fire_returns depth fuel a h k l in
      let m = mark bound add sub o a h' in
      let marked = mark_self a h' in
      let cur : (m a).current_input ≡ next = ap (λ (s : Switch T). s.current_input) marked ∙ c b in
      (
        m,
        run-due fuel level a inputs h m d e
            ∙ ap₂ (λ i v. some (m, inputs i, v)) cur
                (ap (λ (s : Switch T). s.safety_event) marked ∙ safety_event-Moved next h h' a p),
        ap (λ (s : Switch T). s.switched) marked,
        λ fuel level inputs.
            run_idle fuel level a inputs m (
              due_armed level (inputs (m a).current_input).value (m a)
                (ap (λ (s : Switch T). s.armed) marked))
            ∙ ap (λ i. some (m, inputs i, none)) cur,
      )
