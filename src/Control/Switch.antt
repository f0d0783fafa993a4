-- ===== src/Control/Switch.antt =====
-- The switch between inputs: includes/eeros/control/Switch.hpp. The switches that are combined are
-- addresses in a store. `switch_to_input` calls itself for the switches that are combined with one,
-- so it runs on fuel, `none` when that is used up: combined in a circle the calls of the source do
-- not end. `bound` is the template parameter N, the same for all of them, and `add` and `sub` are
-- the arithmetic of the values.
pub mod Calls
pub mod Once
mod Examples
use eeros_framework.Base.{
  ℕ, zero, suc, ◌-◌, Bool, true, false, not, ◌&&◌, ltb, leb, if◌then◌else◌, Option, none, some,
  List, [], ◌∷◌, ◌++◌, Store, update, Order,
}
use eeros_framework.Control.Signals.{Signal}

-- `safety_event` is the event, if both it and its safety system are registered; `active_level` the
-- level as a number.
pub record Switch (T : Type 0) : Type 0 where
  pub current_input : ℕ
  pub next_input : ℕ
  pub switch_level : T
  pub delta : T
  pub armed : Bool
  pub switched : Bool
  pub safety_event : Option ℕ
  pub active_level : Option ℕ
  pub combined : List ℕ

infixl 5 ◌>>=◌
abbrev pub ◌>>=◌ : {A B : Type 0} → Option A → (A → Option B) → Option B
none >>= next = none
some a >>= next = next a

-- `for (Switch* i : c) ...`
abbrev pub each : {S : Type 0} → (ℕ → S → Option S) → List ℕ → S → Option S
each body [] s = some s
each body (b ∷ bs) s = body b s >>= λ s. each body bs s

module _ {T : Type 0} (bound : ℕ) where
  pub set_current : ℕ → ℕ → Store (Switch T) → Store (Switch T)
  set_current a index h = update h a (record (h a) { current_input = index })

  -- The result of the call is used nowhere in the source.
  pub switch_to_input : ℕ → ℕ → ℕ → Store (Switch T) → Option (Store (Switch T))
  unfolding set_current
  switch_to_input zero a index h = none
  switch_to_input (suc fuel) a index h =
      let rest = each (λ b. switch_to_input fuel b index) (h a).combined (set_current a index h) in
      if ltb index bound then rest else some h

  pub set_condition : T → T → ℕ → Switch T → Switch T
  set_condition level delta index s = record s {
    switch_level = level;
    delta = delta;
    next_input = index;
  }

  pub register_safety_event : ℕ → Switch T → Switch T
  register_safety_event event s = record s { safety_event = some event }

  pub set_active_level : ℕ → Switch T → Switch T
  set_active_level level s = record s { active_level = some level }

  pub arm : Switch T → Switch T
  arm s = record s { armed = true; switched = false }

  pub triggered : Switch T → Bool
  triggered s = s.switched

  -- `combine` of the switch `a` with the switch `b`.
  pub combine : ℕ → ℕ → ℕ → Store (Switch T) → Option (Store (Switch T))
  unfolding switch_to_input
  combine fuel a b h =
      switch_to_input fuel b (h a).current_input
        (update h a (record (h a) { combined = (h a).combined ++ (b ∷ []) }))

  module _ (add sub : T → T → T) (o : Order T) where
    -- The condition of the value and that of the level.
    pub due : ℕ → T → Switch T → Bool
    due level val s =
        s.armed
        && not s.switched
        && (o.lt val (add s.switch_level s.delta) && o.lt (sub s.switch_level s.delta) val)
        && (elim s.active_level [ none ↦ true | some l ↦ leb l level ])

    pub mark : ℕ → Store (Switch T) → Store (Switch T)
    mark a h = update h a (record (h a) { switched = true; armed = false })

    -- The branch of `run` that switches.
    pub fire : ℕ → ℕ → Store (Switch T) → Option (Store (Switch T))
    unfolding switch_to_input mark
    fire fuel a h =
        let next = (h a).next_input in
        switch_to_input fuel a next h >>= λ h.
        each (λ b. switch_to_input fuel b next) (h a).combined h >>= λ h. some (mark a h)

    -- `run` of the switch `a` at a safety level, with the signals at its inputs: the signal at the
    -- output, and the safety event that is triggered.
    pub run :
        ℕ
        → ℕ
        → ℕ
        → (ℕ → Signal T)
        → Store (Switch T)
        → Option (Store (Switch T) × Signal T × Option ℕ)
    unfolding due fire
    run fuel level a inputs h =
        let now = due level (inputs (h a).current_input).value (h a) in
        (if now then fire fuel a h else some h) >>= λ h'.
        some (h', inputs (h' a).current_input, if now then (h' a).safety_event else none)
