-- ===== src/Safety/System.antt =====
-- The safety system: src/safety/SafetySystem.cpp and src/safety/SafetyContext.cpp. Logging and the
-- handler that ends the process have no part here. Calls run one after the other.
pub mod Trigger
pub mod Run
pub mod Cycle
pub mod Construct
mod Examples
use eeros_framework.Base.{
  ℕ, zero, suc, ◌+◌, ◌%◌, ◌^◌, ◌<◌, Bool, true, false, ◌&&◌, ◌||◌, not, Option, none, some, List,
  [], ◌∷◌, ltb, ◌==◌, if◌then◌else◌, is_some, Store, update, Result, ok, throw, ◌>>=◌, ◌>>◌, ensure,
  level_not_defined, single_instance, not_verified, undefined, Order,
}
use eeros_framework.Safety.Level.{
  SafetyEvent, EventType, Request, in_context, outside, Callback, InputAction, ignore, check, range,
  OutputAction, leave, set, toggle, Level, level_lt, get_dest_level_for_event,
}
use eeros_framework.Safety.Properties.{Properties, empty_properties, verify}

-- The inputs and outputs of the hardware abstraction layer: `get` and `set` of the signal at an
-- address, and the operators `<` and `!=` of the values.
pub record Hal (W V : Type 0) : Type 0 where
  pub order : Order V
  pub ne : V → V → Bool
  pub read : W → ℕ → V
  pub write : W → ℕ → V → W

pub record System (W V : Type 0) : Type 0 where
  pub properties : Properties
  pub levels : Store (Level W V)
  pub output_actions : Store (OutputAction V)
  pub current_level : Option ℕ
  pub next_level : Option ℕ
  pub entry_level : Option ℕ
  pub world : W

abbrev pub same_level : Option ℕ → Option ℕ → Bool
same_level none none = true
same_level (some a) (some b) = a == b
same_level none (some b) = false
same_level (some a) none = false

-- `compare_exchange_strong(expected, desired)`: whether it stored, `expected` and the atomic after.
abbrev pub compare_exchange : Option ℕ → Option ℕ → Option ℕ → Bool × Option ℕ × Option ℕ
compare_exchange value expected desired =
    if same_level value expected then (true, expected, desired) else (false, value, value)

-- Rounds that suffice for the two loops over `compare_exchange` when no other thread interferes.
abbrev pub rounds : ℕ
rounds = 2

-- How a round of the loop of `triggerEvent` ends: with `nextLevel` as given, with another round
-- that expects the given value, or by reading the id of a level through a null pointer.
pub data Round : Type 0 where
  done retry : Option ℕ → Round
  null_read : Round

-- The loop that takes the next level and leaves null, on fuel.
pub take_next_level : ℕ → Option ℕ → Option ℕ → Option ℕ × Option ℕ
take_next_level zero expected next = (expected, next)
take_next_level (suc fuel) expected next =
    let (stored, expected', next') = compare_exchange next expected none in
    let again = take_next_level fuel expected' next' in if stored then (expected', next') else again

module _ {W V : Type 0} where
  -- One round of the loop of `triggerEvent`, when `next` is the value of `nextLevel` at that
  -- moment.
  pub store_round : Store (Level W V) → Option ℕ → ℕ → Option ℕ → Round
  unfolding level_lt
  store_round heap expected new_level next =
      let (stored, expected', next') = compare_exchange next expected (some new_level) in
      if stored then done next' else elim expected' [
        | none ↦ null_read
        | some e ↦ if level_lt (heap e) (heap new_level) then done next' else retry (some e)
      ]

  -- The loop, on fuel: the new value of `nextLevel`.
  pub store_next_level : ℕ → Store (Level W V) → Option ℕ → ℕ → Option ℕ → Result (Option ℕ)
  unfolding store_round
  store_next_level zero heap expected new_level next = throw undefined
  store_next_level (suc fuel) heap expected new_level next =
      elim (store_round heap expected new_level next) [
        | done next' ↦ ok next'
        | retry e ↦ store_next_level fuel heap e new_level next
        | null_read ↦ throw undefined
      ]

  -- The second parameter tells whether the caller's context is the system's own.
  pub trigger_event : System W V → SafetyEvent → Bool → Result (System W V)
  unfolding store_next_level get_dest_level_for_event
  trigger_event s event in_private_context = elim s.current_level [
    | none ↦ throw level_not_defined
    | some current ↦ elim (get_dest_level_for_event (s.levels current) event in_private_context) [
      | none ↦ ok s
      | some new_level ↦ do
        next ← store_next_level rounds s.levels none new_level s.next_level
        ok (record s { next_level = next })
    ]
  ]

  pub get_current_level : System W V → Result (Level W V)
  get_current_level s = elim s.current_level [
    | some level ↦ ok (s.levels level)
    | none ↦ elim s.entry_level [
      | some level ↦ ok (s.levels level)
      | none ↦ throw level_not_defined
    ]
  ]

  -- `SafetyContext::triggerEvent` triggers in the private context.
  pub make_request : System W V → Request → Result (System W V)
  unfolding trigger_event
  make_request s (in_context event) = trigger_event s event true
  make_request s (outside event) = trigger_event s event false

  pub make_requests : System W V → List Request → Result (System W V)
  unfolding make_request
  make_requests s [] = ok s
  make_requests s (r ∷ rs) = do s' ← make_request s r; make_requests s' rs

  -- A call of a callback, which may be empty.
  pub call : System W V → Option (Callback W) → Result (System W V)
  unfolding make_requests
  call s none = ok s
  call s (some f) = let (w, rs) = f s.world in make_requests (record s { world = w }) rs

  -- Step 2 of `run`, with the local variables `level` and `nLevel`.
  pub switch_level : System W V → Option ℕ → Option ℕ → Result (System W V × Option ℕ)
  unfolding call
  switch_level s level none = ok (s, level)
  switch_level s level (some n) = if same_level (some n) level then ok (s, level) else (do
    s1 ← elim level [ none ↦ ok s | some l ↦ call s (s.levels l).on_exit ]
    s2 ← call (record s1 { current_level = some n }) (s1.levels n).on_entry
    ok (s2, some n))

module _ {W V : Type 0} (hal : Hal W V) where
  open hal use {order, ne, read, write}

  -- `check` of an input action, when it triggers its event.
  pub fires : W → InputAction V → Option SafetyEvent
  fires w (ignore input) = none
  fires w (check input value event) = if ne (read w input) value then some event else none
  fires w (range input min max event off_range) =
      let value = read w input in
      if (if off_range
        then order.lt min value && order.lt value max
        else order.lt value min || order.lt max value)
      then some event
      else none

  -- Step 3: the loop over the input actions of the level.
  pub check_inputs : System W V → List (Option (InputAction V)) → Result (System W V)
  unfolding trigger_event fires
  check_inputs s [] = ok s
  check_inputs s (none ∷ actions) = check_inputs s actions
  check_inputs s (some a ∷ actions) = do
    s' ← elim (fires s.world a) [ none ↦ ok s | some event ↦ trigger_event s event true ]
    check_inputs s' actions

  -- `set` of an output action: what stands at its address afterwards, and the world.
  pub perform : W → OutputAction V → OutputAction V × W
  perform w (leave output) = (leave output, w)
  perform w (set output value) = (set output value, write w output value)
  perform w (toggle output value low high) =
      (toggle output (if ne value low then low else high) low high, write w output value)

  -- Step 5: the loop over the output actions of the level.
  pub set_outputs : System W V → List (Option ℕ) → System W V
  unfolding perform
  set_outputs s [] = s
  set_outputs s (none ∷ actions) = set_outputs s actions
  set_outputs s (some a ∷ actions) =
      let (action, w) = perform s.world (s.output_actions a) in
      set_outputs (record s { output_actions = update s.output_actions a action; world = w })
        actions

  -- Steps 3 to 5 for the current level.
  pub run_level : System W V → ℕ → Result (System W V)
  unfolding call check_inputs set_outputs
  run_level s l =
      let level = s.levels l in
      let activated = record level { nof_activations = (level.nof_activations + 1) % 2 ^ 32 } in
      let s0 = record s { levels = update s.levels l activated } in
      do
        s1 ← check_inputs s0 activated.input_action
        s2 ← call s1 activated.action
        ok (set_outputs s2 activated.output_action)

  pub run : System W V → Result (System W V)
  run s =
      let (n, next) = take_next_level rounds none s.next_level in
      do
        (s', level) ← switch_level (record s { next_level = next }) s.current_level n
        elim level [ none ↦ ok s' | some l ↦ run_level s' l ]

module _ {W V : Type 0} where
  pub set_properties : System W V → Properties → Result (System W V × Bool)
  set_properties s p = do
    verified ← verify p s.levels s.output_actions
    ok (if verified then (accept p.entry_level, true) else (s, false))
    where
      accept : Option ℕ → System W V
      accept none = record s { properties = p }
      accept (some e) = record s {
        properties = p;
        levels = update s.levels e (record (s.levels e) { nof_activations = 0 });
        entry_level = some e;
        next_level = some e;
      }

  -- The constructor on a fresh object over the given stores. The first part of the result is the
  -- static counter `instCount`, which keeps its increment when the constructor throws.
  pub construct :
      ℕ → Properties → Store (Level W V) → Store (OutputAction V) → W → ℕ × Result (System W V)
  unfolding set_properties
  construct inst_count p heap outs w =
      let count = (inst_count + 1) % 2 ^ 8 in
      (
        count,
        do
          ensure (not (ltb 1 count)) single_instance
          (s, verified) ← set_properties fresh p
          ensure verified not_verified
          ok s,
      )
    where
      fresh : System W V
      fresh = record {
        properties = empty_properties;
        levels = heap;
        output_actions = outs;
        current_level = none;
        next_level = none;
        entry_level = none;
        world = w;
      }
