-- ===== src/Safety/Properties.antt =====
-- The safety properties: includes/eeros/safety/SafetyProperties.hpp and
-- src/safety/SafetyProperties.cpp. The level objects stand in a store, since the application holds
-- references to them too.
pub mod Verify
pub mod Events
use Prim.Native.String.{String}
use eeros_framework.Base.{
  ℕ, ◌+◌, ◌%◌, ◌^◌, Bool, true, ◌&&◌, Option, none, some, List, [], ◌∷◌, ◌++◌, leb, ◌==◌,
  if◌then◌else◌, is_some, is_empty, Store, update, Result, ok, throw, ◌>>=◌, ◌>>◌, ensure,
  undefined, missing_output, missing_input,
}
use eeros_framework.Safety.Level.{
  SafetyEvent, EventType, Callback, InputAction, OutputAction, Level, get_input, get_output, rank,
  add_event,
}

-- The callbacks `exitFunction` and `abortFunction` run when the process ends and have no part here.
pub record Properties : Type 0 where
  pub levels : List ℕ
  pub critical_outputs : List ℕ
  pub critical_inputs : List ℕ
  pub entry_level : Option ℕ
  pub count : ℕ

abbrev pub empty_properties : Properties
empty_properties = record {
  levels = [];
  critical_outputs = [];
  critical_inputs = [];
  entry_level = none;
  count = 0;
}

pub set_entry_level : Properties → ℕ → Properties
set_entry_level p level = record p { entry_level = some level }

-- The inner loop of `verify`: `erase` of every entry that equals `x`.
pub erase_all : ℕ → List ℕ → List ℕ
erase_all x [] = []
erase_all x (y ∷ ys) = let rest = erase_all x ys in if y == x then rest else y ∷ rest

module _ {W V : Type 0} where
  -- `level.id = count++`, and the level goes to the end of the list.
  pub add_level : Properties → Store (Level W V) → ℕ → Properties × Store (Level W V)
  add_level p heap level = (
    record p { levels = p.levels ++ (level ∷ []); count = (p.count + 1) % 2 ^ 32 },
    update heap level (record (heap level) { id = p.count }),
  )

  pub add_event_to_level : Store (Level W V) → ℕ → SafetyEvent → ℕ → EventType → Store (Level W V)
  add_event_to_level heap level event next_level type =
      update heap level (add_event (heap level) event next_level type)

  -- The loop over `levels` with a test of each level's id: the body of the three operations below.
  pub add_event_where :
      (ℕ → Bool) → List ℕ → Store (Level W V) → SafetyEvent → ℕ → EventType → Store (Level W V)
  unfolding add_event_to_level
  add_event_where test [] heap event next_level type = heap
  add_event_where test (l ∷ ls) heap event next_level type =
      add_event_where test ls
        (if test (rank (heap l).id) then add_event_to_level heap l event next_level type else heap)
        event next_level type

  pub add_event_to_level_and_above :
      Properties → Store (Level W V) → ℕ → SafetyEvent → ℕ → EventType → Store (Level W V)
  add_event_to_level_and_above p heap level =
      add_event_where (λ r. leb (rank (heap level).id) r) p.levels heap

  pub add_event_to_level_and_below :
      Properties → Store (Level W V) → ℕ → SafetyEvent → ℕ → EventType → Store (Level W V)
  add_event_to_level_and_below p heap level =
      add_event_where (λ r. leb r (rank (heap level).id)) p.levels heap

  pub add_event_to_all_levels_between :
      Properties → Store (Level W V) → ℕ → ℕ → SafetyEvent → ℕ → EventType → Store (Level W V)
  add_event_to_all_levels_between p heap lower upper =
      add_event_where (λ r. leb (rank (heap lower).id) r && leb r (rank (heap upper).id)) p.levels
        heap

-- The loops over a level's actions: what is left of the critical outputs, or inputs.
module _ {V : Type 0} where
  pub left_outputs : Store (OutputAction V) → List (Option ℕ) → List ℕ → Result (List ℕ)
  unfolding erase_all get_output
  left_outputs outs [] copy = ok copy
  left_outputs outs (none ∷ actions) copy = throw undefined
  left_outputs outs (some a ∷ actions) copy =
      left_outputs outs actions (erase_all (get_output (outs a)) copy)

  pub left_inputs : List (Option (InputAction V)) → List ℕ → Result (List ℕ)
  unfolding erase_all get_input
  left_inputs [] copy = ok copy
  left_inputs (none ∷ actions) copy = throw undefined
  left_inputs (some a ∷ actions) copy = left_inputs actions (erase_all (get_input a) copy)

module _ {W V : Type 0} where
  -- The loop over the levels, with the variable `check`.
  pub verify_levels :
      Properties → Store (Level W V) → Store (OutputAction V) → List ℕ → Bool → Result Bool
  unfolding left_outputs left_inputs
  verify_levels p heap outs [] checked = ok checked
  verify_levels p heap outs (l ∷ ls) checked = do
    copy1 ← left_outputs outs (heap l).output_action p.critical_outputs
    ensure (is_empty copy1) (missing_output (heap l).description)
    copy2 ← left_inputs (heap l).input_action p.critical_inputs
    ensure (is_empty copy2) (missing_input (heap l).description)
    verify_levels p heap outs ls (checked && is_empty copy1 && is_empty copy2)

  unfoldable pub verify : Properties → Store (Level W V) → Store (OutputAction V) → Result Bool
  unfolding verify_levels
  verify p heap outs = do
    checked ← verify_levels p heap outs p.levels true
    ok (checked && is_some p.entry_level)
