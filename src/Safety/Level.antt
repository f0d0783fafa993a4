-- ===== src/Safety/Level.antt =====
-- Safety events, levels and the actions of a level: includes/eeros/safety/SafetyLevel.hpp,
-- src/safety/SafetyLevel.cpp, includes/eeros/safety/InputAction.hpp and OutputAction.hpp.
-- Objects that the source keeps behind pointers (levels, output actions, inputs, outputs) are
-- addresses. `V` is the type of the values of inputs and outputs, `W` the state of the world that
-- user callbacks and the hardware act on.
use Prim.Native.String.{String}
use eeros_framework.Base.{
  ℕ, ◌+◌, ◌%◌, ◌^◌, Bool, true, false, not, ◌||◌, Option, none, some, List, [], ◌∷◌, ◌++◌, ltb, leb,
  ◌==◌, if◌then◌else◌,
}

pub data EventType : Type 0 where
  private_event public_event : EventType

pub record SafetyEvent : Type 0 where
  pub description : String
  pub id : ℕ

-- The constructor: the number of events created so far is the id, as a `uint32_t`. The second part
-- of the result is the new value of the counter.
pub create_event : String → ℕ → SafetyEvent × ℕ
create_event description count =
    (record { description = description; id = count % 2 ^ 32 }, count + 1)

-- A call `triggerEvent(event)` that a callback makes, through its safety context or from outside.
pub data Request : Type 0 where
  in_context outside : SafetyEvent → Request

-- A `std::function` of the application: what it does to the world, and the events that it triggers.
abbrev pub Callback : Type 0 → Type 0
Callback W = W → W × List Request

pub data InputAction (V : Type 0) : Type 0 where
  ignore : ℕ → InputAction V
  check : ℕ → V → SafetyEvent → InputAction V
  range : ℕ → V → V → SafetyEvent → Bool → InputAction V

-- `toggle` holds its output, the value that is set next, and the two values that it alternates.
pub data OutputAction (V : Type 0) : Type 0 where
  leave : ℕ → OutputAction V
  set : ℕ → V → OutputAction V
  toggle : ℕ → V → V → V → OutputAction V

unfoldable pub get_input : {V : Type 0} → InputAction V → ℕ
get_input (ignore input) = input
get_input (check input value event) = input
get_input (range input min max event off_range) = input

unfoldable pub get_output : {V : Type 0} → OutputAction V → ℕ
get_output (leave output) = output
get_output (set output value) = output
get_output (toggle output value low high) = output

-- `id` is the bit pattern of the `int32_t`. A null pointer in a list of actions is `none`.
pub record Level (W V : Type 0) : Type 0 where
  pub description : String
  pub id : ℕ
  pub nof_activations : ℕ
  pub transitions : List (ℕ × (ℕ × EventType))
  pub input_action : List (Option (InputAction V))
  pub output_action : List (Option ℕ)
  pub action : Option (Callback W)
  pub on_entry : Option (Callback W)
  pub on_exit : Option (Callback W)

-- The place of a bit pattern in the order of `int32_t`: the comparison operators of two levels
-- compare their places.
unfoldable pub rank : ℕ → ℕ
rank id = (id + 2 ^ 31) % 2 ^ 32

module _ {W V : Type 0} where
  unfoldable pub level_lt : Level W V → Level W V → Bool
  level_lt a b = ltb (rank a.id) (rank b.id)

  unfoldable pub level_le : Level W V → Level W V → Bool
  level_le a b = leb (rank a.id) (rank b.id)

-- `std::map::find` and `std::map::insert`: a key that is there keeps its value.
unfoldable pub find : ℕ → List (ℕ × (ℕ × EventType)) → Option (ℕ × EventType)
find k [] = none
find k ((j, v) ∷ m) = if j == k then some v else find k m

unfoldable pub insert : ℕ → ℕ × EventType → List (ℕ × (ℕ × EventType)) → List (ℕ × (ℕ × EventType))
insert k v [] = (k, v) ∷ []
insert k v ((j, w) ∷ m) = if j == k then (j, w) ∷ m else (j, w) ∷ insert k v m

abbrev pub is_private : EventType → Bool
is_private private_event = true
is_private public_event = false

module _ {W V : Type 0} where
  unfoldable pub get_dest_level_for_event : Level W V → SafetyEvent → Bool → Option ℕ
  unfolding find
  get_dest_level_for_event l event private_event_ok = elim (find event.id l.transitions) [
    | none ↦ none
    | some (dest, type) ↦ if not (is_private type) || private_event_ok then some dest else none
  ]

  unfoldable pub add_event : Level W V → SafetyEvent → ℕ → EventType → Level W V
  unfolding insert
  add_event l event next_level type = record l {
    transitions = insert event.id (next_level, type) l.transitions;
  }

  pub set_input_action : Level W V → Option (InputAction V) → Level W V
  set_input_action l a = record l { input_action = l.input_action ++ (a ∷ []) }

  pub set_output_action : Level W V → Option ℕ → Level W V
  set_output_action l a = record l { output_action = l.output_action ++ (a ∷ []) }
