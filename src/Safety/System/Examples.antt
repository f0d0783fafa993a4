-- ===== src/Safety/System/Examples.antt =====
-- A small configuration of the safety system: two levels, one critical input and one critical
-- output.
use eeros_framework.Base.{
  ℕ, ◌≡◌, refl, ◌↔◌, true, false, not, Option, none, some, [], ◌∷◌, ◌==◌, if◌then◌else◌, All, Store,
  update, Result, ok, ◌>>=◌, ◌≤◌, nat_order,
}
use eeros_framework.Safety.Level.{
  SafetyEvent, private_event, public_event, in_context, outside, ignore, check, OutputAction, set,
  Level, rank, level_lt, find, add_event, get_dest_level_for_event,
}
use eeros_framework.Safety.Properties.{Properties, verify}
use eeros_framework.Safety.Properties.Verify.{IsCovered, verify_iff}
use eeros_framework.Safety.Properties.Events.{get_dest_level_for_event-add_event}
use eeros_framework.Safety.System.{
  System, Hal, rounds, retry, null_read, store_round, take_next_level, make_requests, fires,
  switch_level, run_level, run, construct,
}
use eeros_framework.Safety.System.Trigger.{Keeps, IsServed, store_round_race, make_requests-Runs}
use eeros_framework.Safety.System.Run.{activate}
use eeros_framework.Safety.System.Cycle.{run_enters, run_reacts}
use eeros_framework.Safety.System.Construct.{construct_starts}

abbrev World : Type 0
World = Store ℕ

abbrev hal : Hal World ℕ
hal = record {
  order = nat_order;
  ne = λ a b. not (a == b);
  read = λ w i. w i;
  write = λ w o v. update w o v;
}

abbrev stop : SafetyEvent
stop = record { description = "stop"; id = 0 }

abbrev off : Level World ℕ
off = record {
  description = "off";
  id = 0;
  nof_activations = 0;
  transitions = [];
  input_action = some (ignore 7) ∷ [];
  output_action = some 0 ∷ [];
  action = none;
  on_entry = none;
  on_exit = none;
}

abbrev on : Level World ℕ
on = record off {
  description = "on";
  id = 1;
  transitions = (0, (0, private_event)) ∷ [];
  input_action = some (check 7 1 stop) ∷ [];
}

abbrev levels : Store (Level World ℕ)
levels a = if a == 1 then on else off

abbrev actions : Store (OutputAction ℕ)
actions a = set 3 5

abbrev properties : Properties
properties = record {
  levels = 0 ∷ 1 ∷ [];
  critical_outputs = 3 ∷ [];
  critical_inputs = 7 ∷ [];
  entry_level = some 1;
  count = 2;
}

-- The system in level `on`, with every input at 0, so that input 7 is not at 1.
abbrev running : System World ℕ
running = record {
  properties = properties;
  levels = levels;
  output_actions = actions;
  current_level = some 1;
  next_level = none;
  entry_level = some 1;
  world = λ i. 0;
}

verified : verify properties levels actions ≡ ok true
unfolding verify
verified = refl

verify_iff_example :
    (verify properties levels actions ≡ ok true)
    ↔ (All (λ l. IsCovered properties actions (levels l)) (0 ∷ 1 ∷ []) × (true ≡ true))
verify_iff_example = verify_iff properties levels actions

make_requests-Runs_example :
    (s : System World ℕ) × (make_requests running (in_context stop ∷ outside stop ∷ []) ≡ ok s)
    × Keeps running s
    × All (IsServed levels 1 s.next_level) (in_context stop ∷ outside stop ∷ [])
make_requests-Runs_example = make_requests-Runs running (in_context stop ∷ outside stop ∷ []) 1 refl

store_round_race_example :
    (store_round levels none 0 (some 1) ≡ retry (some 1))
    × ((take_next_level rounds none (some 1)).1 ≡ none)
    × (store_round levels (some 1) 0 none ≡ null_read)
unfolding take_next_level level_lt rank
store_round_race_example = store_round_race levels 0 1 refl

run_enters_example :
    (t : System World ℕ) × (run hal running ≡ ok t)
    × (t.current_level ≡ some 1)
    × (t.levels ≡ activate levels 1)
run_enters_example = run_enters hal running 1 refl

-- Input 7 reads 0 in level `on`: the event `stop` leads to level `off`.
run_reacts_example :
    (t : System World ℕ) × (u : System World ℕ) × (v : System World ℕ) × (m : ℕ) × (run hal running
      ≡ ok t)
    × (make_requests t (outside stop ∷ []) ≡ ok u)
    × (run hal u ≡ ok v)
    × (v.current_level ≡ some m)
    × (rank (levels m).id ≤ rank (levels 0).id)
unfolding fires get_dest_level_for_event
run_reacts_example =
    run_reacts hal running 1 [] [] (check 7 1 stop) stop 0 (outside stop ∷ []) refl refl refl refl
      refl

-- The same two cycles evaluated: the system ends in level `off` and sets output 3.
two_cycles : (System World ℕ) → Result (Option ℕ × ℕ)
two_cycles s = do t ← run hal s; u ← run hal t; ok (u.current_level, u.world 3)

two_cycles_off : two_cycles running ≡ ok (some 0, 5)
unfolding two_cycles run take_next_level switch_level run_level rank
two_cycles_off = refl

construct_starts_example :
    (s : System World ℕ) × (t : System World ℕ) × (construct 0 properties levels actions (λ i. 0)
      ≡ (1, ok s))
    × (run hal s ≡ ok t)
    × (t.current_level ≡ some 1)
construct_starts_example = construct_starts properties levels actions (λ i. 0) hal 1 verified refl

-- Without a critical output the construction fails, and so does every later one.
abbrev uncovered : Properties
uncovered = record properties { critical_outputs = 4 ∷ [] }

-- Level `on` knows the event `stop` as a private one: the second registration is dropped.
get_dest_level_for_event-add_event_example :
    get_dest_level_for_event (add_event on stop 1 public_event) stop false ≡ none
unfolding find get_dest_level_for_event
get_dest_level_for_event-add_event_example =
    get_dest_level_for_event-add_event stop 1 public_event on stop false
