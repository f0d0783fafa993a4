-- ===== src/Sequencer/Registry/Examples.antt =====
-- A run of the list of sequences.
use eeros_framework.Base.{◌≡◌, refl, List, [], ◌∷◌, some, get_elem?}
use eeros_framework.Sequencer.Registry.{
  Entry, create, new_sequence, add_sequence, find_name, clear_list, step, Call, call_new,
  call_clear, call_step, call, calls,
}

-- Two sequences before the list is cleared, and after it two, with an empty name and one that is
-- taken.
abbrev program : List Call
program =
    call_new "move" 4
    ∷ call_new "home" 5
    ∷ call_clear
    ∷ call_new "home" 6
    ∷ call_new "" 7
    ∷ call_step
    ∷ call_new "home" 8
    ∷ call_new "move" 9
    ∷ []

abbrev second : Entry
second = record { name = "move"; address = 9; id = 1 }

second_found : get_elem? (calls program create).sequence_list 1 ≡ some second
unfolding calls call new_sequence add_sequence find_name clear_list step create
second_found = refl
