-- ===== src/Sequencer/Registry.antt =====
-- The sequencer's list of sequences: src/sequencer/Sequencer.cpp, and the constructor of a sequence
-- in src/sequencer/Sequence.cpp. A sequence is an address. The counter is below the largest `int`.
pub mod Numbered
mod Examples
use Prim.Native.String.{String}
use text.Mathlib.Text.{◌==◌ as str_eq}
use eeros_framework.Base.{
  ℕ, ◌+◌, ◌==◌, Bool, true, false, Option, none, some, List, [], ◌∷◌, ◌++◌, if◌then◌else◌, Result,
  ok, throw, no_name, name_exists,
}

pub record Entry : Type 0 where
  pub name : String
  pub address : ℕ
  pub id : ℕ

pub record Sequencer : Type 0 where
  pub sequence_list : List Entry
  pub sequence_count : ℕ
  pub stepping : Bool
  pub next_step : Bool
  pub running : Bool

pub create : Sequencer
create = record {
  sequence_list = [];
  sequence_count = 0;
  stepping = false;
  next_step = false;
  running = true;
}

pub add_sequence : String → ℕ → Sequencer → Sequencer
add_sequence name address s = record s {
  sequence_list =
      s.sequence_list ++ (record { name = name; address = address; id = s.sequence_count } ∷ []);
  sequence_count = s.sequence_count + 1;
}

pub find_id : ℕ → List Entry → Option ℕ
find_id id [] = none
find_id id (e ∷ es) = if id == e.id then some e.address else find_id id es

pub find_name : String → List Entry → Option ℕ
find_name name [] = none
find_name name (e ∷ es) = if str_eq name e.name then some e.address else find_name name es

pub get_sequence_by_id : ℕ → Sequencer → Option ℕ
unfolding find_id
get_sequence_by_id id s = find_id id s.sequence_list

pub get_sequence_by_name : String → Sequencer → Option ℕ
unfolding find_name
get_sequence_by_name name s = find_name name s.sequence_list

pub clear_list : Sequencer → Sequencer
clear_list s = record s { sequence_list = []; sequence_count = 0 }

pub single_stepping : Sequencer → Sequencer
single_stepping s = record s { stepping = true }

pub step : Sequencer → Sequencer
step s = record s { next_step = true }

pub restart : Sequencer → Sequencer
restart s = record s { stepping = false; next_step = true }

-- The constructor of the sequence at `address`.
pub new_sequence : String → ℕ → Sequencer → Result Sequencer
unfolding find_name add_sequence
new_sequence name address s =
    if str_eq name "" then throw no_name else (elim (find_name name s.sequence_list) [
      | some a ↦ throw name_exists
      | none ↦ ok (add_sequence name address s)
    ])

-- The calls of a program; a constructor that throws leaves the list alone.
pub data Call : Type 0 where
  call_new : String → ℕ → Call
  call_clear call_stepping call_step call_restart : Call

abbrev pub kept : Sequencer → Result Sequencer → Sequencer
kept s (ok s') = s'
kept s (throw f) = s

pub call : Call → Sequencer → Sequencer
unfolding new_sequence clear_list single_stepping step restart
call (call_new name address) s = kept s (new_sequence name address s)
call call_clear s = clear_list s
call call_stepping s = single_stepping s
call call_step s = step s
call call_restart s = restart s

pub calls : List Call → Sequencer → Sequencer
unfolding call
calls [] s = s
calls (c ∷ cs) s = calls cs (call c s)
