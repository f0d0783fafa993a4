-- ===== src/Hal/Claims.antt =====
-- The registry of system inputs and outputs: src/hal/HAL.cpp. The code for outputs is that for
-- inputs over sets and a map of its own, so both are `Ports`. A pointer is an address, 0 for null.
-- A call gives the new state also when it throws.
pub mod Disjoint
pub mod Held
use Prim.Native.String.{String}
use text.Mathlib.Text.{◌==◌ as str_eq}
use eeros_framework.Base.{
  ℕ, Option, none, some, Bool, true, false, ◌||◌, List, [], ◌∷◌, ◌==◌, if◌then◌else◌, elem,
  insert_set, erase, Result, ok, throw, exclusive_reserved, already_claimed, signal_not_found,
  signal_exists, null_signal,
}

-- The map of one direction with its two sets of claims.
pub record Ports : Type 0 where
  pub objects : List (String × ℕ)
  pub exclusive : List ℕ
  pub non_exclusive : List ℕ

abbrev pub no_ports : Ports
no_ports = record { objects = []; exclusive = []; non_exclusive = [] }

pub find : String → List (String × ℕ) → Option ℕ
find name [] = none
find name ((n, x) ∷ m) = if str_eq n name then some x else find name m

-- `inputs[name]`: a name that the map does not have is added, with the null pointer.
pub access : String → Ports → ℕ × Ports
unfolding find
access name p = elim (find name p.objects) [
  | some x ↦ (x, p)
  | none ↦ (0, record p { objects = (name, 0) ∷ p.objects })
]

-- The claim that the three kinds of `get` make for an object.
pub claim : ℕ → Bool → Ports → Ports × Result ℕ
claim x exclusive p =
    if elem x p.exclusive
    then (p, throw exclusive_reserved)
    else (if exclusive
        then (if elem x p.non_exclusive
            then (p, throw already_claimed)
            else (record p { exclusive = insert_set x p.exclusive }, ok x))
        else (record p { non_exclusive = insert_set x p.non_exclusive }, ok x))

unfoldable pub get : String → Bool → Ports → Ports × Result ℕ
unfolding access claim
get name exclusive p = let (x, p') = access name p in claim x exclusive p'

-- `cast` says which objects the `dynamic_cast` accepts.
pub get_as : (ℕ → Bool) → String → Bool → Ports → Ports × Result ℕ
unfolding access claim
get_as cast name exclusive p =
    let (x, p') = access name p in
    if x == 0
    then (p', throw signal_not_found)
    else (if cast x then claim x exclusive p' else (p', throw signal_not_found))

unfoldable pub release : String → Ports → Ports × Result (Unit {0})
unfolding access
release name p =
    let (x, p') = access name p in
    let freed = record p' {
      exclusive = erase x p'.exclusive;
      non_exclusive = erase x p'.non_exclusive;
    } in
    (
      freed,
      (if elem x p'.non_exclusive || elem x p'.exclusive then ok tt else throw signal_not_found),
    )

-- `name` is the id of the object, which is read when the pointer is not null.
pub add : ℕ → String → Ports → Ports × Result Bool
unfolding find
add x name p = if x == 0 then (p, throw null_signal) else (elim (find name p.objects) [
  | some y ↦ (p, throw signal_exists)
  | none ↦ (record p { objects = (name, x) ∷ p.objects }, ok true)
])

-- The calls of a program; `cast` is the one of the logic or that of the scalable signals.
pub data Call : Type 0 where
  call_get : String → Bool → Call
  call_get_as : (ℕ → Bool) → String → Bool → Call
  call_release : String → Call
  call_add : ℕ → String → Call

unfoldable pub call : Call → Ports → Ports
unfolding get get_as release add
call (call_get name exclusive) p = (get name exclusive p).0
call (call_get_as cast name exclusive) p = (get_as cast name exclusive p).0
call (call_release name) p = (release name p).0
call (call_add x name) p = (add x name p).0

pub calls : List Call → Ports → Ports
calls [] p = p
calls (c ∷ cs) p = calls cs (call c p)
