-- ===== src/Math/CoordinateSystem.antt =====
-- The names of the coordinate systems: src/math/CoordinateSystem.cpp. `none` is the null pointer,
-- which the map of the source gets for a name that is looked up and is not there.
use Prim.Native.String.{String}
use text.Mathlib.Text.{◌==◌ as str_eq}
use text.Mathlib.TextPositions.{eq_refl}
use eeros_framework.Base.{
  ℕ, ◌≡◌, refl, ◌∙◌, ap, sym, Option-cases, Option, none, some, List, [], ◌∷◌, if◌then◌else◌,
  Result, ok, throw, system_exists, Bool-cases, inl, inr,
}

abbrev pub Systems : Type 0
Systems = List (String × Option ℕ)

-- `list.find(id)`: whether there is an entry, and its pointer.
pub find : String → Systems → Option (Option ℕ)
find id [] = none
find id ((n, x) ∷ m) = if str_eq n id then some x else find id m

-- The constructor of the object at `x`: `insert` does nothing if there is an entry.
pub create : String → ℕ → Systems → Result Systems
unfolding find
create id x m = elim (find id m) [ some y ↦ throw system_exists | none ↦ ok ((id, some x) ∷ m) ]

-- The destructor.
pub destroy : String → Systems → Systems
destroy id [] = []
destroy id ((n, x) ∷ m) = let rest = destroy id m in if str_eq n id then rest else (n, x) ∷ rest

-- `list[id]`
pub get_coordinate_system : String → Systems → Systems × Option ℕ
unfolding find
get_coordinate_system id m = elim (find id m) [ some x ↦ (m, x) | none ↦ ((id, none) ∷ m, none) ]

create_new :
    (id : String) (x : ℕ) (m : Systems) → find id m ≡ none → create id x m ≡ ok ((id, some x) ∷ m)
unfolding create
create_new id x m e = rw (e, create) refl

create_taken :
    (id : String) (x : ℕ) (y : Option ℕ) (m : Systems)
    → find id m ≡ some y
    → create id x m ≡ throw system_exists
unfolding create
create_taken id x y m e = rw (e, create) refl

lookup_new :
    (id : String) (m : Systems)
    → find id m ≡ none
    → get_coordinate_system id m ≡ ((id, none) ∷ m, none)
unfolding get_coordinate_system
lookup_new id m e = rw (e, get_coordinate_system) refl

lookup_found :
    (id : String) (x : Option ℕ) (m : Systems)
    → find id m ≡ some x
    → get_coordinate_system id m ≡ (m, x)
unfolding get_coordinate_system
lookup_found id x m e = rw (e, get_coordinate_system) refl

find-first : (id : String) (x : Option ℕ) (m : Systems) → find id ((id, x) ∷ m) ≡ some x
unfolding find
find-first id x m = rw (eq_refl id) refl

-- A name that is new can be given to a coordinate system; but not any more after the lookup of that
-- name, which leaves an entry with the null pointer behind.
pub create-get_coordinate_system :
    (id : String) (x : ℕ) (m : Systems)
    → find id m ≡ none
    → (create id x m ≡ ok ((id, some x) ∷ m))
      × ((get_coordinate_system id m).1 ≡ none)
      × (create id x (get_coordinate_system id m).0 ≡ throw system_exists)
create-get_coordinate_system id x m e = (
  create_new id x m e,
  ap (λ (p : Systems × Option ℕ). p.1) (lookup_new id m e),
  ap (λ (p : Systems × Option ℕ). create id x p.0) (lookup_new id m e)
      ∙ create_taken id x none ((id, none) ∷ m) (find-first id none m),
)

find-create :
    (id : String) (x : ℕ) (m m' : Systems) → create id x m ≡ ok m' → find id m' ≡ some (some x)
find-create id x m m' e = elim (Option-cases (find id m)) [
  | inl f ↦
      let made : ok ((id, some x) ∷ m) ≡ ok m' = sym (create_new id x m f) ∙ e in
      let same : ((id, some x) ∷ m) ≡ m' = cc in ap (find id) (sym same) ∙ find-first id (some x) m
  | inr (y, f) ↦
      let made : throw system_exists ≡ ok m' = sym (create_taken id x y m f) ∙ e in absurd (cc)
]

find-destroy : (id : String) (m : Systems) → find id (destroy id m) ≡ none
unfolding find destroy
find-destroy id [] = refl
find-destroy id ((n, x) ∷ m) = elim (Bool-cases (str_eq n id)) [
  | inl e ↦ rw e (find-destroy id m)
  | inr e ↦ rw (e, e) (find-destroy id m)
]

-- A coordinate system that was made is found by its name, the lookup changing nothing, its name is
-- taken, and after it is destroyed the name can be given again.
pub create-destroy :
    (id : String) (x y : ℕ) (m m' : Systems)
    → create id x m ≡ ok m'
    → (get_coordinate_system id m' ≡ (m', some x))
      × (create id y m' ≡ throw system_exists)
      × (create id y (destroy id m') ≡ ok ((id, some y) ∷ destroy id m'))
create-destroy id x y m m' e =
    let found : find id m' ≡ some (some x) = find-create id x m m' e in
    (
      lookup_found id (some x) m' found,
      create_taken id y (some x) m' found,
      create_new id y (destroy id m') (find-destroy id m'),
    )
