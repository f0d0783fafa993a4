-- ===== src/Config.antt =====
-- The configuration: src/config/Config.cpp. A registered variable is an address of the memory: `V`
-- are the numbers, `int` or `double`, and a property knows how its numbers are printed and read.
-- What `std::map` holds is a list in the order of the names.
pub mod Streams
pub mod Names
pub mod File
pub mod RoundTrip
mod Examples
use eeros_framework.Base.{
  ℕ, zero, suc, ◌+◌, ◌-◌, Bool, true, false, not, ◌||◌, ◌&&◌, Option, none, some, List, [], ◌∷◌,
  ◌++◌, ltb, ◌==◌, if◌then◌else◌, Store, update, length, drop, is_empty, is_some, for_below, Result,
  ok, throw, ◌>>=◌, ◌>>◌, ensure, property_exists, length_inconsistent,
}
use eeros_framework.Config.Streams.{Text, getlines}

-- `std::to_string`, `<<`, and `std::stoi` or `std::stod`, which throw when there is no number.
pub record Format (V : Type 0) : Type 0 where
  pub to_string : V → Text
  pub put : V → Text
  pub parse : Text → Result V

pub record Memory (V : Type 0) : Type 0 where
  pub cells : Store V
  pub texts : Store Text

-- What a property refers to: a number, an array with its length, its first address and its default
-- value, or a text.
pub data Property (V : Type 0) : Type 0 where
  number : Format V → ℕ → Property V
  array : Format V → ℕ → ℕ → V → Property V
  text : ℕ → Property V

-- `first.compare(second) < 0`
pub text_lt : Text → Text → Bool
text_lt [] [] = false
text_lt [] (b ∷ second) = true
text_lt (a ∷ first) [] = false
text_lt (a ∷ first) (b ∷ second) = ltb a b || (a == b && text_lt first second)

abbrev pub same_text : Text → Text → Bool
same_text a b = not (text_lt a b) && not (text_lt b a)

module _ {V : Type 0} where
  -- `properties.find(name)`
  pub find : Text → List (Text × Property V) → Option (Property V)
  find name [] = none
  find name ((n, p) ∷ ps) = if same_text n name then some p else find name ps

  -- `properties[name] = p` for a new name.
  pub insert : Text → Property V → List (Text × Property V) → List (Text × Property V)
  insert name p [] = (name, p) ∷ []
  insert name p ((n, q) ∷ ps) =
      if text_lt name n then (name, p) ∷ (n, q) ∷ ps else (n, q) ∷ insert name p ps

  -- The five functions `add`, of which only those for arrays test their length.
  pub add : Text → Property V → List (Text × Property V) → Result (List (Text × Property V))
  add name p ps = do ensure (not (is_some (find name ps))) property_exists; ok (insert name p ps)

  pub add_array :
      Text → Format V → ℕ → ℕ → ℕ → V → List (Text × Property V) → Result (List (Text × Property V))
  unfolding add
  add_array name f len start end default ps = do
    ensure (start + len == end) length_inconsistent
    add name (array f len start default) ps

  -- The text of an array: the loop over its first `n` entries.
  pub array_text : Format V → Store V → ℕ → ℕ → Text
  array_text f cells start n =
      for_below n
        (λ i s. (if i == 0 then s else s ++ (b',' ∷ b' ' ∷ [])) ++ f.put (cells (start + i))) []

  -- The accessors `set`: the text for a number, an array or a text.
  abbrev pub set_number : Format V → ℕ → Memory V → Text
  set_number f a m = f.to_string (m.cells a)

  abbrev pub set_array : Format V → ℕ → ℕ → Memory V → Text
  set_array f len start m = array_text f m.cells start len

  abbrev pub set_string : ℕ → Memory V → Text
  set_string a m = m.texts a

  pub set_text : Property V → Memory V → Text
  set_text (number f a) m = set_number f a m
  set_text (array f len start default) m = set_array f len start m
  set_text (text a) m = set_string a m

  -- The loop that reads the numbers from index `i` on; the result has the index behind the last.
  pub read_pieces : Format V → ℕ → ℕ → List Text → Store V → Result (ℕ × Store V)
  read_pieces f start i [] cells = ok (i, cells)
  read_pieces f start i (piece ∷ pieces) cells = do
    v ← f.parse piece
    read_pieces f start (i + 1) pieces (update cells (start + i) v)

  -- The loop that fills `k` entries from index `i` on.
  pub fill : V → ℕ → ℕ → ℕ → Store V → Store V
  fill default start i zero cells = cells
  fill default start i (suc k) cells =
      fill default start (i + 1) k (update cells (start + i) default)

  -- The accessors `get`: the variables of a property from a text.
  abbrev pub get_number : Format V → ℕ → Text → Memory V → Result (Memory V)
  get_number f a val m = do v ← f.parse val; ok (record m { cells = update m.cells a v })

  abbrev pub get_array : Format V → ℕ → ℕ → V → Text → Memory V → Result (Memory V)
  get_array f len start default val m = do
    (i, cells) ← read_pieces f start 0 (getlines b',' val) m.cells
    ok (record m { cells = fill default start i (len - i) cells })

  abbrev pub get_string : ℕ → Text → Memory V → Result (Memory V)
  get_string a val m = ok (record m { texts = update m.texts a (drop 1 val) })

  pub get_text : Property V → Text → Memory V → Result (Memory V)
  get_text (number f a) val m = get_number f a val m
  get_text (array f len start default) val m = get_array f len start default val m
  get_text (text a) val m = get_string a val m
