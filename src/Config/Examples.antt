-- ===== src/Config/Examples.antt =====
-- A configuration with a number, an array and a text, saved and loaded.
use eeros_framework.Base.{
  ◌≡◌, ◌≢◌, refl, Bool, true, false, List, [], ◌∷◌, ◌==◌, if◌then◌else◌, Result, ok, throw,
  invalid_number, update, length_inconsistent,
}
use eeros_framework.Config.{
  Format, Memory, Property, number, array, text, add_array, get_text, read_pieces, fill,
}
use eeros_framework.Config.Streams.{Text, getlines}

-- The numbers 0 and 1.
abbrev print_bit : Bool → Text
print_bit true = b'1' ∷ []
print_bit false = b'0' ∷ []

parse_bit : Text → Result Bool
parse_bit [] = throw invalid_number
parse_bit (c ∷ cs) =
    let rest = parse_bit cs in
    if c == b' '
    then rest
    else if c == b'1'
    then ok true
    else if c == b'0'
    then ok false
    else throw invalid_number

abbrev bit : Format Bool
bit = record { to_string = print_bit; put = print_bit; parse = parse_bit }

-- "b" at 3, an array "a" of two numbers at 0, a text "t".
abbrev properties : List (Text × Property Bool)
properties = (b'a' ∷ [], array bit 2 0 false) ∷ (b'b' ∷ [], number bit 3) ∷ (b't' ∷ [], text 0) ∷ []

abbrev after_two : List (Text × Property Bool)
after_two = (b'b' ∷ [], number bit 3) ∷ (b't' ∷ [], text 0) ∷ []

-- `add` refuses an array of which the end does not fit its length.
add_array_refused : add_array {V = Bool} (b'a' ∷ []) bit 2 0 3 false [] ≡ throw length_inconsistent
unfolding add_array
add_array_refused = refl

abbrev saved : Memory Bool
saved = record { cells = λ c. c == 1; texts = λ c. b'h' ∷ b' ' ∷ b'i' ∷ [] }

abbrev other : Memory Bool
other = record { cells = λ c. true; texts = λ c. [] }

abbrev file : Text
file =
    b'a' ∷ b' ' ∷ b'=' ∷ b' ' ∷ b'0' ∷ b',' ∷ b' ' ∷ b'1' ∷ b'\n' ∷ b'b' ∷ b' ' ∷ b'=' ∷ b' ' ∷ b'0'
    ∷ b'\n' ∷ b't' ∷ b' ' ∷ b'=' ∷ b' ' ∷ b'h' ∷ b' ' ∷ b'i' ∷ b'\n' ∷ []

-- An array text with too many numbers overwrites what stands behind the array.
get_text_overflow :
    (m : Memory Bool) × (get_text (array bit 1 0 false) (b'0' ∷ b',' ∷ b'0' ∷ []) other ≡ ok m)
    × (m.cells 1 ≢ other.cells 1)
unfolding get_text read_pieces fill getlines parse_bit
get_text_overflow =
    (record other { cells = update (update other.cells 0 false) 1 false }, refl, λ e. cc)
