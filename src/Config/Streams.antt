-- ===== src/Config/Streams.antt =====
-- What the configuration uses of streams: `getline` until it fails, and `>>` of words. A text is
-- the list of its characters.
use eeros_framework.Base.{
  ℕ, Bool, false, ◌||◌, ◌&&◌, List, [], ◌∷◌, ◌++◌, ◌≡◌, refl, ◌≢◌, arith, leb, ◌==◌, if◌then◌else◌,
  All,
}

abbrev pub Text : Type 0
Text = List ℕ

first_cons : ℕ → List Text → List Text
first_cons c [] = (c ∷ []) ∷ []
first_cons c (piece ∷ pieces) = (c ∷ piece) ∷ pieces

-- The texts that `while (getline(stream, piece, d))` reads: up to the next `d` or the end, and none
-- once nothing is left.
unfoldable pub getlines : ℕ → Text → List Text
unfolding first_cons
getlines d [] = []
getlines d (c ∷ cs) = let rest = getlines d cs in if c == d then [] ∷ rest else first_cons c rest

abbrev pub is_space : ℕ → Bool
is_space c = (c == b' ') || (leb 9 c && leb c 13)

-- A word up to the next space, and what is left.
take_word : Text → Text × Text
take_word [] = ([], [])
take_word (c ∷ cs) =
    let (word, rest) = take_word cs in if is_space c then ([], c ∷ cs) else (c ∷ word, rest)

-- `stream >> word`, with what is left of the stream; a word that is not there stays empty.
pub read_word : Text → Text × Text
unfolding take_word
read_word [] = ([], [])
read_word (c ∷ cs) = let rest = read_word cs in if is_space c then rest else take_word (c ∷ cs)

-- `d` is not in the text.
abbrev pub Without : ℕ → Text → Type 0
Without d text = All (λ c. (c == d) ≡ false) text

abbrev pub IsWord : Text → Type 0
IsWord word = (word ≢ []) × All (λ c. is_space c ≡ false) word

pub getlines-append :
    (d : ℕ) (piece rest : Text)
    → Without d piece
    → getlines d (piece ++ (d ∷ rest)) ≡ piece ∷ getlines d rest
unfolding getlines
getlines-append d [] rest h = ground arith
getlines-append d (c ∷ cs) rest h = ground (arith, getlines-append d cs rest h.1)

pub getlines_last : (d c : ℕ) (cs : Text) → Without d (c ∷ cs) → getlines d (c ∷ cs) ≡ (c ∷ cs) ∷ []
unfolding getlines
getlines_last d c [] h = ground arith
getlines_last d c (b ∷ bs) h = ground (arith, getlines_last d b bs h.1)

take_word-append :
    (word rest : Text)
    → All (λ c. is_space c ≡ false) word
    → take_word (word ++ (b' ' ∷ rest)) ≡ (word, b' ' ∷ rest)
unfolding take_word
take_word-append [] rest h = ground arith
take_word-append (c ∷ cs) rest h = ground (arith, take_word-append cs rest h.1)

pub read_word-append :
    (word rest : Text) → IsWord word → read_word (word ++ (b' ' ∷ rest)) ≡ (word, b' ' ∷ rest)
unfolding read_word
read_word-append [] rest h = absurd (h.0 refl)
read_word-append (c ∷ cs) rest h = ground (arith, take_word-append (c ∷ cs) rest h.1)

-- Spaces before a word are skipped.
pub read_word_space : (rest : Text) → read_word (b' ' ∷ rest) ≡ read_word rest
unfolding read_word
read_word_space rest = ground arith

pub Without-append : (d : ℕ) (s t : Text) → Without d s → Without d t → Without d (s ++ t)
Without-append d [] t h k = k
Without-append d (c ∷ cs) t h k = (h.0, Without-append d cs t h.1 k)

pub getlines-nil : (d : ℕ) → getlines d [] ≡ []
unfolding getlines
getlines-nil d = refl
