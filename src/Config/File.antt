-- ===== src/Config/File.antt =====
-- A configuration in a file: includes/eeros/config/FileConfig.hpp. The content of a file is a text,
-- and a file that cannot be opened is `none`.
pub mod Reload
use eeros_framework.Base.{
  ℕ, Bool, true, false, Option, none, some, List, [], ◌∷◌, ◌++◌, if◌then◌else◌, is_empty, Result,
  ok, throw, ◌>>=◌, ◌>>◌, ensure, no_path, not,
}
use eeros_framework.Config.{Property, Memory, find, set_text, get_text}
use eeros_framework.Config.Streams.{Text, getlines, read_word}

-- The path that is used: the argument, or else that of the configuration.
abbrev pub resolve : Text → Text → Result Text
resolve own path =
    let used = if is_empty path then own else path in
    ensure (not (is_empty used)) no_path >> ok used

-- The value behind `key =`: the rest of the line, or the word when nothing is left.
abbrev pub rest_of : Text × Text → Text
rest_of (word, []) = word
rest_of (word, c ∷ cs) = c ∷ cs

module _ {V : Type 0} where
  abbrev pub line_of : Text × Property V → Memory V → Text
  line_of (name, p) m = name ++ (b' ' ∷ b'=' ∷ b' ' ∷ (set_text p m ++ (b'\n' ∷ [])))

  -- What is written to the file.
  unfoldable pub save_lines : List (Text × Property V) → Memory V → Text
  save_lines [] m = []
  save_lines (p ∷ ps) m = line_of p m ++ save_lines ps m

  -- `can_open` says which files can be opened. The result is what was written, if anything, and
  -- where.
  unfoldable pub save :
      (Text → Bool)
      → Text
      → Text
      → List (Text × Property V)
      → Memory V
      → Result (Option (Text × Text))
  unfolding save_lines
  save can_open own path ps m = do
    used ← resolve own path
    ok (if can_open used then some (used, save_lines ps m) else none)

  pub load_line : List (Text × Property V) → Text → Memory V → Result (Memory V)
  load_line ps line m =
      let (key, rest) = read_word line in
      let val = rest_of (read_word rest) in
      elim (find key ps) [ none ↦ ok m | some p ↦ get_text p val m ]

  pub load_lines : List (Text × Property V) → List Text → Memory V → Result (Memory V)
  unfolding load_line
  load_lines ps [] m = ok m
  load_lines ps (line ∷ lines) m = do m' ← load_line ps line m; load_lines ps lines m'

  -- `content` gives what is in a file. The result says whether the file could be opened.
  pub load :
      (Text → Option Text)
      → Text
      → Text
      → List (Text × Property V)
      → Memory V
      → Result (Bool × Memory V)
  unfolding load_lines
  load content own path ps m = do
    used ← resolve own path
    elim (content used) [
      | none ↦ ok (false, m)
      | some t ↦ load_lines ps (getlines b'\n' t) m >>= λ m'. ok (true, m')
    ]
