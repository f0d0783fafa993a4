-- ===== src/Config/File/Reload.antt =====
-- A configuration that is saved to a file and loaded again:
-- includes/eeros/config/FileConfig.hpp.
use eeros_framework.Base.{List, ◌∷◌, ◌++◌}
use eeros_framework.Config.{Property, Memory, set_text}
use eeros_framework.Config.Streams.{Text, IsWord}
use eeros_framework.Config.RoundTrip.{IsWritable}

-- A property whose name is a word and whose variables can be written.
abbrev pub IsStorable : {V : Type 0} → Memory V → Text × Property V → Type 0
IsStorable m (name, p) = IsWord name × IsWritable m p

module _ {V : Type 0} where
  -- A line without its end.
  abbrev line : Memory V → Text × Property V → Text
  line m (name, p) = name ++ (b' ' ∷ b'=' ∷ b' ' ∷ set_text p m)
