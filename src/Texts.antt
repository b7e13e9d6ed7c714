-- ===== src/Texts.antt =====
-- Text constants as bytes.
use Prim.Native.Char.{code}
use Prim.Native.String.{String}
use renee.Prelude.{[], ◌∷◌}
use renee.Bytes.{Bytes}

-- The bytes of an ASCII text.
abbrev pub ascii : String → Bytes
ascii String.[] = []
ascii (String.◌∷◌ c s) = code c ∷ ascii s
