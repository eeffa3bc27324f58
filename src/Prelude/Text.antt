-- ===== src/Prelude/Text.antt =====
-- Text literals as lists of bytes, and the search in a text.
use Prim.Native.Char.{code}
use Prim.Native.String.{String}
use vardoger.Prelude.{Bool, true, false, ◌&&◌, ◌||◌, [], ◌∷◌, ◌==◌}
use vardoger.Prelude.Order.{Bytes}

-- The bytes of an ASCII text.
abbrev pub text : String → Bytes
text String.[] = []
text (String.◌∷◌ c s) = code c ∷ text s

-- Does the text begin with the needle; does it hold it: `text.find(needle) != npos`.
abbrev pub begins : Bytes → Bytes → Bool
begins [] text = true
begins (n ∷ ns) [] = false
begins (n ∷ ns) (c ∷ cs) = n == c && begins ns cs

abbrev pub contains : Bytes → Bytes → Bool
contains needle [] = begins needle []
contains needle (c ∷ cs) = begins needle (c ∷ cs) || contains needle cs
