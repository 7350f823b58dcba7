-- ===== src/Base/Text.antt =====
-- Text literals as the strings of the model: the bytes of an ASCII text.
use mathlib.Core.List.{[], ◌∷◌}
use Prim.Native.Char.{code}
use Prim.Native.String.{String}
use boomerang.Base.Order.{Str}

abbrev pub codes : String → Str
codes String.[] = []
codes (String.◌∷◌ c s) = code c ∷ codes s
