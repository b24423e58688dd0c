-- ===== src/Prelude/Text.antt =====
-- `format!` with texts alone.
use Prim.Native.String
use Prim.Native.String.{String}
use mathlib.Core.List.{List, [], ◌∷◌}

abbrev pub text : List String → String
text [] = ""
text (s ∷ ss) = String.◌++◌ s (text ss)
