-- ===== src/Prelude/Text.antt =====
-- A text as the list of its code units, for texts that the source walks, cuts or joins.
use Prim.Native.Nat.{ℕ}
use Prim.Native.Char.{code}
use Prim.Native.String.{String}
use mathlib.Core.Option.{Option, none, some}
use mathlib.Core.Bool.{Bool, false, not}
use text.Mathlib.Text.{◌==◌ as str_eq}
use mathlib.Core.List.{List, [], ◌∷◌}

abbrev pub codes : String → List ℕ
codes String.[] = []
codes (String.◌∷◌ c s) = code c ∷ codes s

-- A truthy text.
abbrev pub has_text : Option String → Bool
has_text none = false
has_text (some s) = not (str_eq s "")
