-- ===== src/Mls/Value.antt =====
-- Loosely typed field values of a RESO record, and apps/mls-service/src/sync/coerce.ts. A record is
-- the function from a field's name to its value. How JavaScript reads a date from a text is the
-- argument `parse_date`, in milliseconds since the epoch.
use Prim.Native.Char.{code}
use frontstead_kit.Prelude.{
  ℕ, String, Bool, true, false, ◌&&◌, ◌||◌, Option, none, some, leb, ◌==◌, str_eq, if◌then◌else◌,
}

pub data Value : Type 0 where
  undefined null : Value
  bool : Bool → Value
  number : ℕ → Value
  text : String → Value
  -- a negative or fractional number, an array or an object
  other : Value

abbrev pub Record : Type 0
Record = String → Value

-- What `trim` removes: the white space and line terminators of ECMAScript.
unfoldable pub is_space : ℕ → Bool
is_space c =
    (leb 9 c && leb c 13)
    || c == 32
    || c == 160
    || c == 0x1680
    || (leb 0x2000 c && leb c 0x200a)
    || c == 0x2028
    || c == 0x2029
    || c == 0x202f
    || c == 0x205f
    || c == 0x3000
    || c == 0xfeff

unfoldable pub trim_start : String → String
trim_start String.[] = String.[]
trim_start (String.◌∷◌ c s) = if is_space (code c) then trim_start s else String.◌∷◌ c s

-- Drops what is blank up to the end.
unfoldable pub trim_end : String → String
trim_end String.[] = String.[]
trim_end (String.◌∷◌ c s) =
    let rest = trim_end s in
    if is_space (code c) && str_eq rest "" then String.[] else String.◌∷◌ c rest

unfoldable pub trim : String → String
unfolding trim_start trim_end is_space
trim s = trim_end (trim_start s)

-- A trimmed text that is not empty.
unfoldable pub str : Value → Option String
unfolding trim
str (text s) = if str_eq (trim s) "" then none else some (trim s)
str _ = none

unfoldable pub date_of : (String → Option ℕ) → Value → Option ℕ
unfolding str
date_of parse_date v = elim (str v) [ none ↦ none | some s ↦ parse_date s ]

-- `value === false || value === 'false' || value === 0`
abbrev pub is_off : Value → Bool
is_off (bool false) = true
is_off (number n) = n == 0
is_off (text s) = str_eq s "false"
is_off _ = false
