-- ===== src/Db/Slugs.antt =====
-- The slugs of properties, generatePropertySlug and generateUniquePropertySlug of
-- packages/db/index.ts. The `while` runs on fuel, one more than there are existing slugs.
pub mod Fresh
use Prim.Native.Char.{Char, code}
use Prim.Native.String.{char_at, ◌++◌}
use frontstead_kit.Prelude.{
  ℕ, zero, suc, ◌+◌, ◌-◌, ◌/◌, ◌%◌, String, Bool, true, false, ◌&&◌, ◌||◌, List, any, length, leb,
  ltb, ◌==◌, str_eq, if◌then◌else◌,
}
use frontstead_kit.Mls.Value.{is_space}

abbrev between : ℕ → ℕ → ℕ → Bool
between low high n = leb low n && leb n high

-- `toLowerCase` as far as it yields a letter from a to z; the Kelvin sign and the I with a dot do.
abbrev lower : Char → Char
lower c =
    let n = code c in
    if between 65 90 n
    then char_at "abcdefghijklmnopqrstuvwxyz" (n - 65)
    else if n == 0x212a
    then "k"
    else if n == 0x130
    then "i"
    else c

abbrev is_lower : Char → Bool
is_lower c = between 97 122 (code c)

-- `[a-z0-9\s-]`
abbrev is_kept : Char → Bool
is_kept c = is_lower c || between 48 57 (code c) || is_space (code c) || code c == 45

-- `.toLowerCase().replace(/[^…]/g, '')`
pub cleaned : (Char → Bool) → String → String
unfolding is_space
cleaned kept String.[] = String.[]
cleaned kept (String.◌∷◌ c s) =
    let rest = cleaned kept s in if kept (lower c) then String.◌∷◌ (lower c) rest else rest

-- `.replace(/x+/g, '-')`; the flag says that a run of x goes on.
pub dashed : (Char → Bool) → (in_run : Bool) → String → String
dashed is_x in_run String.[] = String.[]
dashed is_x true (String.◌∷◌ c s) =
    let run = dashed is_x true s in
    let end = dashed is_x false s in if is_x c then run else String.◌∷◌ c end
dashed is_x false (String.◌∷◌ c s) =
    let run = dashed is_x true s in
    let end = dashed is_x false s in if is_x c then String.◌∷◌ "-" run else String.◌∷◌ c end

abbrev is_dash : Char → Bool
is_dash c = code c == 45

-- `.replace(/-$/, '')`
pub undashed_end : String → String
undashed_end String.[] = String.[]
undashed_end (String.◌∷◌ c s) =
    let rest = undashed_end s in if is_dash c && str_eq s "" then String.[] else String.◌∷◌ c rest

-- `.replace(/^-|-$/g, '')`
pub undashed : String → String
unfolding undashed_end
undashed String.[] = String.[]
undashed (String.◌∷◌ c s) = if is_dash c then undashed_end s else undashed_end (String.◌∷◌ c s)

-- The replacements that address and city share.
pub hyphenated : String → String
unfolding cleaned dashed
hyphenated s = dashed is_dash false (dashed (λ c. is_space (code c)) false (cleaned is_kept s))

unfoldable pub generate_property_slug : (address city state : String) → String
unfolding hyphenated undashed cleaned
generate_property_slug address city state =
    undashed (hyphenated address) ++ "-" ++ hyphenated city ++ "-" ++ cleaned is_lower state

abbrev pub digit : ℕ → Char
digit n = char_at "0123456789" n

-- The decimal digits of a number before a text, on fuel.
unfoldable pub digits_before : ℕ → ℕ → String → String
digits_before zero n s = s
digits_before (suc fuel) n s =
    let more = digits_before fuel (n / 10) (String.◌∷◌ (digit (n % 10)) s) in
    if ltb n 10 then String.◌∷◌ (digit n) s else more

unfoldable pub decimal : ℕ → String
unfolding digits_before
decimal n = digits_before (suc n) n ""

unfoldable pub numbered : String → ℕ → String
unfolding decimal
numbered base counter = base ++ "-" ++ decimal counter

abbrev pub includes_slug : List String → String → Bool
includes_slug existing slug = any (str_eq slug) existing

-- `while (existingSlugs.includes_slug(slug))`
pub next_free : ℕ → List String → String → String → ℕ → String
next_free zero existing base slug counter = slug
next_free (suc fuel) existing base slug counter =
    let later = next_free fuel existing base (numbered base counter) (counter + 1) in
    if includes_slug existing slug then later else slug

unfoldable pub generate_unique_property_slug :
    (address city state : String) → (existing : List String) → String
unfolding next_free
generate_unique_property_slug address city state existing =
    let base = generate_property_slug address city state in
    next_free (suc (length existing)) existing base base 1
