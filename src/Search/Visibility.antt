-- ===== src/Search/Visibility.antt =====
-- The filter strings of the public search, packages/search/propertyVisibility.ts. JavaScript's
-- `trim` is an argument.
use Prim.Native.String
use frontstead_kit.Prelude.{String, Option, none, some, str_eq, if◌then◌else◌}
use frontstead_kit.Search.Collection.{is_mls_public_display_enabled}

-- getPublicPropertyTypesenseBaselineFilter; `env` is MLS_PUBLIC_DISPLAY_ENABLED.
pub get_public_property_typesense_baseline_filter : (env : Option String) → String
get_public_property_typesense_baseline_filter env =
    if is_mls_public_display_enabled env
    then "status:=Active && idxDisplayable:=true"
    else "status:=Active && idxDisplayable:=true && source:!=MLS"

abbrev pub conjoined : String → String → String
conjoined baseline filter =
    if str_eq filter ""
    then baseline
    else String.◌++◌ "(" (String.◌++◌ baseline (String.◌++◌ ") && (" (String.◌++◌ filter ")")))

-- andTypesenseFilters
pub and_typesense_filters :
    (trim : String → String) → (baseline : String) → (additional : Option String) → String
and_typesense_filters trim baseline none = baseline
and_typesense_filters trim baseline (some additional) = conjoined baseline (trim additional)

-- buildPublicPropertyTypesenseFilter
pub build_public_property_typesense_filter :
    (trim : String → String) → (additional env : Option String) → String
unfolding and_typesense_filters get_public_property_typesense_baseline_filter
build_public_property_typesense_filter trim additional env =
    and_typesense_filters trim (get_public_property_typesense_baseline_filter env) additional
