-- ===== src/Mls/Mappers.antt =====
-- The status, type and display of a RESO listing, apps/mls-service/src/sync/mappers.ts.
pub mod Safe
mod Examples
use frontstead_kit.Prelude.{
  ◌≡◌, ◌⊎◌, inl, inr, String, Bool, true, false, not, Option, none, some, List, [], ◌∷◌, any,
  str_eq, eq_iff, if◌then◌else◌, Option-cases, Bool-cases, arith,
}
use frontstead_kit.Search.Collection.{
  ListingStatus, active, pending, sold, withdrawn, expired, coming_soon,
}
use frontstead_kit.Mls.Value.{Value, Record, str, is_off}

-- A table from texts, as an object literal.
abbrev pub entry {ℓ} : {A : Type ℓ} → List (String × A) → String → Option A
entry [] key = none
entry ((k, a) ∷ rows) key = if str_eq key k then some a else entry rows key

-- RESO_STATUS
abbrev pub reso_status : List (String × ListingStatus)
reso_status =
    ("Active", active)
    ∷ ("Active Under Contract", pending)
    ∷ ("Pending", pending)
    ∷ ("Closed", sold)
    ∷ ("Coming Soon", coming_soon)
    ∷ ("Canceled", withdrawn)
    ∷ ("Cancelled", withdrawn)
    ∷ ("Withdrawn", withdrawn)
    ∷ ("Expired", expired)
    ∷ ("Hold", withdrawn)
    ∷ ("Delete", withdrawn)
    ∷ ("Incomplete", withdrawn)
    ∷ []

-- What every object inherits, so that `key in RESO_STATUS` holds of it.
abbrev pub inherited : List String
inherited =
    "constructor" ∷ "hasOwnProperty" ∷ "isPrototypeOf" ∷ "propertyIsEnumerable" ∷ "toLocaleString"
    ∷ "toString" ∷ "valueOf" ∷ "__proto__" ∷ "__defineGetter__" ∷ "__defineSetter__"
    ∷ "__lookupGetter__" ∷ "__lookupSetter__" ∷ []

-- NormalizedStatus; the status `none` is an inherited member, which is no status.
pub record NormalizedStatus : Type 0 where
  pub status : Option ListingStatus
  pub recognized : Bool

-- The own entry of a key, or else whether the key is inherited.
abbrev pub choose : Option ListingStatus → Bool → NormalizedStatus
choose (some status) member = record { status = some status; recognized = true }
choose none true = record { status = none; recognized = true }
choose none false = record { status = some withdrawn; recognized = false }

abbrev pub status_of_key : String → NormalizedStatus
status_of_key key = choose (entry reso_status key) (any (λ k. str_eq key k) inherited)

unfoldable pub normalize_status : Value → NormalizedStatus
normalize_status raw = elim (str raw) [
  | none ↦ record { status = some withdrawn; recognized = false }
  | some key ↦ status_of_key key
]

pub data PropertyType : Type 0 where
  single_family condo townhouse multi_family land commercial : PropertyType

-- RESO_PROPERTY_TYPE
abbrev pub reso_property_type : List (String × PropertyType)
reso_property_type =
    ("Single Family Residence", single_family)
    ∷ ("Single Family Detached", single_family)
    ∷ ("Condominium", condo)
    ∷ ("Condo", condo)
    ∷ ("Townhouse", townhouse)
    ∷ ("Townhome", townhouse)
    ∷ ("Duplex", multi_family)
    ∷ ("Triplex", multi_family)
    ∷ ("Quadruplex", multi_family)
    ∷ ("Multi Family", multi_family)
    ∷ ("Residential Income", multi_family)
    ∷ ("Land", land)
    ∷ ("Unimproved Land", land)
    ∷ ("Commercial", commercial)
    ∷ ("Commercial Sale", commercial)
    ∷ []

pub normalize_property_type : Value → Option PropertyType
normalize_property_type raw = elim (str raw) [
  | none ↦ none
  | some key ↦ entry reso_property_type key
]

unfoldable pub is_idx_displayable : Record → Bool
is_idx_displayable record_ = not (is_off (record_ "InternetEntireListingDisplayYN"))
