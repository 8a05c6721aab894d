-- ===== src/Readiness.antt =====
-- The readiness of a portal and its public listings,
-- apps/api/src/services/portalReadinessService.ts. The configuration that resolvePublicConfig finds,
-- the predicates of collections and the search for a text are arguments; a `where` is read as a test,
-- and the rows are in the order that the query asks for. Prices and counts are natural numbers.
pub mod Listings
pub mod Lawful
mod Examples
use frontstead_kit.Prelude.{
  ℕ, ◌+◌, ◌-◌, ◌*◌, ◌/◌, max, min, String, Bool, true, false, not, ◌&&◌, ◌||◌, Option, none, some,
  List, [], ◌∷◌, ◌++◌, any, keep, map, length, take, drop, leb, ltb, or_else, is_some, str_eq,
  if◌then◌else◌,
}
use frontstead_kit.Search.Collection.{is_mls_public_display_enabled}
use frontstead_kit.Search.Indexing.{PropertyData, ListingRow, is_public, is_from_mls}
use frontstead_kit.Mls.Value.{trim}

pub data GateState : Type 0 where
  passed blocked warning : GateState

pub record Gate : Type 0 where
  pub id : String
  pub state : GateState

pub data ListingMode : Type 0 where
  hidden mock db : ListingMode

pub record PublishedConfig : Type 0 where
  pub mode : ListingMode
  pub board_ids : List String
  pub idx_approved : Bool
  pub shows_mock : Bool
  pub search : Bool

pub record CollectionRow : Type 0 where
  pub id : String
  pub is_published : Bool

pub record PortalForReadiness : Type 0 where
  pub agent_email : Option String
  pub brokerage_name : Option String
  pub brokerage_phone : Option String
  pub collections : List CollectionRow

-- A property with its listings, the newest first, and the URLs of its photos.
pub record PortalRow : Type 0 where
  pub id : String
  pub columns : PropertyData ℕ
  pub listings : List (ListingRow ℕ)
  pub media : List String

pub record PortalFilters : Type 0 where
  pub q : Option String
  pub min_price : Option ℕ
  pub max_price : Option ℕ
  pub bedrooms : Option ℕ
  pub bathrooms : Option ℕ
  pub property_type : Option String

abbrev pub no_filters : PortalFilters
no_filters = record {
  q = none;
  min_price = none;
  max_price = none;
  bedrooms = none;
  bathrooms = none;
  property_type = none;
}

pub record PortalReadiness : Type 0 where
  pub can_show_search : Bool
  pub can_show_listings : Bool
  pub gates : List Gate

-- A truthy text.
abbrev pub is_given : Option String → Bool
is_given none = false
is_given (some s) = not (str_eq s "")

abbrev pub pass_if : Bool → GateState
pass_if true = passed
pass_if false = blocked

abbrev pub warn_unless : Bool → GateState
warn_unless true = passed
warn_unless false = warning

abbrev pub published_collections : PortalForReadiness → List CollectionRow
published_collections portal = keep (λ c. c.is_published) portal.collections

abbrev pub is_some_list : List CollectionRow → Bool
is_some_list [] = false
is_some_list (c ∷ cs) = true

-- `gte` and `lte` of a nullable number.
abbrev pub at_least : Option ℕ → Option ℕ → Bool
at_least none value = true
at_least (some bound) none = false
at_least (some bound) (some n) = leb bound n

abbrev pub at_most : Option ℕ → Option ℕ → Bool
at_most none value = true
at_most (some bound) none = false
at_most (some bound) (some n) = leb n bound

abbrev pub on_board : List String → Option String → Bool
on_board [] board = true
on_board (b ∷ bs) none = false
on_board (b ∷ bs) (some board) = any (str_eq board) (b ∷ bs)

-- buildActiveListingWhere; `env` is MLS_PUBLIC_DISPLAY_ENABLED.
unfoldable pub is_active_listing :
    (env : Option String)
    → (board_ids : List String) → (min_price max_price : Option ℕ) → (idx_approved : Bool)
    → ListingRow ℕ
    → Bool
is_active_listing env board_ids min_price max_price idx_approved l =
    is_public env l
    && on_board board_ids l.mls_board_id
    && (idx_approved || not (is_from_mls l.source))
    && at_least min_price l.columns.list_price
    && at_most max_price l.columns.list_price

abbrev pub property_types : List String
property_types =
    "SINGLE_FAMILY" ∷ "CONDO" ∷ "TOWNHOUSE" ∷ "MULTI_FAMILY" ∷ "LAND" ∷ "COMMERCIAL" ∷ []

abbrev pub has_type : Option String → Option String → Bool
has_type none actual = true
has_type (some wanted) actual =
    if any (str_eq wanted) property_types
    then elim actual [ none ↦ false | some t ↦ str_eq t wanted ]
    else true

module _ (env : Option String)
    (in_collection : (exclude_mls : Bool) → CollectionRow → PortalRow → Bool)
    (contains_text : String → PortalRow → Bool) (config : PublishedConfig) where
  abbrev pub matches_text : Option String → PortalRow → Bool
  matches_text none row = true
  matches_text (some q) row = if str_eq (trim q) "" then true else contains_text (trim q) row

  -- buildPortalPropertyWhere; without a published collection it is null, which matches nothing.
  unfoldable pub matches_portal : PortalForReadiness → PortalFilters → PortalRow → Bool
  matches_portal portal filters row =
      any (λ c. in_collection (not config.idx_approved) c row) (published_collections portal)
      && any
          (is_active_listing env config.board_ids filters.min_price filters.max_price
            config.idx_approved)
          row.listings
      && at_least filters.bedrooms row.columns.bedrooms
      && at_least filters.bathrooms row.columns.bathrooms
      && has_type filters.property_type row.columns.property_type
      && matches_text filters.q row

  abbrev pub count_matching_listings : PortalForReadiness → List PortalRow → ℕ
  count_matching_listings portal rows = length (keep (matches_portal portal no_filters) rows)

  -- The gates of the listings, by the mode.
  abbrev pub listing_gates : ListingMode → PortalForReadiness → List PortalRow → List Gate
  listing_gates hidden portal rows = record { id = "listing-policy"; state = passed } ∷ []
  listing_gates mock portal rows =
      record { id = "listing-policy"; state = warn_unless (not config.shows_mock) } ∷ []
  listing_gates db portal rows =
      record { id = "idx-approval"; state = warn_unless config.idx_approved }
      ∷ record {
        id = "collections-published";
        state = pass_if (is_some_list (published_collections portal));
      }
      ∷ record {
        id = "listings-match";
        state = pass_if (ltb 0 (count_matching_listings portal rows));
      }
      ∷ []

  abbrev pub has_brokerage : PortalForReadiness → Bool
  has_brokerage portal = is_given portal.brokerage_name && is_given portal.brokerage_phone

  unfoldable pub readiness_gates : PortalForReadiness → List PortalRow → List Gate
  readiness_gates portal rows =
      record { id = "agent-email"; state = pass_if (is_given portal.agent_email) }
      ∷ record { id = "brokerage"; state = pass_if (has_brokerage portal) }
      ∷ listing_gates config.mode portal rows

  abbrev pub is_blocked : Gate → Bool
  is_blocked g = elim g.state [ passed ↦ false | blocked ↦ true | warning ↦ false ]

  abbrev pub is_db : ListingMode → Bool
  is_db hidden = false
  is_db mock = false
  is_db db = true

  unfoldable pub get_portal_readiness : PortalForReadiness → List PortalRow → PortalReadiness
  unfolding readiness_gates
  get_portal_readiness portal rows =
      let gates = readiness_gates portal rows in
      let shown = is_db config.mode && not (any is_blocked gates) in
      record { can_show_search = shown && config.search; can_show_listings = shown; gates = gates }
