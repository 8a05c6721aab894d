-- ===== src/Readiness/Listings.antt =====
-- The page of public listings of a portal, toPortalProperty and getPortalListings of
-- apps/api/src/services/portalReadinessService.ts, with a page and a limit that are natural numbers.
use frontstead_kit.Prelude.{
  ℕ, ◌+◌, ◌-◌, ◌*◌, ◌/◌, max, min, String, Bool, true, false, ◌&&◌, Option, none, some, List, [],
  ◌∷◌, keep, map, length, take, drop, ltb, or_else, if◌then◌else◌,
}
use frontstead_kit.Search.Collection.{ListingStatus, is_mls_public_display_enabled}
use frontstead_kit.Search.Indexing.{ListingRow}
use frontstead_kit.Readiness.{
  PublishedConfig, PortalForReadiness, PortalRow, PortalFilters, CollectionRow, is_some_list,
  published_collections, is_active_listing, matches_portal, get_portal_readiness,
}

pub record PortalProperty : Type 0 where
  pub id : String
  pub address : String
  pub city : String
  pub state : String
  pub zip_code : String
  pub subdivision : Option String
  pub price : Option ℕ
  pub bedrooms : Option ℕ
  pub bathrooms : Option ℕ
  pub square_feet : Option ℕ
  pub image_url : Option String
  pub slug : Option String
  pub status : Option ListingStatus

pub record Pagination : Type 0 where
  pub page : ℕ
  pub limit : ℕ
  pub total : ℕ
  pub total_pages : ℕ
  pub has_next : Bool
  pub has_prev : Bool

-- `a ?? b` of two nullable values.
abbrev pub first_of : {A : Type 0} → Option A → Option A → Option A
first_of none b = b
first_of (some a) b = some a

abbrev pub head_of : {A : Type 0} → List A → Option A
head_of [] = none
head_of (a ∷ rest) = some a

-- A field of a listing that may be absent.
abbrev pub of_listing : {A : Type 0} → (ListingRow ℕ → Option A) → Option (ListingRow ℕ) → Option A
of_listing field none = none
of_listing field (some l) = field l

abbrev pub shared_image : Bool → List String → Option String
shared_image true media = head_of media
shared_image false media = none

-- toPortalProperty, of the listing that the query includes.
unfoldable pub to_portal_property :
    PortalRow → Option (ListingRow ℕ) → (shared_media : Bool) → PortalProperty
to_portal_property row l shared_media = record {
  id = row.id;
  address = row.columns.address;
  city = row.columns.city;
  state = row.columns.state;
  zip_code = row.columns.zip_code;
  subdivision = row.columns.subdivision;
  price = of_listing (λ x. x.columns.list_price) l;
  bedrooms = first_of row.columns.bedrooms (of_listing (λ x. x.columns.bedrooms) l);
  bathrooms = first_of row.columns.bathrooms (of_listing (λ x. x.columns.bathrooms) l);
  square_feet = first_of row.columns.square_feet (of_listing (λ x. x.columns.square_feet) l);
  image_url = first_of (of_listing (λ x. x.image_url) l) (shared_image shared_media row.media);
  slug = of_listing (λ x. x.slug) l;
  status = of_listing (λ x. some x.columns.status) l;
}

abbrev pub page_number : Option ℕ → ℕ
page_number page = max 1 (or_else page 1)

abbrev pub page_limit : Option ℕ → ℕ
page_limit limit = min 100 (max 1 (or_else limit 12))

module _ (env : Option String)
    (in_collection : (exclude_mls : Bool) → CollectionRow → PortalRow → Bool)
    (contains_text : String → PortalRow → Bool) (config : PublishedConfig) where
  -- The listing that `include` gives of a row: the newest that is active in the range of prices.
  abbrev pub included_listing : PortalFilters → PortalRow → Option (ListingRow ℕ)
  included_listing filters row = head_of (
      keep
        (is_active_listing env config.board_ids filters.min_price filters.max_price
          config.idx_approved)
        row.listings)

  abbrev pub shared_media : Bool
  shared_media = config.idx_approved && is_mls_public_display_enabled env

  abbrev pub no_page : ℕ → ℕ → List PortalProperty × Pagination
  no_page page limit = (
    [],
    record {
      page = page;
      limit = limit;
      total = 0;
      total_pages = 0;
      has_next = false;
      has_prev = false;
    },
  )

  -- The page of the rows that match, by a limit that is positive.
  abbrev pub page_of_rows :
      PortalFilters → (page limit : ℕ) → List PortalRow → List PortalProperty × Pagination
  page_of_rows filters page limit matching =
      let total = length matching in
      let total_pages = (total + (limit - 1)) / limit in
      (
        map (λ row. to_portal_property row (included_listing filters row) shared_media)
            (take limit (drop ((page - 1) * limit) matching)),
        record {
          page = page;
          limit = limit;
          total = total;
          total_pages = total_pages;
          has_next = ltb page total_pages;
          has_prev = ltb 1 page;
        },
      )

  -- getPortalListings
  unfoldable pub get_portal_listings :
      PortalForReadiness
      → PortalFilters
      → (page limit : Option ℕ) → List PortalRow
      → List PortalProperty × Pagination
  get_portal_listings portal filters page limit rows =
      let readiness = get_portal_readiness env in_collection contains_text config portal rows in
      if readiness.can_show_listings && is_some_list (published_collections portal)
      then page_of_rows filters (page_number page) (page_limit limit)
          (keep (matches_portal env in_collection contains_text config portal filters) rows)
      else no_page (page_number page) (page_limit limit)
