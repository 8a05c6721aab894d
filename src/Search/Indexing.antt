-- ===== src/Search/Indexing.antt =====
-- The document of a property in the search index: packages/search/transformers.ts (toPropertyDoc),
-- syncService.ts (upsertDocument, deleteDocument), propertyVisibility.ts (buildPublicListingWhere)
-- and reconcilePropertyDocument.ts. Typesense and the tables are parameters. `Number` is
-- JavaScript's, instants are in milliseconds.
pub mod Safe
pub mod Finite
pub mod RowList
use frontstead_kit.Prelude.{
  ℕ, ◌/◌, String, Bool, true, false, not, ◌&&◌, ◌||◌, Option, none, some, ◌≡◌, ◌⊎◌, List, str_eq,
  if◌then◌else◌,
}
use frontstead_kit.Db.{Table}
use frontstead_kit.Search.Collection.{
  ListingStatus, active, pending, sold, withdrawn, expired, coming_soon, ListingSource, mls, manual,
  zillow, realtor_com, is_mls_public_display_enabled,
}

-- The columns that MLS ingestion writes, of a property and of a listing.
pub record PropertyData (Number : Type 0) : Type 0 where
  pub address : String
  pub city : String
  pub state : String
  pub zip_code : String
  pub latitude : Option Number
  pub longitude : Option Number
  pub property_type : Option String
  pub bedrooms : Option Number
  pub bathrooms : Option Number
  pub square_feet : Option Number
  pub lot_size : Option Number
  pub year_built : Option Number
  pub subdivision : Option String

-- The row under its id.
pub record PropertyRow (Number : Type 0) : Type 0 where
  pub parcel_id : Option String
  pub created_at : ℕ
  pub columns : PropertyData Number

pub record ListingData (Number : Type 0) : Type 0 where
  pub mls_id : Option String
  pub list_price : Option Number
  pub status : ListingStatus
  pub list_date : Option ℕ
  pub description : Option String
  pub listing_agent_name : Option String
  pub listing_agent_email : Option String
  pub listing_agent_phone : Option String
  pub brokerage_name : Option String
  pub brokerage_phone : Option String
  pub bedrooms : Option Number
  pub bathrooms : Option Number
  pub square_feet : Option Number
  pub raw_data : String
  pub idx_displayable : Bool

pub record ListingRow (Number : Type 0) : Type 0 where
  pub property_id : String
  pub source : ListingSource
  pub mls_board_id : Option String
  pub listing_key : Option String
  pub slug : Option String
  pub image_url : Option String
  pub columns : ListingData Number

pub record PropertyDocument (Number : Type 0) : Type 0 where
  pub id : String
  pub address : String
  pub city : String
  pub state : String
  pub zip_code : String
  pub property_type : Option String
  pub bedrooms : Option Number
  pub bathrooms : Option Number
  pub square_feet : Option Number
  pub subdivision : Option String
  pub mls_id : Option String
  pub mls_board_id : Option String
  pub slug : Option String
  pub image_url : Option String
  pub listing_date : Option ℕ
  pub status : String
  pub source : ListingSource
  pub idx_displayable : Bool
  pub price : Option Number
  pub location : Option (Number × Number)
  pub created_at : ℕ

-- `split('_')`, title case, `join(' ')` of the enum's name.
abbrev pub normalize_listing_status : ListingStatus → String
normalize_listing_status active = "Active"
normalize_listing_status pending = "Pending"
normalize_listing_status sold = "Sold"
normalize_listing_status withdrawn = "Withdrawn"
normalize_listing_status expired = "Expired"
normalize_listing_status coming_soon = "Coming Soon"

abbrev pub seconds : Option ℕ → Option ℕ
seconds none = none
seconds (some ms) = some (ms / 1000)

abbrev pub location_of :
    {Number : Type 0} → Option Number → Option Number → Option (Number × Number)
location_of (some latitude) (some longitude) = some (latitude, longitude)
location_of (some latitude) none = none
location_of none longitude = none

unfoldable pub to_property_doc :
    {Number : Type 0}
    → (id : String) → PropertyRow Number
    → ListingRow Number
    → PropertyDocument Number
to_property_doc id p l = record {
  id = id;
  address = p.columns.address;
  city = p.columns.city;
  state = p.columns.state;
  zip_code = p.columns.zip_code;
  property_type = p.columns.property_type;
  bedrooms = p.columns.bedrooms;
  bathrooms = p.columns.bathrooms;
  square_feet = p.columns.square_feet;
  subdivision = p.columns.subdivision;
  mls_id = l.columns.mls_id;
  mls_board_id = l.mls_board_id;
  slug = l.slug;
  image_url = l.image_url;
  listing_date = seconds l.columns.list_date;
  status = normalize_listing_status l.columns.status;
  source = l.source;
  idx_displayable = l.columns.idx_displayable;
  price = l.columns.list_price;
  location = location_of p.columns.latitude p.columns.longitude;
  created_at = p.created_at / 1000;
}

-- How a call of Typesense ends; `not_found` is the HTTP status 404.
pub data Answer : Type 0 where
  done not_found : Answer
  broken : String → Answer

abbrev pub is_broken : Answer → Bool
is_broken (broken message) = true
is_broken done = false
is_broken not_found = false

-- The collection `properties`. A call that fails may or may not have taken effect.
pub record Typesense (Number : Type 0) : Type 1 where
  pub State : Type 0
  pub find : State → String → Option (PropertyDocument Number)
  pub upsert : State → PropertyDocument Number → State × Answer
  pub delete : State → String → State × Answer
  pub find-delete :
      (s : State) (id j : String) (d : PropertyDocument Number)
      → find (delete s id).0 j ≡ some d
      → find s j ≡ some d
  pub delete-gone :
      (s : State) (id : String) → is_broken (delete s id).1 ≡ false → find (delete s id).0 id ≡ none
  pub find-upsert :
      (s : State) (d : PropertyDocument Number) (j : String) (e : PropertyDocument Number)
      → find (upsert s d).0 j ≡ some e
      → ((j ≡ d.id) × (e ≡ d)) ⊎ (find s j ≡ some e)
  pub upsert-done :
      (s : State) (d : PropertyDocument Number)
      → (upsert s d).1 ≡ done
      → find (upsert s d).0 d.id ≡ some d

-- The table of listings: by id, by its unique listing key, and the queries on it.
pub record Listings (Number : Type 0) : Type 1 where
  pub T : Table (ListingRow Number)
  -- findUnique by listingKey: the row's id
  pub id_of_key : T.State → String → Option String
  -- a new cuid
  pub fresh : T.State → String
  -- the slugs that start with a text
  pub slugs_with : T.State → String → List String
  -- the listings of a property, by a `where`, the newest first, take: 1
  pub newest : T.State → String → (ListingRow Number → Bool) → Option (ListingRow Number)
  pub id_of_key-find :
      (s : T.State) (key id : String)
      → id_of_key s key ≡ some id
      → (l : ListingRow Number) × (T.find s id ≡ some l)
  pub fresh-find : (s : T.State) → T.find s (fresh s) ≡ none
  pub newest-find :
      (s : T.State) (property_id : String) (test : ListingRow Number → Bool) (l : ListingRow Number)
      → newest s property_id test ≡ some l
      → (id : String) × (T.find s id ≡ some l) × (l.property_id ≡ property_id) × (test l ≡ true)
  pub newest-none :
      (s : T.State) (property_id : String) (test : ListingRow Number → Bool)
      → newest s property_id test ≡ none
      → (id : String) (l : ListingRow Number) → T.find s id ≡ some l
      → l.property_id ≡ property_id
      → test l ≡ false

abbrev pub is_active_status : ListingStatus → Bool
is_active_status active = true
is_active_status _ = false

abbrev pub is_from_mls : ListingSource → Bool
is_from_mls mls = true
is_from_mls _ = false

-- The `where` of buildPublicListingWhere, as a test of a row; `env` is MLS_PUBLIC_DISPLAY_ENABLED.
unfoldable pub is_public : {Number : Type 0} → (env : Option String) → ListingRow Number → Bool
is_public env l =
    is_active_status l.columns.status
    && l.columns.idx_displayable
    && (is_mls_public_display_enabled env || not (is_from_mls l.source))

-- The text of what a call of Typesense throws.
abbrev pub thrown_by_delete : Answer → Option String
thrown_by_delete done = none
thrown_by_delete not_found = none
thrown_by_delete (broken message) = some message

abbrev pub thrown_by_upsert : Answer → Option String
thrown_by_upsert done = none
thrown_by_upsert not_found = some "Not Found"
thrown_by_upsert (broken message) = some message

module _ {Number : Type 0} (S : Typesense Number) where
  unfoldable pub delete_document : S.State → String → S.State × Option String
  delete_document s id = ((S.delete s id).0, thrown_by_delete (S.delete s id).1)

  unfoldable pub upsert_document : S.State → PropertyDocument Number → S.State × Option String
  upsert_document s d = ((S.upsert s d).0, thrown_by_upsert (S.upsert s d).1)

  -- The document by what the query finds of the property and its newest public listing.
  abbrev pub show :
      S.State
      → String
      → Option (PropertyRow Number)
      → Option (ListingRow Number)
      → S.State × Option String
  show s property_id (some p) (some l) = upsert_document s (to_property_doc property_id p l)
  show s property_id (some p) none = delete_document s property_id
  show s property_id none l = delete_document s property_id

  module _ (P : Table (PropertyRow Number)) (L : Listings Number) where
    unfoldable pub reconcile_property_document :
        (env : Option String) → P.State → L.T.State → S.State → String → S.State × Option String
    reconcile_property_document env ps ls s property_id =
        show s property_id (P.find ps property_id) (L.newest ls property_id (is_public env))
