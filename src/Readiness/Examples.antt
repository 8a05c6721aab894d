-- ===== src/Readiness/Examples.antt =====
-- A portal without an IDX approval, over an agent's own listing and one of the MLS.
use frontstead_kit.Prelude.{ℕ, ◌≡◌, refl, String, Bool, true, false, none, some, [], ◌∷◌, All}
use frontstead_kit.Search.Collection.{active, mls, manual}
use frontstead_kit.Search.Indexing.{ListingData, ListingRow, is_public}
use frontstead_kit.Readiness.{
  PublishedConfig, PortalForReadiness, PortalRow, no_filters, CollectionRow, db,
  get_portal_readiness, readiness_gates, matches_portal, is_active_listing,
}
use frontstead_kit.Readiness.Listings.{get_portal_listings}
use frontstead_kit.Readiness.Lawful.{
  IsLawful, get_portal_listings-IsLawful, is_ready, get_portal_readiness-is_ready,
}

abbrev columns : ListingData ℕ
columns = record {
  mls_id = none;
  list_price = some 500_000;
  status = active;
  list_date = none;
  description = none;
  listing_agent_name = none;
  listing_agent_email = none;
  listing_agent_phone = none;
  brokerage_name = none;
  brokerage_phone = none;
  bedrooms = some 3;
  bathrooms = none;
  square_feet = none;
  raw_data = "{}";
  idx_displayable = true;
}

abbrev own : ListingRow ℕ
own = record {
  property_id = "p1";
  source = manual;
  mls_board_id = none;
  listing_key = none;
  slug = some "12-main-st";
  image_url = none;
  columns = columns;
}

abbrev home : PortalRow
home = record {
  id = "p1";
  columns = record {
    address = "12 Main St";
    city = "Austin";
    state = "TX";
    zip_code = "78701";
    latitude = none;
    longitude = none;
    property_type = none;
    bedrooms = none;
    bathrooms = none;
    square_feet = none;
    lot_size = none;
    year_built = none;
    subdivision = none;
  };
  listings = record own { source = mls } ∷ own ∷ [];
  media = "photo" ∷ [];
}

abbrev config : PublishedConfig
config = record {
  mode = db;
  board_ids = [];
  idx_approved = false;
  shows_mock = false;
  search = true;
}

abbrev portal : PortalForReadiness
portal = record {
  agent_email = some "a@b.c";
  brokerage_name = some "Realty";
  brokerage_phone = some "555";
  collections = record { id = "c1"; is_published = true } ∷ [];
}

abbrev in_collection : Bool → CollectionRow → PortalRow → Bool
in_collection exclude_mls c row = true

abbrev contains_text : String → PortalRow → Bool
contains_text q row = false

ready_test :
    (get_portal_readiness none in_collection contains_text config portal
      (home ∷ [])).can_show_listings
    ≡ true
unfolding get_portal_readiness readiness_gates matches_portal is_active_listing is_public
ready_test = refl

get_portal_readiness-is_ready_example :
    (get_portal_readiness none in_collection contains_text config portal
      (home ∷ [])).can_show_listings
    ≡ is_ready none in_collection contains_text config db portal (home ∷ [])
get_portal_readiness-is_ready_example =
    get_portal_readiness-is_ready none in_collection contains_text config portal (home ∷ [])

get_portal_listings-IsLawful_example :
    All
      (IsLawful none in_collection contains_text config portal no_filters (home ∷ []))
      (get_portal_listings none in_collection contains_text config portal no_filters none none
        (home ∷ [])).0
get_portal_listings-IsLawful_example =
    get_portal_listings-IsLawful none in_collection contains_text config portal no_filters none none
      (home ∷ [])
