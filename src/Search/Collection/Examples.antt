-- ===== src/Search/Collection/Examples.antt =====
-- A collection of golf-front listings, on a property with two listings.
use frontstead_kit.Prelude.{◌≡◌, refl, ℕ, leb, true, false, some, none, [], ◌∷◌}
use frontstead_kit.Search.Collection.{
  exclude, CollectionPredicate, CollectionScope, active, pending, manual,
  compile_collection_predicate, evaluate_collection_predicate,
}
use frontstead_kit.Search.Collection.Meaning.{Property, tests, tests_mean}
use frontstead_kit.Search.Collection.Agreement.{IsBounded}
use frontstead_kit.Search.Collection.Compiled.{compile_collection_predicate-eq-evaluate}

abbrev golf : CollectionPredicate ℕ
golf = record {
  area_slugs = none;
  tags_any = some ("golf-front" ∷ []);
  tags_all = none;
  tags_exclude = none;
  property_types = some ("CONDO" ∷ []);
  price = some (record { min = some 100; max = none; nulls = exclude });
  beds = none;
  baths = none;
  sqft = none;
  lot_size = none;
  year_built = none;
}

abbrev golf-IsBounded : IsBounded golf
golf-IsBounded = record {
  price = refl;
  beds = refl;
  baths = refl;
  sqft = refl;
  lot_size = refl;
  year_built = refl;
}

abbrev portal : CollectionScope
portal = record {
  account_id = "a1";
  board_ids = "b1" ∷ [];
  collection_id = none;
  public_visibility = true;
  exclude_mls = false;
}

abbrev collection : CollectionScope
collection = record portal { collection_id = some "c1" }

-- No tag, but a manual INCLUDE.
abbrev condo : Property ℕ
condo = record {
  property_type = some "CONDO";
  numbers = λ f. none;
  areas = [];
  classifications = [];
  overrides = record { collection_id = "c1"; include = true } ∷ [];
  listings =
      record {
        status = pending;
        idx_displayable = true;
        mls_board_id = some "b1";
        source = manual;
        list_price = some 300;
      }
      ∷ record {
        status = active;
        idx_displayable = true;
        mls_board_id = some "b1";
        source = manual;
        list_price = some 200;
      }
      ∷ [];
}

compile_collection_predicate-eq-evaluate_example :
    compile_collection_predicate (tests leb) (some "true") portal golf condo ≡ false
unfolding evaluate_collection_predicate
compile_collection_predicate-eq-evaluate_example =
    compile_collection_predicate-eq-evaluate leb (tests leb) (tests_mean leb) (some "true") portal
      golf condo golf-IsBounded refl
