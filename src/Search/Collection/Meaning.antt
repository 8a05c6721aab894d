-- ===== src/Search/Collection/Meaning.antt =====
-- The rows that a compiled predicate is asked of, with the columns of `Property`, `Listing`,
-- `PropertyAreaMembership`, `PropertyClassification` and `CollectionManualOverride` in
-- packages/db/prisma/schema.prisma, and what Prisma documents of each form of a query: `AND`, `OR`,
-- `some`, `none`, `in`, `not`, `gte` and `lte`, and that a comparison never holds of a null.
use frontstead_kit.Prelude.{
  ◌≡◌, refl, ℕ, String, Bool, true, false, not, ◌&&◌, Option, none, some, List, any, all, str_eq,
  ◌==◌, if◌then◌else◌,
}
use frontstead_kit.Search.Collection.{
  ListingStatus, active, pending, sold, withdrawn, expired, coming_soon, ListingSource, mls, manual,
  zillow, realtor_com, Scalar, is_null, range, Field, ListingFields, Query, includes, below,
}

-- A decision of an account on an area or a tag; a row that is not POSITIVE counts for nothing.
pub record Decision : Type 0 where
  pub account_id : String
  pub slug : String
  pub positive : Bool

-- A manual decision on a collection: INCLUDE, or else EXCLUDE.
pub record Override : Type 0 where
  pub collection_id : String
  pub include : Bool

pub record Listing (Number : Type 0) : Type 0 where
  pub status : ListingStatus
  pub idx_displayable : Bool
  pub mls_board_id : Option String
  pub source : ListingSource
  pub list_price : Option Number

pub record Property (Number : Type 0) : Type 0 where
  pub property_type : Option String
  pub numbers : Field → Option Number
  pub areas : List Decision
  pub classifications : List Decision
  pub overrides : List Override
  pub listings : List (Listing Number)

abbrev pub status_code : ListingStatus → ℕ
status_code active = 0
status_code pending = 1
status_code sold = 2
status_code withdrawn = 3
status_code expired = 4
status_code coming_soon = 5

abbrev pub is_active : ListingStatus → Bool
is_active active = true
is_active _ = false

abbrev pub is_mls : ListingSource → Bool
is_mls mls = true
is_mls _ = false

abbrev pub source_code : ListingSource → ℕ
source_code mls = 0
source_code manual = 1
source_code zillow = 2
source_code realtor_com = 3

-- A condition under a key that may be absent.
abbrev pub when_given {ℓ} : {A : Type ℓ} → Option A → (A → Bool) → Bool
when_given none test = true
when_given (some a) test = test a

-- A test of a column that may be null.
abbrev pub not_null {ℓ} : {A : Type ℓ} → Option A → (A → Bool) → Bool
not_null none test = false
not_null (some a) test = test a

-- A decision of the account for one of the slugs.
abbrev pub is_of : String → Decision → Bool
is_of account d = d.positive && str_eq d.account_id account

module _ {Number : Type 0} (at_most : Number → Number → Bool) where
  -- An empty object is no condition; a comparison is false of a null.
  abbrev pub scalar_holds : Scalar Number → Option Number → Bool
  scalar_holds is_null none = true
  scalar_holds is_null (some v) = false
  scalar_holds (range none none) value = true
  scalar_holds (range (some min) max) none = false
  scalar_holds (range none (some max)) none = false
  scalar_holds (range (some min) max) (some v) = at_most min v && below at_most max v
  scalar_holds (range none (some max)) (some v) = at_most v max

  abbrev pub fields_hold : ListingFields Number → Listing Number → Bool
  fields_hold f l =
      when_given f.status (λ s. status_code l.status == status_code s)
      && when_given f.idx_displayable (λ b. if b then l.idx_displayable else not l.idx_displayable)
      && when_given f.mls_board_id (λ boards. not_null l.mls_board_id (includes boards))
      && when_given f.source_not (λ s. not (source_code l.source == source_code s))
      && when_given f.list_price (λ c. scalar_holds c l.list_price)

  pub record Meaning (Q : Query Number) : Type 0 where
    pub listing_holds : Query.ListingWhere Q → Listing Number → Bool
    pub holds : Query.PropertyWhere Q → Property Number → Bool
    pub of_listing :
        (f : ListingFields Number) (l : Listing Number)
        → listing_holds (Query.listing Q f) l ≡ fields_hold f l
    pub of_listing_and :
        (ws : List (Query.ListingWhere Q)) (l : Listing Number)
        → listing_holds (Query.listing_and Q ws) l ≡ all (λ w. listing_holds w l) ws
    pub of_all_of :
        (ws : List (Query.PropertyWhere Q)) (p : Property Number)
        → holds (Query.all_of Q ws) p ≡ all (λ w. holds w p) ws
    pub of_one_of :
        (ws : List (Query.PropertyWhere Q)) (p : Property Number)
        → holds (Query.one_of Q ws) p ≡ any (λ w. holds w p) ws
    pub of_scalar :
        (f : Field) (c : Scalar Number) (p : Property Number)
        → holds (Query.scalar Q f c) p ≡ scalar_holds c (p.numbers f)
    pub of_property_type_in :
        (types : List String) (p : Property Number)
        → holds (Query.property_type_in Q types) p ≡ not_null p.property_type (includes types)
    pub of_areas_some :
        (account : String) (slugs : List String) (p : Property Number)
        → holds (Query.areas_some Q account slugs) p
          ≡ any (λ d. is_of account d && includes slugs d.slug) p.areas
    pub of_tags_some :
        (account : String) (slugs : List String) (p : Property Number)
        → holds (Query.tags_some Q account slugs) p
          ≡ any (λ d. is_of account d && includes slugs d.slug) p.classifications
    pub of_tags_none :
        (account : String) (slugs : List String) (p : Property Number)
        → holds (Query.tags_none Q account slugs) p
          ≡ not (any (λ d. is_of account d && includes slugs d.slug) p.classifications)
    pub of_listings_some :
        (w : Query.ListingWhere Q) (p : Property Number)
        → holds (Query.listings_some Q w) p ≡ any (listing_holds w) p.listings
    pub of_included :
        (collection : String) (p : Property Number)
        → holds (Query.included Q collection) p
          ≡ any (λ o. o.include && str_eq o.collection_id collection) p.overrides
    pub of_not_excluded :
        (collection : String) (p : Property Number)
        → holds (Query.not_excluded Q collection) p
          ≡ not (any (λ o. not o.include && str_eq o.collection_id collection) p.overrides)

-- The queries as Boolean functions, which have this meaning.
abbrev pub tests : {Number : Type 0} → (Number → Number → Bool) → Query Number
tests {Number} at_most = record {
  ListingWhere = Listing Number → Bool;
  PropertyWhere = Property Number → Bool;
  listing = fields_hold at_most;
  listing_and = λ ws l. all (λ w. w l) ws;
  all_of = λ ws p. all (λ w. w p) ws;
  one_of = λ ws p. any (λ w. w p) ws;
  scalar = λ f c p. scalar_holds at_most c (p.numbers f);
  property_type_in = λ types p. not_null p.property_type (includes types);
  areas_some = λ account slugs p. any (λ d. is_of account d && includes slugs d.slug) p.areas;
  tags_some =
      λ account slugs p. any (λ d. is_of account d && includes slugs d.slug) p.classifications;
  tags_none = λ account slugs p.
      not (any (λ d. is_of account d && includes slugs d.slug) p.classifications);
  listings_some = λ w p. any w p.listings;
  included = λ collection p. any (λ o. o.include && str_eq o.collection_id collection) p.overrides;
  not_excluded = λ collection p.
      not (any (λ o. not o.include && str_eq o.collection_id collection) p.overrides);
}

abbrev pub tests_mean :
    {Number : Type 0} (at_most : Number → Number → Bool) → Meaning at_most (tests at_most)
tests_mean at_most = record {
  listing_holds = λ w. w;
  holds = λ w. w;
  of_listing = λ f l. refl;
  of_listing_and = λ ws l. refl;
  of_all_of = λ ws p. refl;
  of_one_of = λ ws p. refl;
  of_scalar = λ f c p. refl;
  of_property_type_in = λ types p. refl;
  of_areas_some = λ account slugs p. refl;
  of_tags_some = λ account slugs p. refl;
  of_tags_none = λ account slugs p. refl;
  of_listings_some = λ w p. refl;
  of_included = λ collection p. refl;
  of_not_excluded = λ collection p. refl;
}
