-- ===== src/Search/Collection.antt =====
-- The predicate of a collection of listings, packages/search/collectionPredicate.ts: compiled to a
-- `where` of the database, and evaluated on a fixture row. Prisma's queries are a parameter, with the
-- meaning that its documentation gives to each of their forms; JavaScript's numbers are a type with
-- its comparison.
pub mod Meaning
pub mod Agreement
pub mod Compiled
mod Examples
pub mod Prices
pub mod Overrides
use frontstead_kit.Prelude.{
  ◌≡◌, String, Bool, true, false, not, ◌&&◌, ◌||◌, Option, none, some, List, [], ◌∷◌, ◌++◌, any,
  all, map, keep, length, ◌==◌, str_eq, if◌then◌else◌,
}

pub data Nulls : Type 0 where
  exclude include only : Nulls

pub record NumericPredicate (Number : Type 0) : Type 0 where
  pub min : Option Number
  pub max : Option Number
  pub nulls : Nulls

-- An absent array is `none`.
pub record CollectionPredicate (Number : Type 0) : Type 0 where
  pub area_slugs : Option (List String)
  pub tags_any : Option (List String)
  pub tags_all : Option (List String)
  pub tags_exclude : Option (List String)
  pub property_types : Option (List String)
  pub price : Option (NumericPredicate Number)
  pub beds : Option (NumericPredicate Number)
  pub baths : Option (NumericPredicate Number)
  pub sqft : Option (NumericPredicate Number)
  pub lot_size : Option (NumericPredicate Number)
  pub year_built : Option (NumericPredicate Number)

pub record CollectionScope : Type 0 where
  pub account_id : String
  pub board_ids : List String
  pub collection_id : Option String
  pub public_visibility : Bool
  pub exclude_mls : Bool

pub data ListingStatus : Type 0 where
  active pending sold withdrawn expired coming_soon : ListingStatus

pub data ListingSource : Type 0 where
  mls manual zillow realtor_com : ListingSource

-- A filter on a nullable number: `null`, or an object with `gte` and `lte`.
pub data Scalar (Number : Type 0) : Type 0 where
  is_null : Scalar Number
  range : Option Number → Option Number → Scalar Number

pub data Field : Type 0 where
  bedrooms bathrooms square_feet lot_size_field year_built_field : Field

-- The object of conditions on a listing; an absent key is `none`.
pub record ListingFields (Number : Type 0) : Type 0 where
  pub status : Option ListingStatus
  pub idx_displayable : Option Bool
  pub mls_board_id : Option (List String)
  pub source_not : Option ListingSource
  pub list_price : Option (Scalar Number)

-- The forms of `Prisma.ListingWhereInput` and `Prisma.PropertyWhereInput` that the source builds.
pub record Query (Number : Type 0) : Type 1 where
  pub ListingWhere : Type 0
  pub PropertyWhere : Type 0
  pub listing : ListingFields Number → ListingWhere
  pub listing_and : List ListingWhere → ListingWhere
  -- { AND: [...] }, { OR: [...] }
  pub all_of : List PropertyWhere → PropertyWhere
  pub one_of : List PropertyWhere → PropertyWhere
  pub scalar : Field → Scalar Number → PropertyWhere
  pub property_type_in : List String → PropertyWhere
  -- areaMemberships: { some }, by account and slugs, decided POSITIVE
  pub areas_some : String → List String → PropertyWhere
  -- classifications: { some }, { none }, by account and slugs, decided POSITIVE
  pub tags_some : String → List String → PropertyWhere
  pub tags_none : String → List String → PropertyWhere
  pub listings_some : ListingWhere → PropertyWhere
  -- collectionOverrides: { some } with INCLUDE, { none } with EXCLUDE
  pub included : String → PropertyWhere
  pub not_excluded : String → PropertyWhere

abbrev pub is_only : Nulls → Bool
is_only only = true
is_only _ = false

abbrev pub is_include : Nulls → Bool
is_include include = true
is_include _ = false

-- `env.MLS_PUBLIC_DISPLAY_ENABLED === 'true'`
abbrev pub is_mls_public_display_enabled : Option String → Bool
is_mls_public_display_enabled none = false
is_mls_public_display_enabled (some v) = str_eq v "true"

abbrev pub slugs_of : Option (List String) → List String
slugs_of none = []
slugs_of (some xs) = xs

-- `boardIds.length ? { mlsBoardId: { in: boardIds } } : {}`
abbrev pub boards_of : List String → Option (List String)
boards_of [] = none
boards_of (b ∷ bs) = some (b ∷ bs)

-- The object `where` of baseListing; `price` is the `additional` condition on the price.
abbrev pub scope_fields :
    {Number : Type 0} → CollectionScope → Option (Scalar Number) → ListingFields Number
scope_fields scope price = record {
  status = none;
  idx_displayable = none;
  mls_board_id = boards_of scope.board_ids;
  source_not = if scope.exclude_mls then some mls else none;
  list_price = price;
}

module _ {Number : Type 0} (Q : Query Number) where
  unfoldable pub scalar_number : Field → NumericPredicate Number → Q.PropertyWhere
  scalar_number field rule = elim rule.nulls [
    | only ↦ Q.scalar field is_null
    | include ↦ Q.one_of (Q.scalar field is_null ∷ Q.scalar field (range rule.min rule.max) ∷ [])
    | exclude ↦ Q.scalar field (range rule.min rule.max)
  ]

  -- `if (rule) predicateAnd.push(scalarNumber(field, rule))`
  abbrev pub push_number : Field → Option (NumericPredicate Number) → List Q.PropertyWhere
  push_number field none = []
  push_number field (some rule) = scalar_number field rule ∷ []

  -- `if (slugs?.length) predicateAnd.push(make(slugs))`
  abbrev pub push_filled :
      Option (List String) → (List String → Q.PropertyWhere) → List Q.PropertyWhere
  push_filled none make = []
  push_filled (some []) make = []
  push_filled (some (x ∷ xs)) make = make (x ∷ xs) ∷ []

  -- predicateAnd, after the pushes.
  unfoldable pub predicate_and : CollectionScope → CollectionPredicate Number → List Q.PropertyWhere
  predicate_and scope p =
      push_filled p.area_slugs (Q.areas_some scope.account_id)
      ++ push_filled p.tags_any (Q.tags_some scope.account_id)
      ++ map (λ tag. Q.tags_some scope.account_id (tag ∷ [])) (slugs_of p.tags_all)
      ++ push_filled p.tags_exclude (Q.tags_none scope.account_id)
      ++ push_filled p.property_types Q.property_type_in
      ++ push_number bedrooms p.beds
      ++ push_number bathrooms p.baths
      ++ push_number square_feet p.sqft
      ++ push_number lot_size_field p.lot_size
      ++ push_number year_built_field p.year_built

  -- buildPublicListingWhere of propertyVisibility.ts; `env` is MLS_PUBLIC_DISPLAY_ENABLED.
  unfoldable pub build_public_listing_where :
      (env : Option String) → ListingFields Number → Q.ListingWhere
  build_public_listing_where env additional = Q.listing_and (
      Q.listing (record {
        status = some active;
        idx_displayable = some true;
        mls_board_id = none;
        source_not = if is_mls_public_display_enabled env then none else some mls;
        list_price = none;
      })
      ∷ Q.listing additional
      ∷ [])

  -- baseListing.
  unfoldable pub base_listing :
      (env : Option String) → CollectionScope → Option (Scalar Number) → Q.ListingWhere
  base_listing env scope price =
      if scope.public_visibility
      then build_public_listing_where env (scope_fields scope price)
      else Q.listing
          (record (scope_fields scope price) { status = some active; idx_displayable = some true })

  unfoldable pub eligibility :
      (env : Option String) → CollectionScope → Option (NumericPredicate Number) → Q.PropertyWhere
  eligibility env scope none = Q.listings_some (base_listing env scope none)
  eligibility env scope (some rule) = elim rule.nulls [
    | only ↦ Q.listings_some (base_listing env scope (some is_null))
    | exclude ↦ Q.listings_some (base_listing env scope (some (range rule.min rule.max)))
    | include ↦ Q.one_of (
        Q.listings_some (base_listing env scope (some is_null))
        ∷ Q.listings_some (base_listing env scope (some (range rule.min rule.max)))
        ∷ [])
  ]

  abbrev pub restrict : Option String → Q.PropertyWhere → List Q.PropertyWhere → Q.PropertyWhere
  restrict none eligible conditions = Q.all_of (eligible ∷ conditions)
  restrict (some collection) eligible [] = Q.all_of (eligible ∷ Q.not_excluded collection ∷ [])
  restrict (some collection) eligible (c ∷ cs) = Q.all_of (
      eligible
      ∷ Q.not_excluded collection
      ∷ Q.one_of (Q.included collection ∷ Q.all_of (c ∷ cs) ∷ [])
      ∷ [])

  -- compileCollectionPredicate, of a parsed predicate.
  unfoldable pub compile_collection_predicate :
      (env : Option String) → CollectionScope → CollectionPredicate Number → Q.PropertyWhere
  compile_collection_predicate env scope p =
      restrict scope.collection_id (eligibility env scope p.price) (predicate_and scope p)

-- PredicateFixtureProperty.
pub record Row (Number : Type 0) : Type 0 where
  pub area_slugs : List String
  pub tags : List String
  pub property_type : Option String
  pub price : Option Number
  pub beds : Option Number
  pub baths : Option Number
  pub sqft : Option Number
  pub lot_size : Option Number
  pub year_built : Option Number

-- `row.includes(v)`
abbrev pub includes : List String → String → Bool
includes xs v = any (λ x. str_eq x v) xs

-- `!wanted?.length || wanted.some(v => row.includes(v))`
abbrev pub some_of : Option (List String) → List String → Bool
some_of none row = true
some_of (some []) row = true
some_of (some (x ∷ xs)) row = any (includes row) (x ∷ xs)

-- `!types?.length || (type != null && types.includes(type))`
abbrev pub type_of : Option (List String) → Option String → Bool
type_of none t = true
type_of (some []) t = true
type_of (some (x ∷ xs)) none = false
type_of (some (x ∷ xs)) (some t) = includes (x ∷ xs) t

module _ {Number : Type 0} (at_most : Number → Number → Bool) where
  abbrev pub above : Option Number → Number → Bool
  above none v = true
  above (some min) v = at_most min v

  abbrev pub below : Option Number → Number → Bool
  below none v = true
  below (some max) v = at_most v max

  unfoldable pub matches_numeric : Option Number → Option (NumericPredicate Number) → Bool
  matches_numeric value none = true
  matches_numeric none (some rule) = is_include rule.nulls || is_only rule.nulls
  matches_numeric (some v) (some rule) =
      if is_only rule.nulls then false else above rule.min v && below rule.max v

  -- evaluateCollectionPredicate, of a parsed predicate.
  unfoldable pub evaluate_collection_predicate : CollectionPredicate Number → Row Number → Bool
  evaluate_collection_predicate p row =
      some_of p.area_slugs row.area_slugs
      && some_of p.tags_any row.tags
      && all (includes row.tags) (slugs_of p.tags_all)
      && not (any (includes row.tags) (slugs_of p.tags_exclude))
      && type_of p.property_types row.property_type
      && matches_numeric row.price p.price
      && matches_numeric row.beds p.beds
      && matches_numeric row.baths p.baths
      && matches_numeric row.sqft p.sqft
      && matches_numeric row.lot_size p.lot_size
      && matches_numeric row.year_built p.year_built
