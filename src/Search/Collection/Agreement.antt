-- ===== src/Search/Collection/Agreement.antt =====
-- The conditions of a compiled predicate beside those of the evaluated one, collectionPredicate.ts.
use frontstead_kit.Prelude.{
  ◌≡◌, refl, ◌∙◌, String, Bool, true, false, not, ◌&&◌, ◌||◌, Option, none, some, List, [], ◌∷◌,
  any, all, map, keep, str_eq, eq_iff, is_some, arith, any_congr, any_swap,
}
use frontstead_kit.Search.Collection.{
  exclude, include, only, NumericPredicate, CollectionPredicate, CollectionScope, is_null, range,
  Field, Query, scalar_number, push_number, push_filled, Row, includes, some_of, type_of,
  matches_numeric, slugs_of, bedrooms, bathrooms, square_feet, lot_size_field, year_built_field,
  is_mls_public_display_enabled, Nulls,
}
use frontstead_kit.Search.Collection.Meaning.{
  Decision, Listing, Property, is_of, is_active, is_mls, Meaning,
}

-- Slugs that the account decided for.
abbrev pub slugs_for : String → List Decision → List String
slugs_for account ds = map (λ d. d.slug) (keep (is_of account) ds)

-- The fixture row that stands for a property, with the price of one of its listings.
abbrev pub row_of : {Number : Type 0} → String → Property Number → Option Number → Row Number
row_of account p price = record {
  area_slugs = slugs_for account p.areas;
  tags = slugs_for account p.classifications;
  property_type = p.property_type;
  price = price;
  beds = p.numbers bedrooms;
  baths = p.numbers bathrooms;
  sqft = p.numbers square_feet;
  lot_size = p.numbers lot_size_field;
  year_built = p.numbers year_built_field;
}

-- A listing that the scope shows: active and displayable, of one of the boards if any are named, and
-- from no MLS where the portal or, for the public, the environment says so.
abbrev pub shows :
    {Number : Type 0} → (env : Option String) → CollectionScope → Listing Number → Bool
shows env scope l =
    is_active l.status
    && l.idx_displayable
    && type_of (some scope.board_ids) l.mls_board_id
    && not (scope.exclude_mls && is_mls l.source)
    && not (scope.public_visibility && not (is_mls_public_display_enabled env) && is_mls l.source)

abbrev pub is_exclude : Nulls → Bool
is_exclude exclude = true
is_exclude _ = false

-- A rule that excludes nulls names a bound.
abbrev pub is_bounded : {Number : Type 0} → Option (NumericPredicate Number) → Bool
is_bounded none = true
is_bounded (some rule) = not (is_exclude rule.nulls) || is_some rule.min || is_some rule.max

pub record IsBounded {Number : Type 0} (p : CollectionPredicate Number) : Type 0 where
  pub price : is_bounded p.price ≡ true
  pub beds : is_bounded p.beds ≡ true
  pub baths : is_bounded p.baths ≡ true
  pub sqft : is_bounded p.sqft ≡ true
  pub lot_size : is_bounded p.lot_size ≡ true
  pub year_built : is_bounded p.year_built ≡ true

str_eq_sym : (a b : String) → str_eq a b ≡ str_eq b a
str_eq_sym a b = ground (arith, eq_iff a b, eq_iff b a)

-- Being one of the wanted slugs, read from the decisions or from the wanted slugs.
any-slugs_for :
    (account : String) (slugs : List String) (ds : List Decision)
    → any (λ d. is_of account d && includes slugs d.slug) ds
      ≡ any (includes slugs) (slugs_for account ds)
any-slugs_for account slugs [] = refl
any-slugs_for account slugs (d ∷ ds) = ground (arith, any-slugs_for account slugs ds)

includes_swap : (xs ys : List String) → any (includes xs) ys ≡ any (includes ys) xs
includes_swap xs ys =
    any_swap (λ y x. str_eq x y) ys xs
    ∙ any_congr (λ x. any (λ y. str_eq x y) ys) (includes ys)
        (λ x. any_congr (λ y. str_eq x y) (λ y. str_eq y x) (λ y. str_eq_sym x y) ys) xs

decisions_agree :
    (account : String) (slugs : List String) (ds : List Decision)
    → any (λ d. is_of account d && includes slugs d.slug) ds
      ≡ any (includes (slugs_for account ds)) slugs
decisions_agree account slugs ds =
    any-slugs_for account slugs ds ∙ includes_swap slugs (slugs_for account ds)

module _ {Number : Type 0} (at_most : Number → Number → Bool) (Q : Query Number)
    (M : Meaning at_most Q) where
  pub rule_agrees :
      (f : Field) (nulls : Nulls) (lo hi : Option Number) (p : Property Number)
      → is_bounded (some (record { min = lo; max = hi; nulls = nulls })) ≡ true
      → M.holds (scalar_number Q f (record { min = lo; max = hi; nulls = nulls })) p
        ≡ matches_numeric at_most
            (p.numbers f)
            (some (record { min = lo; max = hi; nulls = nulls }))
  unfolding scalar_number matches_numeric
  rule_agrees f only lo hi p h = ground (arith, M.of_scalar f is_null p)
  rule_agrees f include lo hi p h = ground (
    arith,
    M.of_one_of (Query.scalar Q f is_null ∷ Query.scalar Q f (range lo hi) ∷ []) p,
    M.of_scalar f is_null p,
    M.of_scalar f (range lo hi) p,
  )
  rule_agrees f exclude lo hi p h = ground (arith, M.of_scalar f (range lo hi) p)

  pub number_agrees :
      (f : Field) (rule : Option (NumericPredicate Number)) (p : Property Number)
      → is_bounded rule ≡ true
      → all (λ w. M.holds w p) (push_number Q f rule) ≡ matches_numeric at_most (p.numbers f) rule
  unfolding matches_numeric
  number_agrees f none p h = refl
  number_agrees f (some rule) p h = ground (arith, rule_agrees f rule.nulls rule.min rule.max p h)

  pub areas_agree :
      (account : String) (slugs : Option (List String)) (p : Property Number)
      → all (λ w. M.holds w p) (push_filled Q slugs (Query.areas_some Q account))
        ≡ some_of slugs (slugs_for account p.areas)
  areas_agree account none p = refl
  areas_agree account (some []) p = refl
  areas_agree account (some (x ∷ xs)) p =
      ground (arith, M.of_areas_some account (x ∷ xs) p, decisions_agree account (x ∷ xs) p.areas)

  pub any_tag_agrees :
      (account : String) (slugs : Option (List String)) (p : Property Number)
      → all (λ w. M.holds w p) (push_filled Q slugs (Query.tags_some Q account))
        ≡ some_of slugs (slugs_for account p.classifications)
  any_tag_agrees account none p = refl
  any_tag_agrees account (some []) p = refl
  any_tag_agrees account (some (x ∷ xs)) p =
      ground (
        arith,
        M.of_tags_some account (x ∷ xs) p,
        decisions_agree account (x ∷ xs) p.classifications,
      )

  pub all_tags_agree :
      (account : String) (tags : List String) (p : Property Number)
      → all (λ w. M.holds w p) (map (λ tag. Query.tags_some Q account (tag ∷ [])) tags)
        ≡ all (includes (slugs_for account p.classifications)) tags
  all_tags_agree account [] p = refl
  all_tags_agree account (t ∷ ts) p = ground (
    arith,
    M.of_tags_some account (t ∷ []) p,
    decisions_agree account (t ∷ []) p.classifications,
    all_tags_agree account ts p,
  )

  pub no_tag_agrees :
      (account : String) (slugs : Option (List String)) (p : Property Number)
      → all (λ w. M.holds w p) (push_filled Q slugs (Query.tags_none Q account))
        ≡ not (any (includes (slugs_for account p.classifications)) (slugs_of slugs))
  no_tag_agrees account none p = refl
  no_tag_agrees account (some []) p = refl
  no_tag_agrees account (some (x ∷ xs)) p =
      ground (
        arith,
        M.of_tags_none account (x ∷ xs) p,
        decisions_agree account (x ∷ xs) p.classifications,
      )

  pub types_agree :
      (types : Option (List String)) (p : Property Number)
      → all (λ w. M.holds w p) (push_filled Q types (Query.property_type_in Q))
        ≡ type_of types p.property_type
  types_agree none p = refl
  types_agree (some []) p = refl
  types_agree (some (x ∷ xs)) p = ground (arith, M.of_property_type_in (x ∷ xs) p)
