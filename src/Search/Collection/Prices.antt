-- ===== src/Search/Collection/Prices.antt =====
-- The eligibility of a compiled predicate: a listing that the scope shows, at a price that the rule
-- admits.
use frontstead_kit.Prelude.{
  ◌≡◌, refl, ◌∙◌, String, Bool, true, false, ◌&&◌, ◌||◌, Option, none, some, List, [], ◌∷◌, any,
  if◌then◌else◌, arith, any_congr,
}
use frontstead_kit.Search.Collection.{
  exclude, include, only, Nulls, NumericPredicate, CollectionScope, Scalar, is_null, range, Query,
  base_listing, build_public_listing_where, eligibility, includes, type_of, matches_numeric,
  is_mls_public_display_enabled, scope_fields, boards_of, active, ListingFields, mls,
}
use frontstead_kit.Search.Collection.Meaning.{
  Listing, Property, scalar_holds, Meaning, when_given, not_null,
}
use frontstead_kit.Search.Collection.Agreement.{shows, is_bounded}

boards_agree :
    (boards : List String) (board : Option String)
    → when_given (boards_of boards) (λ bs. not_null board (includes bs))
      ≡ type_of (some boards) board
boards_agree [] board = refl
boards_agree (b ∷ bs) none = refl
boards_agree (b ∷ bs) (some id) = refl

distribute :
    (s n r a b : Bool)
    → (((s && n) || a) || (((s && r) || b) || false)) ≡ ((s && (n || r)) || (a || (b || false)))
distribute s n r a b = ground arith

abbrev baseline : {Number : Type 0} → Option String → ListingFields Number
baseline env = record {
  status = some active;
  idx_displayable = some true;
  mls_board_id = none;
  source_not = if is_mls_public_display_enabled env then none else some mls;
  list_price = none;
}

module _ {Number : Type 0} (at_most : Number → Number → Bool) (Q : Query Number)
    (M : Meaning at_most Q) where
  listing_agrees :
      (env : Option String) (scope : CollectionScope) (price : Option (Scalar Number))
      (l : Listing Number)
      → M.listing_holds (base_listing Q env scope price) l
        ≡ (shows env scope l && when_given price (λ c. scalar_holds at_most c l.list_price))
  unfolding base_listing build_public_listing_where
  listing_agrees env scope price l = ground (
    arith,
    boards_agree scope.board_ids l.mls_board_id,
    M.of_listing
        (record (scope_fields scope price) { status = some active; idx_displayable = some true }) l,
    M.of_listing (scope_fields scope price) l,
    M.of_listing (baseline env) l,
    M.of_listing_and
        (Query.listing Q (baseline env) ∷ Query.listing Q (scope_fields scope price) ∷ []) l,
  )

  -- A listing that the scope shows, under a condition on its price.
  abbrev priced : Option String → CollectionScope → Option (Scalar Number) → Listing Number → Bool
  priced env scope price l =
      shows env scope l && when_given price (λ c. scalar_holds at_most c l.list_price)

  some_listing :
      (env : Option String) (scope : CollectionScope) (price : Option (Scalar Number))
      (property : Property Number)
      → M.holds (Query.listings_some Q (base_listing Q env scope price)) property
        ≡ any (priced env scope price) property.listings
  some_listing env scope price property =
      M.of_listings_some (base_listing Q env scope price) property
      ∙ any_congr (M.listing_holds (base_listing Q env scope price)) (priced env scope price)
          (listing_agrees env scope price) property.listings

  -- A listing that the scope shows, at a price that the rule admits.
  abbrev pub offers :
      Option String → CollectionScope → Option (NumericPredicate Number) → Listing Number → Bool
  offers env scope rule l = shows env scope l && matches_numeric at_most l.list_price rule

  null_or_range :
      (lo hi v : Option Number)
      → (scalar_holds at_most is_null v || scalar_holds at_most (range lo hi) v)
        ≡ matches_numeric at_most v (some (record { min = lo; max = hi; nulls = include }))
  unfolding matches_numeric
  null_or_range lo hi v = ground arith

  one_or_other :
      (env : Option String) (scope : CollectionScope) (lo hi : Option Number)
      (ls : List (Listing Number))
      → (any (priced env scope (some is_null)) ls
          || (any (priced env scope (some (range lo hi))) ls || false))
        ≡ any (offers env scope (some (record { min = lo; max = hi; nulls = include }))) ls
  one_or_other env scope lo hi [] = refl
  one_or_other env scope lo hi (l ∷ ls) =
      rw (← one_or_other env scope lo hi ls, ← null_or_range lo hi l.list_price)
        (distribute (shows env scope l) (scalar_holds at_most is_null l.list_price)
          (scalar_holds at_most (range lo hi) l.list_price)
          (any (priced env scope (some is_null)) ls)
          (any (priced env scope (some (range lo hi))) ls))

  price_agrees :
      (env : Option String) (scope : CollectionScope) (nulls : Nulls) (lo hi : Option Number)
      (property : Property Number)
      → is_bounded (some (record { min = lo; max = hi; nulls = nulls })) ≡ true
      → M.holds
          (eligibility Q env scope (some (record { min = lo; max = hi; nulls = nulls })))
          property
        ≡ any
            (offers env scope (some (record { min = lo; max = hi; nulls = nulls })))
            property.listings
  unfolding eligibility matches_numeric
  price_agrees env scope only lo hi property h =
      some_listing env scope (some is_null) property
      ∙ any_congr _ _ (λ l. ground arith) property.listings
  price_agrees env scope exclude lo hi property h =
      some_listing env scope (some (range lo hi)) property
      ∙ any_congr _ _ (λ l. ground arith) property.listings
  price_agrees env scope include lo hi property h =
      M.of_one_of
        (Query.listings_some Q (base_listing Q env scope (some is_null))
          ∷ Query.listings_some Q (base_listing Q env scope (some (range lo hi)))
          ∷ [])
        property
      ∙ rw
          (
            some_listing env scope (some is_null) property,
            some_listing env scope (some (range lo hi)) property,
          )
          (one_or_other env scope lo hi property.listings)

  pub eligibility_agrees :
      (env : Option String) (scope : CollectionScope) (rule : Option (NumericPredicate Number))
      (property : Property Number)
      → is_bounded rule ≡ true
      → M.holds (eligibility Q env scope rule) property
        ≡ any (offers env scope rule) property.listings
  unfolding eligibility matches_numeric
  eligibility_agrees env scope none property h = some_listing env scope none property
  eligibility_agrees env scope (some rule) property h =
      price_agrees env scope rule.nulls rule.min rule.max property h
