-- ===== src/Search/Collection/Compiled.antt =====
-- What a compiled predicate asks of a property, in terms of the evaluated one.
use frontstead_kit.Prelude.{
  ◌≡◌, sym, ap, ◌∙◌, String, Bool, true, not, ◌&&◌, Option, none, ◌∷◌, any, all, arith, any_congr,
  any_and, all-append,
}
use frontstead_kit.Search.Collection.{
  CollectionPredicate, CollectionScope, Query, predicate_and, eligibility,
  compile_collection_predicate, includes, some_of, type_of, matches_numeric,
  evaluate_collection_predicate, slugs_of, bedrooms, bathrooms, square_feet, lot_size_field,
  year_built_field, restrict,
}
use frontstead_kit.Search.Collection.Meaning.{Listing, Property, Meaning}
use frontstead_kit.Search.Collection.Agreement.{
  row_of, shows, IsBounded, number_agrees, areas_agree, any_tag_agrees, all_tags_agree,
  no_tag_agrees, types_agree,
}
use frontstead_kit.Search.Collection.Prices.{offers, eligibility_agrees}

-- The price's test moved to the front.
price_first :
    (s before price r₁ r₂ r₃ r₄ r₅ : Bool)
    → (s && (before && price && r₁ && r₂ && r₃ && r₄ && r₅))
      ≡ ((s && price) && (before && true && r₁ && r₂ && r₃ && r₄ && r₅))
price_first s before price r₁ r₂ r₃ r₄ r₅ = ground arith

module _ {Number : Type 0} (at_most : Number → Number → Bool) (Q : Query Number)
    (M : Meaning at_most Q) where
  -- The conditions that an override can bypass: all but the price's.
  abbrev pub rest_holds : CollectionScope → CollectionPredicate Number → Property Number → Bool
  rest_holds scope p property =
      evaluate_collection_predicate at_most (record p { price = none })
        (row_of scope.account_id property none)

  pub predicate_agrees :
      (scope : CollectionScope) (p : CollectionPredicate Number) (property : Property Number)
      → IsBounded p
      → all (λ w. M.holds w property) (predicate_and Q scope p) ≡ rest_holds scope p property
  unfolding predicate_and evaluate_collection_predicate matches_numeric
  predicate_agrees scope p property h =
      rw
        (
          all-append,
          all-append,
          all-append,
          all-append,
          all-append,
          all-append,
          all-append,
          all-append,
          all-append,
          areas_agree at_most Q M scope.account_id p.area_slugs property,
          any_tag_agrees at_most Q M scope.account_id p.tags_any property,
          all_tags_agree at_most Q M scope.account_id (slugs_of p.tags_all) property,
          no_tag_agrees at_most Q M scope.account_id p.tags_exclude property,
          types_agree at_most Q M p.property_types property,
          number_agrees at_most Q M bedrooms p.beds property h.beds,
          number_agrees at_most Q M bathrooms p.baths property h.baths,
          number_agrees at_most Q M square_feet p.sqft property h.sqft,
          number_agrees at_most Q M lot_size_field p.lot_size property h.lot_size,
          number_agrees at_most Q M year_built_field p.year_built property h.year_built,
        )
        ground arith

  evaluate_at :
      (scope : CollectionScope) (p : CollectionPredicate Number) (property : Property Number)
      (l : Listing Number) (shown : Bool)
      → (shown
          && evaluate_collection_predicate at_most p
              (row_of scope.account_id property l.list_price))
        ≡ ((shown && matches_numeric at_most l.list_price p.price) && rest_holds scope p property)
  unfolding evaluate_collection_predicate matches_numeric
  evaluate_at scope p property l shown =
      let row = row_of scope.account_id property none in
      price_first shown
        (some_of p.area_slugs row.area_slugs
          && some_of p.tags_any row.tags
          && all (includes row.tags) (slugs_of p.tags_all)
          && not (any (includes row.tags) (slugs_of p.tags_exclude))
          && type_of p.property_types row.property_type)
        (matches_numeric at_most l.list_price p.price) (matches_numeric at_most row.beds p.beds)
        (matches_numeric at_most row.baths p.baths) (matches_numeric at_most row.sqft p.sqft)
        (matches_numeric at_most row.lot_size p.lot_size)
        (matches_numeric at_most row.year_built p.year_built)

  -- For a scope without a collection, the compiled predicate holds of a property exactly if one of
  -- its listings that the scope shows satisfies the evaluated predicate, where every rule that
  -- excludes nulls names a bound.
  pub compile_collection_predicate-eq-evaluate :
      (env : Option String) (scope : CollectionScope) (p : CollectionPredicate Number)
      (property : Property Number)
      → IsBounded p
      → scope.collection_id ≡ none
      → M.holds (compile_collection_predicate Q env scope p) property
        ≡ any
            (λ l.
              shows env scope l
              && evaluate_collection_predicate at_most p
                  (row_of scope.account_id property l.list_price))
            property.listings
  unfolding compile_collection_predicate evaluate_collection_predicate
  compile_collection_predicate-eq-evaluate env scope p property h no_collection =
      ap
        (λ c.
          M.holds (restrict Q c (eligibility Q env scope p.price) (predicate_and Q scope p))
            property)
        no_collection
      ∙ M.of_all_of (eligibility Q env scope p.price ∷ predicate_and Q scope p) property
      ∙ rw
          (
            eligibility_agrees at_most Q M env scope p.price property h.price,
            predicate_agrees scope p property h,
          )
          (sym (
            any_congr
              (λ l.
                shows env scope l
                && evaluate_collection_predicate at_most p
                    (row_of scope.account_id property l.list_price))
              (λ l. offers at_most Q M env scope p.price l && rest_holds scope p property)
              (λ l. evaluate_at scope p property l (shows env scope l)) property.listings
            ∙ any_and (offers at_most Q M env scope p.price) (rest_holds scope p property)
                property.listings))
