-- ===== src/Search/Collection/Overrides.antt =====
-- The compiled predicate of a collection with its manual overrides.
use frontstead_kit.Prelude.{
  ◌≡◌, refl, ap, ◌∙◌, String, Bool, true, false, not, ◌&&◌, ◌||◌, Option, none, some, List, [], ◌∷◌,
  any, all, str_eq, arith,
}
use frontstead_kit.Search.Collection.{
  exclude, Field, scalar_number, CollectionPredicate, CollectionScope, range, Query, predicate_and,
  eligibility, compile_collection_predicate, matches_numeric, restrict,
}
use frontstead_kit.Search.Collection.Meaning.{Property, Meaning}
use frontstead_kit.Search.Collection.Agreement.{IsBounded}
use frontstead_kit.Search.Collection.Prices.{offers, eligibility_agrees}
use frontstead_kit.Search.Collection.Compiled.{predicate_agrees, rest_holds}

veto_first :
    (eligible kept included : Bool)
    → (eligible && (kept && true)) ≡ (eligible && kept && (included || true))
veto_first eligible kept included = ground arith

override_first :
    (eligible kept included rest : Bool)
    → (eligible && (kept && ((included || (rest || false)) && true)))
      ≡ (eligible && kept && (included || rest))
override_first eligible kept included rest = ground arith

module _ {Number : Type 0} (at_most : Number → Number → Bool) (Q : Query Number)
    (M : Meaning at_most Q) where
  restricted :
      (collection : String) (eligible : Query.PropertyWhere Q) (ws : List (Query.PropertyWhere Q))
      (property : Property Number)
      → M.holds (restrict Q (some collection) eligible ws) property ≡ (
          M.holds eligible property
          && not (any (λ o. not o.include && str_eq o.collection_id collection) property.overrides)
          && (any (λ o. o.include && str_eq o.collection_id collection) property.overrides
              || all (λ w. M.holds w property) ws))
  restricted collection eligible [] property =
      M.of_all_of (eligible ∷ Query.not_excluded Q collection ∷ []) property
      ∙ rw (M.of_not_excluded collection property) (
          veto_first (M.holds eligible property)
            (not (any (λ o. not o.include && str_eq o.collection_id collection) property.overrides))
            (any (λ o. o.include && str_eq o.collection_id collection) property.overrides))
  restricted collection eligible (w ∷ ws) property =
      let either = Query.included Q collection ∷ Query.all_of Q (w ∷ ws) ∷ [] in
      M.of_all_of (eligible ∷ Query.not_excluded Q collection ∷ Query.one_of Q either ∷ []) property
      ∙ rw
          (
            M.of_not_excluded collection property,
            M.of_one_of either property,
            M.of_included collection property,
            M.of_all_of (w ∷ ws) property,
          )
          (override_first (M.holds eligible property)
            (not (any (λ o. not o.include && str_eq o.collection_id collection) property.overrides))
            (any (λ o. o.include && str_eq o.collection_id collection) property.overrides)
            (all (λ v. M.holds v property) (w ∷ ws)))

  -- For the scope of a collection, the compiled predicate holds of a property exactly if the scope
  -- shows a listing of it at a price that the rule admits, no override excludes it, and an override
  -- includes it or it satisfies the rest of the evaluated predicate, where every rule that excludes
  -- nulls names a bound.
  pub compile_collection_predicate_overrides :
      (env : Option String) (scope : CollectionScope) (collection : String)
      (p : CollectionPredicate Number) (property : Property Number)
      → IsBounded p
      → scope.collection_id ≡ some collection
      → M.holds (compile_collection_predicate Q env scope p) property ≡ (
          any (offers at_most Q M env scope p.price) property.listings
          && not (any (λ o. not o.include && str_eq o.collection_id collection) property.overrides)
          && (any (λ o. o.include && str_eq o.collection_id collection) property.overrides
              || rest_holds at_most Q M scope p property))
  unfolding compile_collection_predicate
  compile_collection_predicate_overrides env scope collection p property h is_collection =
      ap
        (λ c.
          M.holds (restrict Q c (eligibility Q env scope p.price) (predicate_and Q scope p))
            property)
        is_collection
      ∙ restricted collection (eligibility Q env scope p.price) (predicate_and Q scope p) property
      ∙ rw
          (
            eligibility_agrees at_most Q M env scope p.price property h.price,
            predicate_agrees at_most Q M scope p property h,
          )
          refl

  -- A rule that excludes nulls and names no bound: compiled it holds of a property whose column is
  -- null, evaluated it does not.
  pub unbounded_exclude_diverges :
      (f : Field) (property : Property Number)
      → property.numbers f ≡ none
      → (M.holds (scalar_number Q f (record { min = none; max = none; nulls = exclude })) property
          ≡ true)
        × (matches_numeric at_most
              (property.numbers f)
              (some (record { min = none; max = none; nulls = exclude }))
            ≡ false)
  unfolding scalar_number matches_numeric
  unbounded_exclude_diverges f property h =
      (ground (arith, M.of_scalar f (range none none) property), rw h refl)
