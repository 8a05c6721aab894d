-- ===== src/Classification/Kept.antt =====
-- What a classification decides, and what it leaves alone.
use frontstead_kit.Prelude.{
  String, true, false, Option, none, some, List, [], ◌∷◌, ◌≡◌, refl, ◌∙◌, sym, ap, inl, inr, str_eq,
  eq_iff, if◌then◌else◌, arith, Bool-cases,
}
use frontstead_kit.Db.{Table}
use frontstead_kit.Classification.{ClassifierProperty, Comparison}
use frontstead_kit.Classification.Rows.{
  Source, Classified, Definition, row_of, upsert_row, is_overridden, classify_rows,
}

module _ {Number : Type 0} (C : Comparison Number) (T : Table Classified) (source : Source)
    (version hash : String) (p : ClassifierProperty Number) where
  -- The row that the last definition of a slug leaves, over the row that was there.
  abbrev pub classified : List (Definition Number) → String → Option Classified → Option Classified
  classified [] slug old = old
  classified (d ∷ ds) slug old =
      if str_eq d.slug slug
      then classified ds slug (some (row_of C T source version hash p d))
      else classified ds slug old

  abbrev pub outcome : List (Definition Number) → String → Option Classified → Option Classified
  outcome ds slug old =
      if is_overridden C T source version hash old then old else classified ds slug old

  abbrev write : Definition Number → T.State → T.State
  write d s =
      upsert_row C T source version hash s d.slug (T.find s d.slug)
        (row_of C T source version hash p d)

  written :
      (d : Definition Number) (s : T.State) (slug : String) (o : Option Classified)
      → T.find s d.slug ≡ o
      → is_overridden C T source version hash o ≡ false
      → T.find (write d s) slug
        ≡ (if str_eq d.slug slug then some (row_of C T source version hash p d) else T.find s slug)
  written d s slug none e free =
      rw e (T.find-put s d.slug slug (row_of C T source version hash p d))
  written d s slug (some old) e free =
      rw (e, free) (T.find-put s d.slug slug (row_of C T source version hash p d))

  overridden_step :
      (d : Definition Number) (ds : List (Definition Number)) (s : T.State) (slug : String)
      → is_overridden C T source version hash (T.find s d.slug) ≡ true
      → outcome ds slug (T.find s slug) ≡ outcome (d ∷ ds) slug (T.find s slug)
  overridden_step d ds s slug fixed = elim (Bool-cases (str_eq d.slug slug)) [
    | inl same ↦ rw (sym ((eq_iff d.slug slug).0 same), fixed) refl
    | inr differs ↦ rw differs refl
  ]

  written_step :
      (d : Definition Number) (ds : List (Definition Number)) (s : T.State) (slug : String)
      → is_overridden C T source version hash (T.find s d.slug) ≡ false
      → outcome ds slug
          (if str_eq d.slug slug then some (row_of C T source version hash p d) else T.find s slug)
        ≡ outcome (d ∷ ds) slug (T.find s slug)
  written_step d ds s slug free = elim (Bool-cases (str_eq d.slug slug)) [
    | inl same ↦
        rw
          (
            same,
            ap (λ k. is_overridden C T source version hash (T.find s k))
                  (sym ((eq_iff d.slug slug).0 same))
                ∙ free,
          )
          refl
    | inr differs ↦ rw differs refl
  ]

  -- A classification leaves every row with a manual override as it was. Any other row is decided by
  -- the last definition of its slug, and stays as it was where no definition has its slug.
  pub classify_rows-eq-outcome :
      (ds : List (Definition Number)) (s : T.State) (slug : String)
      → T.find (classify_rows C T source version hash p ds s) slug ≡ outcome ds slug (T.find s slug)
  unfolding classify_rows
  classify_rows-eq-outcome [] s slug = ground arith
  classify_rows-eq-outcome (d ∷ ds) s slug =
      elim (Bool-cases (is_overridden C T source version hash (T.find s d.slug))) [
        | inl fixed ↦
            rw (classify_rows, fixed)
              (classify_rows-eq-outcome ds s slug ∙ overridden_step d ds s slug fixed)
        | inr free ↦
            rw (classify_rows, free)
              (classify_rows-eq-outcome ds (write d s) slug
                ∙ ap (outcome ds slug) (written d s slug (T.find s d.slug) refl free)
                ∙ written_step d ds s slug free)
      ]
