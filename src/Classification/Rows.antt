-- ===== src/Classification/Rows.antt =====
-- The rows of a classification, classifyForAccount of packages/db/classification.ts, for one account:
-- its areas' memberships and its tags, each a table by property and by area or tag. `classify_rows` is
-- the loop that both have.
use frontstead_kit.Prelude.{
  ℕ, String, Bool, true, false, not, ◌&&◌, ◌||◌, any, Option, none, some, List, [], ◌∷◌, str_eq,
  if◌then◌else◌,
}
use frontstead_kit.Db.{Table}
use frontstead_kit.Classification.{ClassifierExpression, ClassifierProperty, Comparison, matched}

pub data Decision : Type 0 where
  positive negative : Decision

pub data Source : Type 0 where
  ingestion reclassification : Source

-- `confidence` is `none` where a definition gives none, which the code reads as 1.
pub record Classified : Type 0 where
  pub decision : Decision
  pub source : Source
  pub confidence : Option ℕ
  pub classifier_version : String
  pub config_hash : String
  pub manual_override : Bool

pub record Definition (Number : Type 0) : Type 0 where
  pub slug : String
  pub classifier : ClassifierExpression Number
  pub confidence : Option ℕ

abbrev pub decision_of : Bool → Decision
decision_of true = positive
decision_of false = negative

module _ {Number : Type 0} (C : Comparison Number) (T : Table Classified) (source : Source)
    (version hash : String) where
  abbrev pub row_of : ClassifierProperty Number → Definition Number → Classified
  row_of p d = record {
    decision = decision_of (matched C p d.classifier);
    source = source;
    confidence = d.confidence;
    classifier_version = version;
    config_hash = hash;
    manual_override = false;
  }

  -- The `upsert`, whose update leaves the override alone.
  abbrev pub upsert_row : T.State → String → Option Classified → Classified → T.State
  upsert_row s slug none row = T.put s slug row
  upsert_row s slug (some old) row =
      T.put s slug (record row { manual_override = old.manual_override })

  abbrev pub is_overridden : Option Classified → Bool
  is_overridden none = false
  is_overridden (some row) = row.manual_override

  -- The loop over the areas, or over the definitions.
  unfoldable pub classify_rows :
      ClassifierProperty Number → List (Definition Number) → T.State → T.State
  classify_rows p [] s = s
  classify_rows p (d ∷ ds) s =
      let existing = T.find s d.slug in
      let kept = classify_rows p ds s in
      let written = classify_rows p ds (upsert_row s d.slug existing (row_of p d)) in
      if is_overridden existing then kept else written

module _ (T : Table Classified) (version hash : String) where
  abbrev pub is_stale_row : Option Classified → Bool
  is_stale_row none = true
  is_stale_row (some row) =
      not row.manual_override
      && (not (str_eq row.config_hash hash) || not (str_eq row.classifier_version version))

  -- `stale` of runClassification: some definition has no row, or one of another configuration.
  abbrev pub is_stale_property : {Number : Type 0} → List (Definition Number) → T.State → Bool
  is_stale_property ds s = any (λ d. is_stale_row (T.find s d.slug)) ds
