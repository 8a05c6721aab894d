-- ===== src/Classification/Examples.antt =====
-- Two properties, one of whose tags is set by hand.
use frontstead_kit.Prelude.{
  ℕ, ◌≡◌, ◌≢◌, refl, String, true, false, none, some, List, [], ◌∷◌, str_eq, eq_iff, arith,
  if◌then◌else◌,
}
use frontstead_kit.Db.{Table, finite_map}
use frontstead_kit.Classification.{undefined, Comparison, ClassifierProperty, place}
use frontstead_kit.Classification.Rows.{Classified, negative, ingestion, Definition, classify_rows}
use frontstead_kit.Classification.Kept.{classify_rows-eq-outcome}
use frontstead_kit.Classification.Runs.{
  Fault, sound, at_definition, PropertyInput, apply, Tables, new_progress, classify_page, run_pages,
}
use frontstead_kit.Classification.Paged.{close, IsDistinct, run_pages-eq-classify_page}

abbrev comparison : Comparison ℕ
comparison = record {
  same = λ v s. true;
  is_near = λ a b c d e. false;
  in_polygon = λ a b ps. false;
}

abbrev T : Table Classified
T = finite_map Classified

abbrev home : ClassifierProperty ℕ
home = record {
  latitude = none;
  longitude = none;
  city = "Austin";
  zip_code = "78701";
  subdivision = none;
  attributes = λ field. undefined;
}

abbrev downtown : Definition ℕ
downtown = record { slug = "downtown"; classifier = place ("Austin" ∷ []) [] []; confidence = none }

abbrev by_hand : Classified
by_hand = record {
  decision = negative;
  source = ingestion;
  confidence = none;
  classifier_version = "1";
  config_hash = "h";
  manual_override = true;
}

abbrev tags : T.State
tags slug = if str_eq "downtown" slug then some by_hand else none

classify_rows-eq-outcome_example :
    T.find (classify_rows comparison T ingestion "1" "h" home (downtown ∷ []) tags) "downtown"
    ≡ some by_hand
classify_rows-eq-outcome_example =
    classify_rows-eq-outcome comparison T ingestion "1" "h" home (downtown ∷ []) tags "downtown"

abbrev tables : Tables T.State
tables = record { memberships = λ id slug. none; tags = λ id. tags }

abbrev rows : List (PropertyInput ℕ)
rows = record { id = "p1"; input = home } ∷ record { id = "p2"; input = home } ∷ []

abbrev first_id : String
first_id = "p1"

other : first_id ≢ "p2"
other e = ground (arith, (eq_iff first_id "p2").1 e)

-- The tag of the second property cannot be written.
abbrev faults : String → Fault
faults id = if str_eq id "p2" then at_definition 0 else sound

rows-IsDistinct : IsDistinct rows
rows-IsDistinct = ((other, tt), (tt, tt))

run_pages-eq-classify_page_example :
    run_pages comparison T "1" "h" []
      (downtown ∷ [])
      apply
      faults
      (some 1)
      rows
      3
      (new_progress tables)
    ≡ close comparison T "1" "h" [] (downtown ∷ []) apply faults (some 1) rows (
        classify_page comparison T "1" "h" []
          (downtown ∷ [])
          apply
          faults
          rows
          (new_progress tables))
run_pages-eq-classify_page_example =
    run_pages-eq-classify_page comparison T "1" "h" [] (downtown ∷ []) apply faults (some 1) rows 3
      0 tables rows-IsDistinct refl (omega arith)
