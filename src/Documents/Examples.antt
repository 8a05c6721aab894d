-- ===== src/Documents/Examples.antt =====
-- Concrete operations on document slots.
use frontstead_kit.Prelude.{
  ◌≡◌, refl, String, Option, none, some, arith, str_eq, if◌then◌else◌, codes, Bool,
}
use frontstead_kit.Db.{Table, finite_map}
use frontstead_kit.Documents.{
  Document, Result, ok, err, match_document, verify_document, add_custom_document, custom_slot,
  rematch, clear, verified,
}
use frontstead_kit.Documents.Invariant.{
  IsConsistent, matches, adds, verifies, Reach, here, next, Reach-IsConsistent,
}
use frontstead_kit.Documents.Exclusive.{Holds, IsRelation, IsExclusive, match_document-IsExclusive}

abbrev T : Table Document
T = finite_map Document

abbrev access : String → String → Bool
access agent transaction = str_eq agent "ann"

abbrev attachment_of : String → Option (Option String)
attachment_of a = if str_eq a "att" then some (some "t1") else none

-- Only the slot "d1" exists in these runs.
abbrev matched_document : Table.State T → String → Option String
matched_document s a = elim (s "d1") [
  | none ↦ none
  | some d ↦ elim d.matched_attachment_id [
    | none ↦ none
    | some b ↦ if str_eq b a then some "d1" else none
  ]
]

abbrev other_slot : Table.State T → String → String → String → Option String
other_slot s transaction a except = none

abbrev no_rows : Table.State T
no_rows j = none

abbrev the : Table.State T → Result (Table.State T) → Table.State T
the s (ok s') = s'
the s (err status message) = s

abbrev added : Table.State T
added = the no_rows (
    add_custom_document T access attachment_of matched_document other_slot "ann" "t1"
      (some (codes "Survey")) none "d1" no_rows)

abbrev filled : Table.State T
filled = the added (
    match_document T access attachment_of matched_document other_slot "ann" "t1" "d1" "att" 7 added)

abbrev checked : Table.State T
checked =
    the filled
      (verify_document T access attachment_of matched_document other_slot "ann" "t1" "d1" filled)

adding :
    add_custom_document T access attachment_of matched_document other_slot "ann" "t1"
      (some (codes "Survey"))
      none
      "d1"
      no_rows
    ≡ ok added
unfolding add_custom_document
adding = refl

matching :
    match_document T access attachment_of matched_document other_slot "ann" "t1" "d1" "att" 7 added
    ≡ ok filled
unfolding match_document add_custom_document custom_slot rematch clear
matching = refl

verifying :
    verify_document T access attachment_of matched_document other_slot "ann" "t1" "d1" filled
    ≡ ok checked
unfolding verify_document match_document add_custom_document custom_slot rematch clear
verifying = refl

trace : Reach T access attachment_of matched_document other_slot no_rows checked
trace =
    next
      (next (next here (adds "ann" "t1" (some (codes "Survey")) none "d1" adding))
        (matches "ann" "t1" "d1" "att" 7 matching))
      (verifies "ann" "t1" "d1" verifying)

abbrev verified_slot : Document
verified_slot = record {
  transaction_id = "t1";
  document_definition_id = none;
  label = codes "Survey";
  notes = none;
  status = verified;
  matched_attachment_id = some "att";
  matched_at = some 7;
  drive_file_id = none;
  drive_web_link = none;
}

last_row : Table.find T checked "d1" ≡ some verified_slot
unfolding verify_document match_document add_custom_document custom_slot rematch clear
last_row = refl

Reach-IsConsistent_example : IsConsistent verified_slot
Reach-IsConsistent_example =
    Reach-IsConsistent T access attachment_of matched_document other_slot (λ j d e. cc) trace "d1"
      verified_slot last_row

added-empty :
    (j a : String) → Holds T access attachment_of matched_document other_slot added j a → ⊥
unfolding add_custom_document custom_slot
added-empty j a (d, found, held) = ground arith

added-IsRelation : IsRelation T access attachment_of matched_document other_slot added
unfolding add_custom_document custom_slot
added-IsRelation = record {
  sound = λ a j e. absurd (cc e);
  complete = λ a j h. absurd (added-empty j a h);
}

match_document-IsExclusive_example :
    IsExclusive T access attachment_of matched_document other_slot filled
    × ((j : String)
        → Holds T access attachment_of matched_document other_slot filled j "att"
        → j ≡ "d1")
match_document-IsExclusive_example =
    match_document-IsExclusive T access attachment_of matched_document other_slot "ann" "t1" "d1"
      "att" 7 added filled added-IsRelation (λ i j a hi hj. absurd (added-empty i a hi)) matching
