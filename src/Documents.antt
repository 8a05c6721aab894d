-- ===== src/Documents.antt =====
-- The document slots of a transaction, apps/api/src/services/transactionDocumentService.ts, with the
-- columns of `TransactionDocument` in packages/db/prisma/schema.prisma. The access check, the
-- attachments, the queries by another column than the key and the Google services are arguments.
pub mod Inversion
pub mod Invariant
pub mod Exclusive
mod Examples
use frontstead_kit.Prelude.{
  ℕ, String, Bool, true, false, not, ◌&&◌, ◌||◌, Option, none, some, List, [], ◌∷◌, str_eq, is_some,
  if◌then◌else◌, take, codes, length, ◌==◌,
}
use frontstead_kit.Db.{Table}
pub use frontstead_kit.Prelude.Fallible.{Result, ok, err, ◌>>=◌, ◌>>◌, refuse_if}

pub data Status : Type 0 where
  missing matched verified : Status

pub record Document : Type 0 where
  pub transaction_id : String
  pub document_definition_id : Option String
  pub label : List ℕ
  pub notes : Option (List ℕ)
  pub status : Status
  pub matched_attachment_id : Option String
  pub matched_at : Option ℕ
  pub drive_file_id : Option String
  pub drive_web_link : Option String

abbrev pub is_verified : Status → Bool
is_verified verified = true
is_verified _ = false

abbrev pub is_matched : Status → Bool
is_matched matched = true
is_matched _ = false

abbrev pub is_id : Option String → String → Bool
is_id none id = false
is_id (some a) id = str_eq a id

-- The update that unmatchDocument makes, and matchDocumentToAttachment on slots that it frees.
unfoldable pub clear : Document → Document
clear d = record d {
  matched_attachment_id = none;
  matched_at = none;
  status = missing;
  drive_file_id = none;
  drive_web_link = none;
}

-- `notes ? String(notes).slice(0, 2000) : null`
abbrev pub shorten : Option (List ℕ) → Option (List ℕ)
shorten none = none
shorten (some []) = none
shorten (some (c ∷ cs)) = some (take 2000 (c ∷ cs))

-- `!doc.matchedAttachment` throws.
abbrev pub matched_of : Document → Result String
matched_of d = elim d.matched_attachment_id [
  | none ↦ err 400 "Document has no matched attachment."
  | some attachment ↦ ok attachment
]

-- The row of a custom slot.
pub custom_slot : String → List ℕ → Option (List ℕ) → Document
custom_slot transaction label notes = record {
  transaction_id = transaction;
  document_definition_id = none;
  label = take 200 label;
  notes = shorten notes;
  status = missing;
  matched_attachment_id = none;
  matched_at = none;
  drive_file_id = none;
  drive_web_link = none;
}

pub set_drive : String × String → Document → Document
set_drive (file, link) d = record d { drive_file_id = some file; drive_web_link = some link }

module _ (T : Table Document) (access : String → String → Bool)
    -- the transaction of the message that an attachment was found in
    (attachment_of : String → Option (Option String))
    -- the slot of the attachment's relation `matchedDocument`
    (matched_document : T.State → String → Option String)
    -- the query for another slot of the transaction that holds the attachment
    (other_slot : T.State → (transaction attachment except : String) → Option String) where
  pub assert_transaction_access : String → String → Result (Unit {0})
  assert_transaction_access agent transaction =
      refuse_if (not (access agent transaction)) 404 "Transaction not found."

  pub assert_document : T.State → String → String → Result Document
  assert_document s transaction document = elim (T.find s document) [
    | none ↦ err 404 "Document not found."
    | some d ↦ if str_eq d.transaction_id transaction then ok d else err 404 "Document not found."
  ]

  -- The attachment must be one of this transaction's.
  pub assert_attachment : String → String → Result (Unit {0})
  assert_attachment transaction attachment = elim (attachment_of attachment) [
    | none ↦ err 404 "Attachment not found or not part of this transaction."
    | some owner ↦
        refuse_if (not (is_id owner transaction)) 404
          "Attachment not found or not part of this transaction."
  ]

  abbrev pub held_elsewhere : Option String → String → Bool
  held_elsewhere none document = false
  held_elsewhere (some holder) document = not (str_eq holder document)

  -- `doc.matchedAttachmentId && doc.matchedAttachmentId !== attachmentId`
  abbrev pub points_elsewhere : Option String → String → Bool
  points_elsewhere none attachment = false
  points_elsewhere (some a) attachment = not (str_eq a attachment)

  -- An `update` of a row that is there.
  abbrev pub modify : T.State → String → (Document → Document) → T.State
  modify s id f = elim (T.find s id) [ none ↦ s | some d ↦ T.put s id (f d) ]

  abbrev pub clear_other : T.State → Option String → T.State
  clear_other s none = s
  clear_other s (some other) = modify s other clear

  abbrev pub match_to : String → ℕ → Document → Document
  match_to attachment now d = record d {
    matched_attachment_id = some attachment;
    matched_at = some now;
    status = matched;
  }

  -- The database transaction of matchDocumentToAttachment.
  pub rematch : T.State → Document → (transaction document attachment : String) → ℕ → T.State
  unfolding clear
  rematch s d transaction document attachment now =
      let s₁ =
        if points_elsewhere d.matched_attachment_id attachment
        then modify s document clear
        else s in
      let s₂ = clear_other s₁ (other_slot s₁ transaction attachment document) in
      modify s₂ document (match_to attachment now)

  pub match_document :
      (agent transaction document attachment : String) → ℕ → T.State → Result T.State
  unfolding assert_transaction_access assert_document assert_attachment
  match_document agent transaction document attachment now s = do
    assert_transaction_access agent transaction
    d ← assert_document s transaction document
    refuse_if (is_verified d.status) 400
        "Unmatch this document before choosing a different attachment."
    assert_attachment transaction attachment
    refuse_if (held_elsewhere (matched_document s attachment) document) 409
        "Attachment is already matched to another document."
    ok (rematch s d transaction document attachment now)

  pub unmatch_document : (agent transaction document : String) → T.State → Result T.State
  unfolding assert_transaction_access assert_document
  unmatch_document agent transaction document s = do
    assert_transaction_access agent transaction
    d ← assert_document s transaction document
    ok (T.put s document (clear d))

  pub verify_document : (agent transaction document : String) → T.State → Result T.State
  unfolding assert_transaction_access assert_document
  verify_document agent transaction document s = do
    assert_transaction_access agent transaction
    d ← assert_document s transaction document
    refuse_if (not (is_matched d.status) || not (is_some d.matched_attachment_id)) 400
        "Only matched documents can be verified."
    ok (T.put s document (record d { status = verified }))

  pub delete_custom_document : (agent transaction document : String) → T.State → Result T.State
  unfolding assert_transaction_access assert_document
  delete_custom_document agent transaction document s = do
    assert_transaction_access agent transaction
    d ← assert_document s transaction document
    refuse_if (is_some d.document_definition_id) 400 "Only custom document slots can be deleted."
    ok (T.remove s document)

  -- addCustomDocument; `id` is the key that the database gives the new row.
  pub add_custom_document :
      (agent transaction : String)
      → (label notes : Option (List ℕ)) → (id : String) → T.State
      → Result T.State
  unfolding assert_transaction_access
  add_custom_document agent transaction none notes id s =
      assert_transaction_access agent transaction >> err 400 "label is required"
  add_custom_document agent transaction (some label) notes id s = do
    assert_transaction_access agent transaction
    refuse_if (length label == 0) 400 "label is required"
    ok (T.put s id (custom_slot transaction label notes))

  pub store_copy : T.State → String → Document → Result (String × String) → Result T.State
  unfolding set_drive
  store_copy s document d (ok uploaded) = ok (T.put s document (set_drive uploaded d))
  store_copy s document d (err status message) = err status message

  -- copyMatchedDocumentToDrive: `granted` says whether the account may write to Drive, `upload` is
  -- the file and the link of the copy, or what the Google services threw.
  pub copy_to_drive :
      (agent transaction document : String)
      → (granted : Result Bool) → (upload : String → Result (String × String)) → T.State
      → Result T.State
  unfolding assert_transaction_access assert_document
  copy_to_drive agent transaction document granted upload s = do
    assert_transaction_access agent transaction
    d ← assert_document s transaction document
    attachment ← matched_of d
    scope ← granted
    refuse_if (not scope) 403
        "Google Drive access is not granted. Reconnect Google in Settings to enable file sync."
    store_copy s document d (upload attachment)
