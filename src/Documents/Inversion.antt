-- ===== src/Documents/Inversion.antt =====
-- What a successful operation on a document slot did.
use frontstead_kit.Prelude.{
  ℕ, ◌≡◌, String, Bool, true, false, Option, none, some, List, arith, is_some, str_eq,
}
use frontstead_kit.Db.{Table}
use frontstead_kit.Documents.{
  Document, matched, verified, Result, ok, err, clear, held_elsewhere, set_drive, custom_slot,
  rematch, match_document, unmatch_document, verify_document, delete_custom_document,
  add_custom_document, copy_to_drive, store_copy,
}

module _ (T : Table Document) (access : String → String → Bool)
    (attachment_of : String → Option (Option String))
    (matched_document : T.State → String → Option String)
    (other_slot : T.State → (transaction attachment except : String) → Option String) where
  pub unmatch_document-inv :
      (agent transaction document : String) (s s' : T.State)
      → unmatch_document T access attachment_of matched_document other_slot agent transaction
          document s
        ≡ ok s'
      → (d : Document) × (T.find s document ≡ some d) × (s' ≡ T.put s document (clear d))
  unfolding unmatch_document
  unmatch_document-inv agent transaction document s s' h = ground arith

  pub verify_document-inv :
      (agent transaction document : String) (s s' : T.State)
      → verify_document T access attachment_of matched_document other_slot agent transaction
          document s
        ≡ ok s'
      → (d : Document) × (T.find s document ≡ some d)
        × (d.status ≡ matched)
        × (is_some d.matched_attachment_id ≡ true)
        × (s' ≡ T.put s document (record d { status = verified }))
  unfolding verify_document
  verify_document-inv agent transaction document s s' h = ground arith

  pub match_document-inv :
      (agent transaction document attachment : String) (now : ℕ) (s s' : T.State)
      → match_document T access attachment_of matched_document other_slot agent transaction document
          attachment now s
        ≡ ok s'
      → (d : Document) × (T.find s document ≡ some d)
        × (held_elsewhere T access attachment_of matched_document other_slot
              (matched_document s attachment)
              document
            ≡ false)
        × (s'
            ≡ rematch T access attachment_of matched_document other_slot s d transaction document
                attachment now)
  unfolding match_document
  match_document-inv agent transaction document attachment now s s' h = ground arith

  pub store_copy-inv :
      (s s' : T.State) (document : String) (d : Document) (r : Result (String × String))
      → store_copy T access attachment_of matched_document other_slot s document d r ≡ ok s'
      → (u : String × String) × (s' ≡ T.put s document (set_drive u d))
  unfolding store_copy
  store_copy-inv s s' document d (ok u) h = (u, cc)
  store_copy-inv s s' document d (err status message) h = cc

  pub copy_to_drive-inv :
      (agent transaction document : String) (granted : Result Bool)
      (upload : String → Result (String × String)) (s s' : T.State)
      → copy_to_drive T access attachment_of matched_document other_slot agent transaction document
          granted upload s
        ≡ ok s'
      → (d : Document) × (a : String) × (T.find s document ≡ some d)
        × (d.matched_attachment_id ≡ some a)
        × (store_copy T access attachment_of matched_document other_slot s document d (upload a)
            ≡ ok s')
  unfolding copy_to_drive
  copy_to_drive-inv agent transaction document granted upload s s' h = ground arith

  pub delete_custom_document-inv :
      (agent transaction document : String) (s s' : T.State)
      → delete_custom_document T access attachment_of matched_document other_slot agent transaction
          document s
        ≡ ok s'
      → (d : Document) × (T.find s document ≡ some d)
        × (d.document_definition_id ≡ none)
        × (str_eq d.transaction_id transaction ≡ true)
        × (s' ≡ T.remove s document)
  unfolding delete_custom_document
  delete_custom_document-inv agent transaction document s s' h = ground arith

  pub add_custom_document-inv :
      (agent transaction : String) (label : List ℕ) (notes : Option (List ℕ)) (id : String)
      (s s' : T.State)
      → add_custom_document T access attachment_of matched_document other_slot agent transaction
          (some label)
          notes
          id
          s
        ≡ ok s'
      → s' ≡ T.put s id (custom_slot transaction label notes)
  unfolding add_custom_document
  add_custom_document-inv agent transaction label notes id s s' h = ground arith

  pub add_custom_document-none :
      (agent transaction : String) (notes : Option (List ℕ)) (id : String) (s s' : T.State)
      → add_custom_document T access attachment_of matched_document other_slot agent transaction
          none notes id s
        ≡ ok s'
      → ⊥
  unfolding add_custom_document
  add_custom_document-none agent transaction notes id s s' h = ground arith
