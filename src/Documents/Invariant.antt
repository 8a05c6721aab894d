-- ===== src/Documents/Invariant.antt =====
-- What holds of each document slot through any sequence of successful operations.
use mathlib.Core.Path.{subst}
use frontstead_kit.Prelude.{
  ℕ, ◌≡◌, ◌≢◌, inl, inr, String, Bool, true, Option, none, some, List, arith, is_some, str_eq,
  if◌then◌else◌, Option-cases, Bool-cases,
}
use frontstead_kit.Db.{Table}
use frontstead_kit.Documents.{
  Document, missing, verified, Result, ok, clear, points_elsewhere, modify, clear_other, match_to,
  set_drive, custom_slot, rematch, match_document, unmatch_document, verify_document,
  delete_custom_document, add_custom_document, copy_to_drive,
}
use frontstead_kit.Documents.Inversion.{
  unmatch_document-inv, verify_document-inv, match_document-inv, store_copy-inv, copy_to_drive-inv,
  delete_custom_document-inv, add_custom_document-inv, add_custom_document-none,
}

-- A missing slot has no attachment, any other slot has one and the time of the match, and a slot
-- without an attachment has no copy on Drive.
pub record IsConsistent (d : Document) : Type 0 where
  pub empty : d.status ≡ missing → d.matched_attachment_id ≡ none
  pub filled :
      d.status ≢ missing → (is_some d.matched_attachment_id ≡ true) × (is_some d.matched_at ≡ true)
  pub drive : d.matched_attachment_id ≡ none → (d.drive_file_id ≡ none) × (d.drive_web_link ≡ none)

clear-IsConsistent : (d : Document) → IsConsistent (clear d)
unfolding clear
clear-IsConsistent d = ground arith

custom_slot-IsConsistent :
    (transaction : String) (label : List ℕ) (notes : Option (List ℕ))
    → IsConsistent (custom_slot transaction label notes)
unfolding custom_slot
custom_slot-IsConsistent transaction label notes = ground arith

set_drive-IsConsistent :
    (d : Document) (a : String) (u : String × String)
    → d.matched_attachment_id ≡ some a
    → IsConsistent d
    → IsConsistent (set_drive u d)
unfolding set_drive
set_drive-IsConsistent d a u m h = ground arith

module _ (T : Table Document) (access : String → String → Bool)
    (attachment_of : String → Option (Option String))
    (matched_document : T.State → String → Option String)
    (other_slot : T.State → (transaction attachment except : String) → Option String) where
  -- Every row of the table satisfies `P`.
  abbrev pub Every : (Document → Type 0) → T.State → Type 0
  Every P s = (j : String) (d : Document) → T.find s j ≡ some d → P d

  pub put-Every :
      (P : Document → Type 0) (s : T.State) (id : String) (d : Document)
      → Every P s
      → P d
      → Every P (T.put s id d)
  put-Every P s id d h p j e found = elim (Bool-cases (str_eq id j)) [
    | inl same ↦ subst P (ground (arith, T.find-put s id j d)) p
    | inr other ↦ h j e (ground (arith, T.find-put s id j d))
  ]

  pub remove-Every :
      (P : Document → Type 0) (s : T.State) (id : String) → Every P s → Every P (T.remove s id)
  remove-Every P s id h j e found = h j e (ground (arith, T.find-remove s id j))

  -- One successful operation of any agent.
  pub data Step (s : T.State) : T.State → Type 0 where
    matches :
        (agent transaction document attachment : String) (now : ℕ) {s' : T.State}
        → match_document T access attachment_of matched_document other_slot agent transaction
            document attachment now s
          ≡ ok s'
        → Step s s'
    unmatches :
        (agent transaction document : String) {s' : T.State}
        → unmatch_document T access attachment_of matched_document other_slot agent transaction
            document s
          ≡ ok s'
        → Step s s'
    verifies :
        (agent transaction document : String) {s' : T.State}
        → verify_document T access attachment_of matched_document other_slot agent transaction
            document s
          ≡ ok s'
        → Step s s'
    copies :
        (agent transaction document : String) (granted : Result Bool)
        (upload : String → Result (String × String)) {s' : T.State}
        → copy_to_drive T access attachment_of matched_document other_slot agent transaction
            document granted upload s
          ≡ ok s'
        → Step s s'
    deletes :
        (agent transaction document : String) {s' : T.State}
        → delete_custom_document T access attachment_of matched_document other_slot agent
            transaction document s
          ≡ ok s'
        → Step s s'
    adds :
        (agent transaction : String) (label notes : Option (List ℕ)) (id : String) {s' : T.State}
        → add_custom_document T access attachment_of matched_document other_slot agent transaction
            label notes id s
          ≡ ok s'
        → Step s s'

  pub data Reach (s : T.State) : T.State → Type 0 where
    here : Reach s s
    next : {t u : T.State} → Reach s t → Step t u → Reach s u

  modify-Every :
      (P : Document → Type 0) (s : T.State) (id : String) (f : Document → Document)
      → ((d : Document) → T.find s id ≡ some d → P (f d))
      → Every P s
      → Every P (modify T access attachment_of matched_document other_slot s id f)
  modify-Every P s id f keep h = elim (Option-cases (T.find s id)) [
    | inl e ↦ rw (e, modify) h
    | inr (d, e) ↦ rw (e, modify) (put-Every P s id (f d) h (keep d e))
  ]

  rematch-IsConsistent :
      (s : T.State) (d : Document) (transaction document attachment : String) (now : ℕ)
      → Every IsConsistent s
      → Every IsConsistent (
          rematch T access attachment_of matched_document other_slot s d transaction document
            attachment now)
  unfolding rematch
  rematch-IsConsistent s d transaction document attachment now h =
      modify-Every IsConsistent s₂ document
        (match_to T access attachment_of matched_document other_slot attachment now)
        (λ e _. ground arith) (freed (other_slot s₁ transaction attachment document))
    where
      s₁ : T.State
      s₁ =
          if points_elsewhere T access attachment_of matched_document other_slot
            d.matched_attachment_id attachment
          then modify T access attachment_of matched_document other_slot s document clear
          else s

      first : Every IsConsistent s₁
      first =
          elim (Bool-cases (
            points_elsewhere T access attachment_of matched_document other_slot
              d.matched_attachment_id attachment)) [
                | inl away ↦
                    rw away
                      (modify-Every IsConsistent s document clear (λ e _. clear-IsConsistent e) h)
                | inr same ↦ rw same h
              ]

      s₂ : T.State
      s₂ =
          clear_other T access attachment_of matched_document other_slot s₁
            (other_slot s₁ transaction attachment document)

      freed :
          (o : Option String)
          → Every IsConsistent (clear_other T access attachment_of matched_document other_slot s₁ o)
      freed none = first
      freed (some other) =
          modify-Every IsConsistent s₁ other clear (λ e _. clear-IsConsistent e) first

  Step-IsConsistent : {s s' : T.State} → Step s s' → Every IsConsistent s → Every IsConsistent s'
  Step-IsConsistent {s} {s'} (matches agent transaction document attachment now e) h =
      let (d, found, _, same) =
        match_document-inv T access attachment_of matched_document other_slot agent transaction
          document attachment now s s' e in
      rw same (rematch-IsConsistent s d transaction document attachment now h)
  Step-IsConsistent {s} {s'} (unmatches agent transaction document e) h =
      let (d, found, same) =
        unmatch_document-inv T access attachment_of matched_document other_slot agent transaction
          document s s' e in
      rw same (put-Every IsConsistent s document (clear d) h (clear-IsConsistent d))
  Step-IsConsistent {s} {s'} (verifies agent transaction document e) h =
      let (d, found, st, filled, same) =
        verify_document-inv T access attachment_of matched_document other_slot agent transaction
          document s s' e in
      let k = h document d found in
      rw same (put-Every IsConsistent s document (record d { status = verified }) h (ground arith))
  Step-IsConsistent {s} {s'} (copies agent transaction document granted upload e) h =
      let (d, a, found, filled, e') =
        copy_to_drive-inv T access attachment_of matched_document other_slot agent transaction
          document granted upload s s' e in
      let (u, same) =
        store_copy-inv T access attachment_of matched_document other_slot s s' document d (upload a)
          e' in
      rw same (
        put-Every IsConsistent s document (set_drive u d) h
          (set_drive-IsConsistent d a u filled (h document d found)))
  Step-IsConsistent {s} {s'} (deletes agent transaction document e) h =
      let (d, found, _, _, same) =
        delete_custom_document-inv T access attachment_of matched_document other_slot agent
          transaction document s s' e in
      rw same (remove-Every IsConsistent s document h)
  Step-IsConsistent {s} {s'} (adds agent transaction none notes id e) h = absurd (
      add_custom_document-none T access attachment_of matched_document other_slot agent transaction
        notes id s s' e)
  Step-IsConsistent {s} {s'} (adds agent transaction (some label) notes id e) h =
      rw
        (add_custom_document-inv T access attachment_of matched_document other_slot agent
          transaction label notes id s s' e)
        (put-Every IsConsistent s id (custom_slot transaction label notes) h
          (custom_slot-IsConsistent transaction label notes))

  -- Whatever operations succeed, and in whatever order, every slot stays consistent: its status,
  -- its attachment, the time of its match and its copy on Drive fit together.
  pub Reach-IsConsistent :
      {s s' : T.State}
      → Every IsConsistent s
      → Reach s s'
      → (j : String) (d : Document) → T.find s' j ≡ some d
      → IsConsistent d
  Reach-IsConsistent h here = h
  Reach-IsConsistent h (next r step) = Step-IsConsistent step (Reach-IsConsistent h r)
