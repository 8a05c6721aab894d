-- ===== src/Documents/Exclusive.antt =====
-- The attachments of the slots, matchDocumentToAttachment.
use mathlib.Core.Path.{subst}
use frontstead_kit.Prelude.{
  ℕ, ◌≡◌, ◌≢◌, ◌⊎◌, refl, sym, ap, ◌∙◌, String, Bool, true, false, Option, none, some, arith,
  str_eq, eq_iff, eq_refl, if◌then◌else◌, Option-cases, Bool-cases, inl, inr,
}
use frontstead_kit.Db.{Table}
use frontstead_kit.Documents.{
  Document, ok, clear, held_elsewhere, points_elsewhere, modify, clear_other, match_to, rematch,
  match_document,
}
use frontstead_kit.Documents.Inversion.{match_document-inv}

module _ (T : Table Document) (access : String → String → Bool)
    (attachment_of : String → Option (Option String))
    (matched_document : T.State → String → Option String)
    (other_slot : T.State → (transaction attachment except : String) → Option String) where
  abbrev pub Holds : T.State → String → String → Type 0
  Holds s j a = (d : Document) × (T.find s j ≡ some d) × (d.matched_attachment_id ≡ some a)

  abbrev pub IsExclusive : T.State → Type 0
  IsExclusive s = (i j a : String) → Holds s i a → Holds s j a → i ≡ j

  -- The relation `matchedDocument` of an attachment names a slot that holds it, and names one
  -- whenever there is one.
  pub record IsRelation (s : T.State) : Type 0 where
    pub sound : (a j : String) → matched_document s a ≡ some j → Holds s j a
    pub complete : (a j : String) → Holds s j a → (k : String) × (matched_document s a ≡ some k)

  -- What a slot holds afterwards, it held before.
  abbrev Shrinks : T.State → T.State → Type 0
  Shrinks s s' = (j a : String) → Holds s' j a → Holds s j a

  modify-clear-Shrinks :
      (s : T.State) (id : String)
      → Shrinks s (modify T access attachment_of matched_document other_slot s id clear)
  unfolding clear
  modify-clear-Shrinks s id j a = elim (Option-cases (T.find s id)) [
    | inl e ↦ rw (e, modify) (λ h. h)
    | inr (c, e) ↦ rw (e, modify) (λ h. put_clear c h.0 h.1 h.2)
  ]
    where
      put_clear :
          (c d : Document)
          → T.find (T.put s id (clear c)) j ≡ some d
          → d.matched_attachment_id ≡ some a
          → Holds s j a
      put_clear c d found held = elim (Bool-cases (str_eq id j)) [
        | inl same ↦ absurd (ground (arith, T.find-put s id j (clear c)))
        | inr other ↦ (d, ground (arith, T.find-put s id j (clear c)), held)
      ]

  clear_other-Shrinks :
      (s : T.State) (o : Option String)
      → Shrinks s (clear_other T access attachment_of matched_document other_slot s o)
  clear_other-Shrinks s none j a h = h
  clear_other-Shrinks s (some other) j a h = modify-clear-Shrinks s other j a h

  modify_match-Holds :
      (s : T.State) (id attachment : String) (now : ℕ) (j a : String)
      → id ≢ j
      → Holds
          (modify T access attachment_of matched_document other_slot s id
            (match_to T access attachment_of matched_document other_slot attachment now))
          j
          a
      → Holds s j a
  modify_match-Holds s id attachment now j a ne = elim (Option-cases (T.find s id)) [
    | inl e ↦ rw (e, modify) (λ h. h)
    | inr (c, e) ↦
        let c' : Document =
          match_to T access attachment_of matched_document other_slot attachment now c in
        rw (e, modify) (λ h. (h.0, ground (arith, T.find-put s id j c', eq_iff id j, h.1), h.2))
  ]

  modify_match_self :
      (s : T.State) (id attachment : String) (now : ℕ) (a : String)
      → Holds
          (modify T access attachment_of matched_document other_slot s id
            (match_to T access attachment_of matched_document other_slot attachment now))
          id
          a
      → a ≡ attachment
  modify_match_self s id attachment now a = elim (Option-cases (T.find s id)) [
    | inl e ↦ rw (e, modify) (λ h. absurd (cc (e, h.1)))
    | inr (c, e) ↦
        let c' : Document =
          match_to T access attachment_of matched_document other_slot attachment now c in
        rw (e, modify) (λ h. of_row c' h.0 (h.1) h.2 refl)
  ]
    where
      of_row :
          (c' d : Document)
          → T.find (T.put s id c') id ≡ some d
          → d.matched_attachment_id ≡ some a
          → c'.matched_attachment_id ≡ some attachment
          → a ≡ attachment
      of_row c' d found held set = ground (arith, T.find-put s id id c', eq_refl id)

  rematch-Holds :
      (s : T.State) (d : Document) (transaction document attachment : String) (now : ℕ)
      (j a : String)
      → document ≢ j
      → Holds
          (rematch T access attachment_of matched_document other_slot s d transaction document
            attachment now)
          j
          a
      → Holds s j a
  unfolding rematch
  rematch-Holds s d transaction document attachment now j a ne h =
      first (elim (Bool-cases away) [ inl e ↦ inl e | inr e ↦ inr e ])
        (clear_other-Shrinks s₁ (other_slot s₁ transaction attachment document) j a
          (modify_match-Holds s₂ document attachment now j a ne h))
    where
      away : Bool
      away =
          points_elsewhere T access attachment_of matched_document other_slot
            d.matched_attachment_id attachment

      s₁ : T.State
      s₁ =
          if away
          then modify T access attachment_of matched_document other_slot s document clear
          else s

      s₂ : T.State
      s₂ =
          clear_other T access attachment_of matched_document other_slot s₁
            (other_slot s₁ transaction attachment document)

      first : (away ≡ true) ⊎ (away ≡ false) → Holds s₁ j a → Holds s j a
      first (inl e) = rw e (modify-clear-Shrinks s document j a)
      first (inr e) = rw e (λ k. k)

  rematch_self :
      (s : T.State) (d : Document) (transaction document attachment : String) (now : ℕ) (a : String)
      → Holds
          (rematch T access attachment_of matched_document other_slot s d transaction document
            attachment now)
          document
          a
      → a ≡ attachment
  unfolding rematch
  rematch_self s d transaction document attachment now a h =
      modify_match_self _ document attachment now a h

  module _ (s : T.State) (d : Document) (transaction document attachment : String) (now : ℕ)
      (rel : IsRelation s) (only : IsExclusive s)
      (free : held_elsewhere T access attachment_of matched_document other_slot
          (matched_document s attachment)
          document
        ≡ false) where
    abbrev after : T.State
    after =
        rematch T access attachment_of matched_document other_slot s d transaction document
          attachment now

    str_cases : (j : String) → (document ≡ j) ⊎ (document ≢ j)
    str_cases j = elim (Bool-cases (str_eq document j)) [
      | inl same ↦ inl ((eq_iff document j).0 same)
      | inr other ↦ inr (λ e. cc (other, (eq_iff document j).1 e))
    ]

    owner : (j : String) → Holds after j attachment → j ≡ document
    owner j h = elim (str_cases j) [
      | inl e ↦ sym e
      | inr ne ↦
          let held = rematch-Holds s d transaction document attachment now j attachment ne h in
          let (k, named) = rel.complete attachment j held in
          let k-document : k ≡ document = (eq_iff k document).0 (ground (arith, named)) in
          let mine : Holds s document attachment =
            rel.sound attachment document (named ∙ ap some k-document) in
          only j document attachment held mine
    ]

    owner_of : (j a : String) → a ≡ attachment → Holds after j a → j ≡ document
    owner_of j a e h = owner j (subst (Holds after j) e h)

    rematch-IsExclusive : IsExclusive after
    rematch-IsExclusive i j a hi hj = elim (str_cases i) [
      | inl ei ↦
          let a-attachment : a ≡ attachment =
            rematch_self s d transaction document attachment now a
              (subst (λ k. Holds after k a) (sym ei) hi) in
          sym ei ∙ sym (owner_of j a a-attachment hj)
      | inr ni ↦ elim (str_cases j) [
        | inl ej ↦
            let a-attachment : a ≡ attachment =
              rematch_self s d transaction document attachment now a
                (subst (λ k. Holds after k a) (sym ej) hj) in
            owner_of i a a-attachment hi ∙ ej
        | inr nj ↦
            only i j a (rematch-Holds s d transaction document attachment now i a ni hi)
              (rematch-Holds s d transaction document attachment now j a nj hj)
      ]
    ]

  -- A successful match keeps every attachment in at most one slot, and afterwards no slot but the
  -- one that was asked for holds the attachment. So the unique index on the column is not violated.
  pub match_document-IsExclusive :
      (agent transaction document attachment : String) (now : ℕ) (s s' : T.State)
      → IsRelation s
      → IsExclusive s
      → match_document T access attachment_of matched_document other_slot agent transaction document
          attachment now s
        ≡ ok s'
      → IsExclusive s' × ((j : String) → Holds s' j attachment → j ≡ document)
  match_document-IsExclusive agent transaction document attachment now s s' rel only e =
      let (d, found, free, same) =
        match_document-inv T access attachment_of matched_document other_slot agent transaction
          document attachment now s s' e in
      rw same (
        rematch-IsExclusive s d transaction document attachment now rel only free,
        owner s d transaction document attachment now rel only free,
      )
