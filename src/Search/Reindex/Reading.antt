-- ===== src/Search/Reindex/Reading.antt =====
-- The sets of ids that a rebuild reads, of the lines of an export and of the documents to be.
use frontstead_kit.Prelude.{
  String, Bool, true, false, not, ◌&&◌, ◌||◌, Option, none, some, List, [], ◌∷◌, any, str_eq,
  eq_iff, ◌≡◌, inl, inr, refl, sym, ap, ◌∙◌, arith, Bool-cases, Option-cases,
}
use frontstead_kit.Search.Reindex.{
  Line, invalid, without_id, with_id, shows_id, set_has, Collection, add_id, is_blank, has_id,
  add_text_id, id_of_line, existing_ids, desired_ids,
}

pub has-add_id :
    (set : List String) (id j : String) → set_has (add_id set id) j ≡ (str_eq j id || set_has set j)
has-add_id set id j = ground (arith, eq_iff j id)

some_inj : (xs ys : List String) → some xs ≡ some ys → xs ≡ ys
some_inj xs ys e = cc

given_id :
    (set set' : List String) (j : String)
    → str_eq j "" ≡ false
    → add_text_id set (some j) ≡ some set'
    → some (add_id set j) ≡ some set'
given_id set set' j given e = ground (arith, given, e)

add_text_id-has :
    (set set' : List String) (o : Option String) (id : String)
    → add_text_id set o ≡ some set'
    → set_has set' id ≡ ((elim o [ none ↦ false | some j ↦ str_eq j id ]) || set_has set id)
add_text_id-has set set' none id e = ground (arith, e)
add_text_id-has set set' (some j) id e = elim (Bool-cases (str_eq j "")) [
  | inl empty ↦ absurd (ground (arith, empty, e))
  | inr given ↦
      ap (λ xs. set_has xs id) (sym (some_inj (add_id set j) set' (given_id set set' j given e)))
      ∙ has-add_id set j id
      ∙ ground (arith, eq_iff id j, eq_iff j id)
]

shows_line :
    (l : Line) (id : String)
    → shows_id id l ≡ (elim (id_of_line l) [ none ↦ false | some j ↦ str_eq j id ])
shows_line invalid id = refl
shows_line without_id id = refl
shows_line (with_id j) id = ground (arith, eq_iff id j, eq_iff j id)

module _ {Doc : Type 0} (S : Collection Doc) where
  left_true : (b : Bool) → (b || false) ≡ true → b ≡ true
  left_true b h = ground (arith, h)

  skipped :
      (line : String) (lines set ids : List String)
      → is_blank line ≡ true
      → existing_ids S set (line ∷ lines) ≡ some ids
      → existing_ids S set lines ≡ some ids
  unfolding existing_ids
  skipped line lines set ids blank e = ground (arith, blank, e)

  read :
      (line : String) (lines set set' ids : List String)
      → is_blank line ≡ false
      → add_text_id set (id_of_line (S.parse line)) ≡ some set'
      → existing_ids S set (line ∷ lines) ≡ some ids
      → existing_ids S set' lines ≡ some ids
  unfolding existing_ids
  read line lines set set' ids full added e = ground (arith, full, added, e)

  pub existing_ids-has :
      (lines : List String) (set ids : List String) (id : String)
      → existing_ids S set lines ≡ some ids
      → (set_has set id || any (λ line. not (is_blank line) && shows_id id (S.parse line)) lines)
        ≡ true
      → set_has ids id ≡ true
  unfolding existing_ids
  existing_ids-has [] set ids id e h =
      ap (λ xs. set_has xs id) (sym (some_inj set ids e)) ∙ left_true (set_has set id) h
  existing_ids-has (line ∷ lines) set ids id e h = elim (Bool-cases (is_blank line)) [
    | inl blank ↦
        existing_ids-has lines set ids id (skipped line lines set ids blank e)
          (ground (arith, blank, h))
    | inr full ↦ elim (Option-cases (add_text_id set (id_of_line (S.parse line)))) [
      | inl bad ↦ absurd (ground (arith, full, bad, e))
      | inr (set', added) ↦
          existing_ids-has lines set' ids id (read line lines set set' ids full added e) (
            ground (
              arith,
              full,
              h,
              shows_line (S.parse line) id,
              add_text_id-has set set' (id_of_line (S.parse line)) id added,
            ))
    ]
  ]

  next :
      (d : Doc) (docs : List Doc) (set set' ids : List String)
      → add_text_id set (S.id_of d) ≡ some set'
      → desired_ids S set (d ∷ docs) ≡ some ids
      → desired_ids S set' docs ≡ some ids
  unfolding desired_ids
  next d docs set set' ids added e = ground (arith, added, e)

  pub desired_ids-has :
      (docs : List Doc) (set ids : List String) (id : String)
      → desired_ids S set docs ≡ some ids
      → set_has ids id ≡ (set_has set id || any (has_id S.id_of id) docs)
  unfolding desired_ids
  desired_ids-has [] set ids id e =
      ap (λ xs. set_has xs id) (sym (some_inj set ids e)) ∙ ground arith
  desired_ids-has (d ∷ docs) set ids id e = elim (Option-cases (add_text_id set (S.id_of d))) [
    | inl bad ↦ absurd (ground (arith, bad, e))
    | inr (set', added) ↦
        desired_ids-has docs set' ids id (next d docs set set' ids added e)
        ∙ rw (add_text_id-has set set' (S.id_of d) id added) (ground arith)
  ]
