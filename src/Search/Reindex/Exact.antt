-- ===== src/Search/Reindex/Exact.antt =====
-- The index after an exact rebuild.
use mathlib.Core.Path.{subst}
use frontstead_kit.Prelude.{
  ℕ, String, Bool, true, false, not, ◌&&◌, ◌||◌, Option, none, some, List, [], ◌∷◌, any, all,
  length, ◌==◌, str_eq, eq_iff, ◌≡◌, ◌≢◌, inl, inr, refl, sym, ap, ◌∙◌, if◌then◌else◌, arith,
  Bool-cases, Option-cases,
}
use frontstead_kit.Search.Indexing.{is_broken}
use frontstead_kit.Search.Reindex.{
  union_ids, reconcile_all, add_id, set_has, Collection, has_id, last_of, counts, desired_ids,
  import_all, delete_all, stale_ids, reconciled, replaced, rebuild, exported, reindex_all,
}
use frontstead_kit.Search.Reindex.Reading.{has-add_id, existing_ids-has, desired_ids-has}

has-stale_ids :
    {Doc : Type 0} (S : Collection Doc) (existing desired : List String) (id : String)
    → set_has (stale_ids S existing desired) id ≡ (set_has existing id && not (set_has desired id))
unfolding stale_ids
has-stale_ids S [] desired id = ground arith
has-stale_ids S (j ∷ existing) desired id =
    ground (arith, has-stale_ids S existing desired id, eq_iff id j, ap (set_has desired))

module _ {Doc : Type 0} (S : Collection Doc) where
  finished :
      (j : String) (ids : List String) (s : S.State)
      → is_broken (S.delete s j).1 ≡ false
      → (delete_all S s (j ∷ ids)).1 ≡ false
      → (delete_all S (S.delete s j).0 ids).1 ≡ false
  unfolding delete_all
  finished j ids s gone done = ground (arith, gone, done)

  gone_id :
      (ids : List String) (id j : String) (o : Option Doc)
      → (if set_has ids id then none else if str_eq j id then none else o)
        ≡ (if set_has (j ∷ ids) id then none else o)
  gone_id ids id j o = ground (arith, eq_iff id j, eq_iff j id)

  find-delete_all :
      (ids : List String) (s : S.State) (id : String)
      → (delete_all S s ids).1 ≡ false
      → S.find (delete_all S s ids).0 id ≡ (if set_has ids id then none else S.find s id)
  unfolding delete_all
  find-delete_all [] s id done = refl
  find-delete_all (j ∷ ids) s id done = elim (Bool-cases (is_broken (S.delete s j).1)) [
    | inl broken ↦ absurd (ground (arith, broken, done))
    | inr gone ↦
        rw (delete_all, gone)
          (find-delete_all ids (S.delete s j).0 id (finished j ids s gone done)
            ∙ rw (S.find-delete s j id gone) (gone_id ids id j (S.find s id)))
  ]

  last_absent :
      (docs : List Doc) (id : String) (o : Option Doc)
      → any (has_id S.id_of id) docs ≡ false
      → last_of S.id_of docs id o ≡ o
  last_absent [] id o h = refl
  last_absent (d ∷ docs) id o h = ground (arith, last_absent docs id o, h)

  last_present :
      (docs : List Doc) (id : String) (o o' : Option Doc)
      → any (has_id S.id_of id) docs ≡ true
      → last_of S.id_of docs id o ≡ last_of S.id_of docs id o'
  last_present [] id o o' h = absurd (ground (arith, h))
  last_present (d ∷ docs) id o o' h = ground (arith, last_present docs id o o', h)

  answered_lem :
      (d : Doc) (docs : List Doc) (s : S.State) (rs : List Bool)
      → (S.import_docs s (d ∷ docs)).1 ≡ some rs
      → import_all S s (d ∷ docs) ≡ (
        (S.import_docs s (d ∷ docs)).0,
        not (length rs == length (d ∷ docs)) || not (all (λ r. r) rs),
      )
  answered_lem d docs s rs answered = rw (import_all, answered) refl

  checked :
      (rs : List Bool) (docs : List Doc)
      → (not (length rs == length docs) || not (all (λ r. r) rs)) ≡ false
      → (length rs ≡ length docs) × (all (λ r. r) rs ≡ true)
  checked rs docs h = (ground (arith, h), ground (arith, h))

  find-import_all :
      (docs : List Doc) (s : S.State) (id : String)
      → (import_all S s docs).1 ≡ false
      → S.find (import_all S s docs).0 id ≡ last_of S.id_of docs id (S.find s id)
  find-import_all [] s id h = refl
  find-import_all (d ∷ docs) s id h = elim (Option-cases (S.import_docs s (d ∷ docs)).1) [
    | inl thrown ↦ absurd (ground (arith, thrown, h))
    | inr (rs, answered) ↦
        let (same_length, succeeded) =
          checked rs (d ∷ docs) (sym (ap (λ x. x.1) (answered_lem d docs s rs answered)) ∙ h) in
        ap (λ x. S.find x.0 id) (answered_lem d docs s rs answered)
        ∙ S.find-import_docs s (d ∷ docs) rs id answered same_length succeeded
  ]

  record IsRead (s : S.State) (docs : List Doc) (existing desired : List String) : Type 0 where
    listed : (id : String) (d : Doc) → S.find s id ≡ some d → set_has existing id ≡ true
    wanted : (id : String) → set_has desired id ≡ any (has_id S.id_of id) docs

  exact_find :
      (s : S.State) (docs : List Doc) (existing desired : List String)
      → IsRead s docs existing desired
      → (import_all S s docs).1 ≡ false
      → let s' = (import_all S s docs).0 in
        (delete_all S s' (stale_ids S existing desired)).1 ≡ false
        → (id : String)
        → S.find (delete_all S s' (stale_ids S existing desired)).0 id
          ≡ last_of S.id_of docs id none
  exact_find s docs existing desired r imported deleted id =
      find-delete_all (stale_ids S existing desired) (import_all S s docs).0 id deleted
      ∙ rw (has-stale_ids S existing desired id, find-import_all docs s id imported, r.wanted id)
          (elim (Bool-cases (any (has_id S.id_of id) docs)) [
            | inl present ↦
                rw present (ground (arith, last_present docs id (S.find s id) none present))
            | inr absent ↦ elim (Option-cases (S.find s id)) [
              | inl none_there ↦
                  rw (absent, none_there) (ground (arith, last_absent docs id none absent))
              | inr (d, there) ↦
                  rw (absent, there, r.listed id d there) (sym (last_absent docs id none absent))
            ]
          ])

  abbrev Reconcile : Type 0
  Reconcile = Option (S.State → String → S.State × Bool)

  -- What the reconciliation of the ids `ids` leaves of a state, where it is asked for, and that it
  -- does not throw.
  abbrev pub Follows :
      Option (S.State → String → S.State × Bool) → List String → S.State → S.State → Type 0
  Follows none ids s s' = s' ≡ s
  Follows (some f) ids s s' = reconcile_all S f s ids ≡ (s', false)

  -- A rebuild that answers with counts read, imported, deleted and reconciled all it was to.
  reconciled_done :
      (reconcile : Reconcile) (existing desired stale : List String) (docs : List Doc)
      (x : S.State × Bool) (a b c : ℕ)
      → (reconciled S reconcile existing desired stale docs x).1 ≡ counts a b c
      → (x.1 ≡ false)
        × Follows reconcile
            (union_ids S existing desired)
            x.0
            (reconciled S reconcile existing desired stale docs x).0
  reconciled_done reconcile existing desired stale docs (s, true) a b c e =
      absurd (ground (arith, e))
  reconciled_done none existing desired stale docs (s, false) a b c e = (refl, refl)
  reconciled_done (some f) existing desired stale docs (s, false) a b c e =
      elim (Bool-cases (reconcile_all S f s (union_ids S existing desired)).1) [
        | inl thrown ↦ absurd (ground (arith, thrown, e))
        | inr quiet ↦
            (refl, ap (λ t. ((reconcile_all S f s (union_ids S existing desired)).0, t)) quiet)
      ]

  replaced_done :
      (reconcile : Reconcile) (existing desired : List String) (docs : List Doc)
      (x : S.State × Bool) (a b c : ℕ)
      → (replaced S reconcile existing desired docs x).1 ≡ counts a b c
      → let y = delete_all S x.0 (stale_ids S existing desired) in
        (x.1 ≡ false)
        × (y.1 ≡ false)
        × Follows reconcile
            (union_ids S existing desired)
            y.0
            (replaced S reconcile existing desired docs x).0
  replaced_done reconcile existing desired docs (s, true) a b c e = absurd (ground (arith, e))
  replaced_done reconcile existing desired docs (s, false) a b c e =
      let stale = stale_ids S existing desired in
      let (done, same) =
        reconciled_done reconcile existing desired stale docs (delete_all S s stale) a b c e in
      (refl, done, same)

  rebuild_done :
      (reconcile : Reconcile) (existing : List String) (docs : List Doc) (s : S.State) (a b c : ℕ)
      (o : Option (List String))
      → desired_ids S [] docs ≡ o
      → (rebuild S reconcile (some existing) docs s).1 ≡ counts a b c
      → (desired : List String) × (o ≡ some desired)
        × (rebuild S reconcile (some existing) docs s
            ≡ replaced S reconcile existing desired docs (import_all S s docs))
  rebuild_done reconcile existing docs s a b c none e h = absurd (ground (arith, e, h))
  rebuild_done reconcile existing docs s a b c (some desired) e h =
      (desired, refl, rw (rebuild, e) refl)

  exported_listed :
      (s : S.State) (existing : List String)
      → exported S true s ≡ some existing
      → (id : String) (d : Doc) → S.find s id ≡ some d
      → set_has existing id ≡ true
  exported_listed s existing e id d there = elim (Option-cases (S.export_lines s)) [
    | inl thrown ↦ absurd (ground (arith, thrown, e))
    | inr (lines, given) ↦
        existing_ids-has S lines [] existing id (sym (rw (exported, given) refl) ∙ e)
          (S.export-complete s lines id d given there)
  ]

  reindex_lem :
      (reconcile : Reconcile) (docs : List Doc) (s : S.State) (o : Option (List String))
      → exported S true s ≡ o
      → reindex_all S true reconcile docs s ≡ rebuild S reconcile o docs s
  unfolding reindex_all
  reindex_lem reconcile docs s o e = rw e refl

  not_counts :
      (reconcile : Reconcile) (docs : List Doc) (s : S.State) (a b c : ℕ)
      → (rebuild S reconcile none docs s).1 ≢ counts a b c
  not_counts reconcile docs s a b c e = ground (arith, e)

  union_ids-keeps :
      (ids set : List String) (id : String)
      → set_has set id ≡ true
      → set_has (union_ids S set ids) id ≡ true
  union_ids-keeps [] set id h = h
  union_ids-keeps (j ∷ ids) set id h =
      union_ids-keeps ids (add_id set j) id (has-add_id set j id ∙ ground (arith, h))

  union_ids-has :
      (ids set : List String) (id : String)
      → set_has ids id ≡ true
      → set_has (union_ids S set ids) id ≡ true
  union_ids-has [] set id h = absurd (ground (arith, h))
  union_ids-has (j ∷ ids) set id h = elim (Bool-cases (str_eq id j)) [
    | inl same ↦ union_ids-keeps ids (add_id set j) id (has-add_id set j id ∙ ground (arith, same))
    | inr other ↦ union_ids-has ids (add_id set j) id (ground (arith, h, other))
  ]

  -- A rebuild of the index `s` from the documents `docs`, with an optional reconciliation, that ends
  -- in `s'`.
  pub record IsExact (reconcile : Option (S.State → String → S.State × Bool)) (docs : List Doc)
      (s s' : S.State) : Type 0 where
    -- Before the reconciliation the index has the documents given, the last one of each id, and no
    -- other.
    pub rebuilt : S.State
    pub exact : (id : String) → S.find rebuilt id ≡ last_of S.id_of docs id none
    -- Then each id that the index had, or that a document has, is reconciled.
    pub ids : List String
    pub follows : Follows reconcile ids rebuilt s'
    pub had : (id : String) (d : Doc) → S.find s id ≡ some d → set_has ids id ≡ true
    pub given : (id : String) → any (has_id S.id_of id) docs ≡ true → set_has ids id ≡ true

  -- An exact rebuild that answers with counts first leaves in the index the documents that it was
  -- given, the last one of each id, and no other; then it reconciles, where that is asked for, every id
  -- that the index had or that a document has, and no call throws.
  pub reindex_all-IsExact :
      (reconcile : Option (S.State → String → S.State × Bool)) (docs : List Doc) (s : S.State)
      (a b c : ℕ)
      → (reindex_all S true reconcile docs s).1 ≡ counts a b c
      → IsExact reconcile docs s (reindex_all S true reconcile docs s).0
  reindex_all-IsExact reconcile docs s a b c h = elim (Option-cases (exported S true s)) [
    | inl thrown ↦ absurd (
        not_counts reconcile docs s a b c
          (sym (ap (λ x. x.1) (reindex_lem reconcile docs s none thrown)) ∙ h))
    | inr (existing, e) ↦
        let same = reindex_lem reconcile docs s (some existing) e in
        let (desired, read, is_replaced) =
          rebuild_done reconcile existing docs s a b c (desired_ids S [] docs) refl
            (sym (ap (λ x. x.1) same) ∙ h) in
        let (imported, deleted, world) =
          replaced_done reconcile existing desired docs (import_all S s docs) a b c
            (sym (ap (λ x. x.1) (same ∙ is_replaced)) ∙ h) in
        let is_read : IsRead s docs existing desired = record {
          listed = exported_listed s existing e;
          wanted = λ j. desired_ids-has S docs [] desired j read;
        } in
        record {
          rebuilt = (delete_all S (import_all S s docs).0 (stale_ids S existing desired)).0;
          exact = λ id. exact_find s docs existing desired is_read imported deleted id;
          ids = union_ids S existing desired;
          follows =
              subst
                (λ s'.
                  Follows reconcile (union_ids S existing desired)
                    (delete_all S (import_all S s docs).0 (stale_ids S existing desired)).0 s')
                (sym (ap (λ x. x.0) (same ∙ is_replaced))) world;
          had = λ id d there.
              union_ids-keeps desired existing id (exported_listed s existing e id d there);
          given = λ id wanted.
              union_ids-has desired existing id
                (desired_ids-has S docs [] desired id read ∙ ground (arith, wanted));
        }
  ]
