-- ===== src/Mls/Persistence/Gates.antt =====
-- The branches of processPropertyRecord for a listing that is stored.
use frontstead_kit.Prelude.{
  ◌≡◌, ◌≢◌, ◌⊎◌, inl, inr, Bool-cases, refl, String, true, false, Option, none, some, ◌∙◌, ap,
}
use frontstead_kit.Db.{find-put_self, find-put_other}
use frontstead_kit.Search.Collection.{withdrawn}
use frontstead_kit.Search.Indexing.{ListingRow, delete_document}
use frontstead_kit.Mls.Value.{Record, str, is_off}
use frontstead_kit.Mls.Metrics.{Processed, result, removed}
use frontstead_kit.Mls.Persistence.Write.{Environment, Database, existing_listing}
use frontstead_kit.Mls.Persistence.Process.{
  pre_delete, reconcile_property_search, reconciliation_failed, after_reconciling, write_record,
  withdraw, upsert_property_and_listing, remove_listing, process_property_record, can_view,
}

module _ {Number : Type 0} (E : Environment Number) where
  pub after_reconciling_world :
      (key : String) (p : Processed) (x : Database E × Option String)
      → (after_reconciling E key p x).0 ≡ x.0
  after_reconciling_world key p (w, none) = refl
  after_reconciling_world key p (w, some message) = refl

  after_reconciling_outcome :
      (key : String) (p : Processed) (x : Database E × Option String)
      → ((after_reconciling E key p x).1 ≡ p)
        ⊎ ((after_reconciling E key p x).1 ≡ reconciliation_failed key "post-commit")
  after_reconciling_outcome key p (w, none) = inl refl
  after_reconciling_outcome key p (w, some message) = inr refl

  reconciled_listings :
      E.is_typesense_configured ≡ true
      → (p : String) (w : Database E) → (reconcile_property_search E p w).0.listings ≡ w.listings
  unfolding reconcile_property_search
  reconciled_listings configured p w = rw configured refl

module _ {Number : Type 0} (E : Environment Number) (r : Record) (w : Database E) (key id : String)
    (l : ListingRow Number) (present : str (r "ListingKey") ≡ some key)
    (keyed : E.L.id_of_key w.listings key ≡ some id)
    (stored : E.L.T.find w.listings id ≡ some l) where
  existing_lem : existing_listing E w.listings key ≡ (id, some l)
  existing_lem = rw (existing_listing, keyed, stored) refl

  remove_lem : remove_listing E r w ≡ withdraw E key id l (pre_delete E (some l.property_id) w)
  unfolding remove_listing
  remove_lem = rw (remove_listing, present, existing_lem) refl

  upsert_lem :
      upsert_property_and_listing E r w ≡ write_record E r key (pre_delete E (some l.property_id) w)
  unfolding upsert_property_and_listing
  upsert_lem = rw (upsert_property_and_listing, present, existing_lem) refl

  module _ (configured : E.is_typesense_configured ≡ true) where
    pre_delete_lem :
        (o : Option String)
        → (delete_document E.S w.documents l.property_id).1 ≡ o
        → pre_delete E (some l.property_id) w
          ≡ (record w { documents = (delete_document E.S w.documents l.property_id).0 }, o)
    unfolding pre_delete
    pre_delete_lem o e = rw (configured, e) refl

    -- When the document of a stored listing's property cannot be deleted beforehand, the record is
    -- neither written nor removed: the database stays as it is, and what is thrown is a failure of
    -- the search index in the phase pre-delete.
    pub process_property_record_refused :
        (message : String)
        → (delete_document E.S w.documents l.property_id).1 ≡ some message
        → let (w', p) = process_property_record E r w in
          (w'.properties ≡ w.properties)
          × (w'.listings ≡ w.listings)
          × (w'.rest ≡ w.rest)
          × (p ≡ reconciliation_failed key "pre-delete")
    unfolding process_property_record
    process_property_record_refused message e =
        elim (Bool-cases (is_off (can_view E E.viewable_flag_field r))) [
          | inl off ↦
              rw (process_property_record, off, remove_lem, pre_delete_lem (some message) e)
                (refl, refl, refl, refl)
          | inr on ↦
              rw (process_property_record, on, upsert_lem, pre_delete_lem (some message) e)
                (refl, refl, refl, refl)
        ]

    -- A record whose viewable flag is off, once the document of its listing's property is deleted,
    -- leaves the listing withdrawn and every other listing as it is, whether the reconciliation that
    -- follows succeeds or not; the outcome is `removed` or a failure in the phase post-commit.
    pub process_property_record_withdraws :
        is_off (can_view E E.viewable_flag_field r) ≡ true
        → (delete_document E.S w.documents l.property_id).1 ≡ none
        → let (w', p) = process_property_record E r w in
          (E.L.T.find w'.listings id
            ≡ some (record l { columns = record l.columns { status = withdrawn } }))
          × ((j : String) → id ≢ j → E.L.T.find w'.listings j ≡ E.L.T.find w.listings j)
          × ((p ≡ result removed false) ⊎ (p ≡ reconciliation_failed key "post-commit"))
    unfolding process_property_record
    process_property_record_withdraws off e =
        let row = record l { columns = record l.columns { status = withdrawn } } in
        let documents = (delete_document E.S w.documents l.property_id).0 in
        let w' = record w { documents = documents; listings = E.L.T.put w.listings id row } in
        let x = reconcile_property_search E l.property_id w' in
        let same =
          ap (λ v. v.listings) (after_reconciling_world E key (result removed false) x)
          ∙ reconciled_listings E configured l.property_id w' in
        rw (process_property_record, off, remove_lem, pre_delete_lem none e)
          (
            ap (λ s. E.L.T.find s id) same ∙ find-put_self E.L.T w.listings id row,
            λ j h. ap (λ s. E.L.T.find s j) same ∙ find-put_other E.L.T w.listings id j row h,
            after_reconciling_outcome E key (result removed false) x,
          )
