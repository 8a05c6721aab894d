-- ===== src/Mls/Persistence/Process.antt =====
-- The processing of one property record, upsertPropertyAndListing, removeListing and
-- processPropertyRecord of apps/mls-service/src/sync/persistence.ts. The queue of reconciliations
-- of a property runs them one after the other, as here.
use Prim.Native.String.{◌++◌}
use frontstead_kit.Prelude.{
  has_text, String, Bool, true, false, ◌&&◌, ◌-◌, Option, none, some, or_else, str_eq,
  if◌then◌else◌,
}
use frontstead_kit.Search.Collection.{withdrawn}
use frontstead_kit.Search.Indexing.{
  ListingRow, is_active_status, delete_document, reconcile_property_document,
}
use frontstead_kit.Mls.Value.{Value, Record, str, undefined, is_off}
use frontstead_kit.Mls.Metrics.{
  Processed, result, index_error, error, ProcessOutcome, created, updated, removed, skipped,
}
use frontstead_kit.Mls.Persistence.Rows.{build_property_data, build_listing_data, to_raw_data}
use frontstead_kit.Mls.Persistence.Write.{
  Environment, Database, Ps, Ls, WriteOutcome, committed, failed, text_of, MediaOutcome,
  media_result, media_threw, max_slug_attempts, existing_listing, property_of, transaction_body,
  attempt_from,
}

-- SearchIndexReconciliationError
abbrev pub reconciliation_failed : (listing_key phase : String) → Processed
reconciliation_failed listing_key phase =
    index_error
      ("Property search index reconciliation failed during " ++ phase ++ " [" ++ listing_key ++ "]")

abbrev pub is_enabled : Option Bool → Bool
is_enabled (some true) = true
is_enabled (some false) = false
is_enabled none = false

-- `publicDisplayEnabled === true ? 'true' : 'false'`
abbrev pub display_env : Option Bool → Option String
display_env flag = if is_enabled flag then some "true" else some "false"

module _ {Number : Type 0} (E : Environment Number) where
  -- The deletion before a write, with what it throws.
  unfoldable pub pre_delete : Option String → Database E → Database E × Option String
  pre_delete none w = (w, none)
  pre_delete (some property_id) w =
      let (documents, thrown) = delete_document E.S w.documents property_id in
      if E.is_typesense_configured then (record w { documents = documents }, thrown) else (w, none)

  unfoldable pub reconcile_property_search : String → Database E → Database E × Option String
  reconcile_property_search property_id w =
      let (documents, thrown) =
        reconcile_property_document E.S E.P.T E.L (display_env E.public_display_enabled)
          w.properties w.listings w.documents property_id in
      if E.is_typesense_configured then (record w { documents = documents }, thrown) else (w, none)

  abbrev pub after_reconciling :
      String → Processed → Database E × Option String → Database E × Processed
  after_reconciling key p (w, none) = (w, p)
  after_reconciling key p (w, some message) = (w, reconciliation_failed key "post-commit")

  unfoldable pub is_publicly_visible : ListingRow Number → Bool
  is_publicly_visible l =
      is_enabled E.public_display_enabled
      && l.columns.idx_displayable
      && is_active_status l.columns.status

  abbrev pub set_image : String → Option String → Option (ListingRow Number) → Ls E → Ls E
  set_image id image_url none s = s
  set_image id image_url (some l) s = E.L.T.put s id (record l { image_url = image_url })

  -- The row's `imageUrl` by what the media gave, unless it is the same, and whether the media failed.
  abbrev pub after_media :
      String → Option (ListingRow Number) → Database E → E.Rest × MediaOutcome → Database E × Bool
  after_media id l w (rest, media_threw) = (record w { rest = rest }, true)
  after_media id l w (rest, media_result none changed) = (record w { rest = rest }, false)
  after_media id l w (rest, media_result (some url) false) = (record w { rest = rest }, false)
  after_media id l w (rest, media_result (some url) true) =
      (record w { rest = rest; listings = set_image id (some url) l w.listings }, false)

  abbrev pub is_visible_row : Option (ListingRow Number) → Bool
  is_visible_row none = false
  is_visible_row (some l) = is_publicly_visible l

  -- Photos, behind the gate of public display.
  unfoldable pub ingest_media :
      Record → (key property_id id : String) → Database E → Database E × Bool
  unfolding is_publicly_visible
  ingest_media r key property_id id w =
      let l = E.L.T.find w.listings id in
      let done = after_media id l w (E.sync_property_media r property_id key w.rest) in
      if is_visible_row l && has_text E.access_token && E.is_storage_configured
      then done
      else (w, false)

  abbrev pub outcome_of : Bool → ProcessOutcome
  outcome_of true = created
  outcome_of false = updated

  -- What follows the commit.
  abbrev pub after_commit :
      Record → (key property_id id : String) → Bool → Database E → Database E × Processed
  after_commit r key property_id id is_new w =
      let classified =
        E.classify property_id (or_else E.provider_id "mls") (to_raw_data r) w.rest in
      let (w', media_failed) = ingest_media r key property_id id (record w { rest = classified }) in
      after_reconciling key (result (outcome_of is_new) media_failed)
        (reconcile_property_search property_id w')

  abbrev pub settle_write :
      Record → String → Database E → WriteOutcome (Ps E) (Ls E) → Database E × Processed
  settle_write r key w (failed e) = (w, error (text_of e))
  settle_write r key w (committed property_id id is_new ps ls) =
      after_commit r key property_id id is_new (record w { properties = ps; listings = ls })

  abbrev pub write_record : Record → String → Database E × Option String → Database E × Processed
  write_record r key (w, some message) = (w, reconciliation_failed key "pre-delete")
  write_record r key (w, none) = settle_write r key w (
      attempt_from E (max_slug_attempts - 1) 1 (
        transaction_body E w.properties w.listings r key (build_property_data E.builders r)
          (build_listing_data E.builders r)))

  unfoldable pub upsert_property_and_listing : Record → Database E → Database E × Processed
  unfolding pre_delete
  upsert_property_and_listing r w = elim (str (r "ListingKey")) [
    | none ↦ (w, result skipped false)
    | some key ↦
        write_record r key (pre_delete (property_of E (existing_listing E w.listings key).1) w)
  ]

  abbrev pub withdraw :
      String → String → ListingRow Number → Database E × Option String → Database E × Processed
  withdraw key id l (w, some message) = (w, reconciliation_failed key "pre-delete")
  withdraw key id l (w, none) =
      let ls =
        E.L.T.put w.listings id (record l { columns = record l.columns { status = withdrawn } }) in
      after_reconciling key (result removed false)
        (reconcile_property_search l.property_id (record w { listings = ls }))

  abbrev pub remove_existing :
      String → Database E → String → Option (ListingRow Number) → Database E × Processed
  remove_existing key w id none = (w, result skipped false)
  remove_existing key w id (some l) = withdraw key id l (pre_delete (some l.property_id) w)

  unfoldable pub remove_listing : Record → Database E → Database E × Processed
  unfolding pre_delete
  remove_listing r w = elim (str (r "ListingKey")) [
    | none ↦ (w, result skipped false)
    | some key ↦
        let (id, existing) = existing_listing E w.listings key in remove_existing key w id existing
  ]

  abbrev pub can_view : Option String → Record → Value
  can_view none r = undefined
  can_view (some field) r = if str_eq field "" then undefined else r field

  unfoldable pub process_property_record : Record → Database E → Database E × Processed
  process_property_record r w =
      if is_off (can_view E.viewable_flag_field r)
      then remove_listing r w
      else upsert_property_and_listing r w
