-- ===== src/Mls/Persistence/Written.antt =====
-- The search index while a listing is written.
use frontstead_kit.Prelude.{
  has_text, ℕ, String, Bool, true, false, ◌&&◌, or_else, Option, none, some, ◌≡◌, inl, inr, refl,
  Bool-cases,
}
use frontstead_kit.Search.Indexing.{PropertyData, ListingRow, ListingData}
use frontstead_kit.Search.Indexing.Safe.{
  IsSafe, IsSafe-weaker, reconcile-IsSafe, delete-IsSafe, put-IsSafe,
}
use frontstead_kit.Mls.Value.{Record}
use frontstead_kit.Mls.Metrics.{Processed, result}
use frontstead_kit.Mls.Persistence.Rows.{to_raw_data, build_property_data, build_listing_data}
use frontstead_kit.Mls.Persistence.Write.{
  Environment, Database, Ps, Ls, WriteOutcome, committed, failed, MediaOutcome, media_result,
  media_threw, existing_listing, property_of, transaction_body, attempt_from, write_listing,
  created_listing, resolve_property_id,
}
use frontstead_kit.Mls.Persistence.Attempts.{attempt_from_form}
use frontstead_kit.Mls.Persistence.Process.{
  display_env, pre_delete, reconcile_property_search, after_reconciling, after_media, ingest_media,
  after_commit, settle_write, write_record, set_image, is_visible_row, outcome_of,
}

module _ {Number : Type 0} (E : Environment Number)
    (configured : E.is_typesense_configured ≡ true) where
  -- Every document of the index shows a stored listing of its property that the flag of public
  -- display allows to be shown, other than the one under `away`.
  abbrev pub IsSound : Option String → Database E → Type 0
  IsSound away w =
      IsSafe E.S E.P.T E.L (display_env E.public_display_enabled) away w.listings w.documents

  pub pre_delete-IsSound :
      (p : Option String) (w : Database E) → IsSound none w → IsSound none (pre_delete E p w).0
  unfolding pre_delete
  pre_delete-IsSound none w safe = safe
  pre_delete-IsSound (some p) w safe = rw configured (
      delete-IsSafe E.S E.P.T E.L (display_env E.public_display_enabled) none w.listings w.documents
        p safe)

  after_reconciling_world :
      (key : String) (r : Processed) (x : Database E × Option String)
      → (after_reconciling E key r x).0 ≡ x.0
  after_reconciling_world key r (w, none) = refl
  after_reconciling_world key r (w, some message) = refl

  pub reconciled-IsSound :
      (key p : String) (r : Processed) (w : Database E)
      → IsSound none w
      → IsSound none (after_reconciling E key r (reconcile_property_search E p w)).0
  unfolding reconcile_property_search
  reconciled-IsSound key p r w safe =
      rw (after_reconciling_world key r (reconcile_property_search E p w), configured)
        (reconcile-IsSafe E.S E.P.T E.L (display_env E.public_display_enabled) w.properties
          w.listings w.documents p safe)

  set_image-IsSound :
      (id : String) (url : Option String) (l : Option (ListingRow Number)) (w : Database E)
      → IsSound (some id) w
      → IsSound (some id) (record w { listings = set_image E id url l w.listings })
  set_image-IsSound id url none w safe = safe
  set_image-IsSound id url (some l) w safe =
      put-IsSafe E.S E.P.T E.L (display_env E.public_display_enabled) w.listings w.documents id
        (record l { image_url = url }) safe

  after_media-IsSound :
      (id : String) (l : Option (ListingRow Number)) (w : Database E) (x : E.Rest × MediaOutcome)
      → IsSound (some id) w
      → IsSound (some id) (after_media E id l w x).0
  after_media-IsSound id l w (rest, media_threw) safe = safe
  after_media-IsSound id l w (rest, media_result none changed) safe = safe
  after_media-IsSound id l w (rest, media_result (some url) false) safe = safe
  after_media-IsSound id l w (rest, media_result (some url) true) safe =
      set_image-IsSound id (some url) l w safe

  media-IsSound :
      (r : Record) (key p id : String) (w : Database E)
      → IsSound (some id) w
      → IsSound (some id) (ingest_media E r key p id w).0
  unfolding ingest_media
  media-IsSound r key p id w safe =
      elim (Bool-cases (
        is_visible_row E (E.L.T.find w.listings id)
        && has_text E.access_token
        && E.is_storage_configured)) [
          | inl visible ↦ rw visible (
              after_media-IsSound id (E.L.T.find w.listings id) w
                (E.sync_property_media r p key w.rest) safe)
          | inr hidden ↦ rw hidden safe
        ]

  pub weaker : (away : Option String) (w : Database E) → IsSound away w → IsSound none w
  weaker away w safe =
      IsSafe-weaker E.S E.P.T E.L (display_env E.public_display_enabled) away w.listings w.documents
        safe

  after_commit-IsSound :
      (r : Record) (key p id : String) (is_new : Bool) (w : Database E)
      → IsSound (some id) w
      → IsSound none (after_commit E r key p id is_new w).0
  after_commit-IsSound r key p id is_new w safe =
      let w' = record w {
        rest = E.classify p (or_else E.provider_id "mls") (to_raw_data r) w.rest;
      } in
      let m = ingest_media E r key p id w' in
      reconciled-IsSound key p (result (outcome_of E is_new) m.1) m.0
        (weaker (some id) m.0 (media-IsSound r key p id w' safe))

  -- An outcome whose commit writes the listing's row under `id` and no other.
  abbrev Writes : Ls E → String → WriteOutcome (Ps E) (Ls E) → Type 0
  Writes ls id (failed e) = Unit
  Writes ls id (committed p id' is_new ps ls') =
      (id' ≡ id) × ((row : ListingRow Number) × (ls' ≡ E.L.T.put ls id row))

  written_IsSound :
      (r : Record) (key id : String) (w : Database E) (p : String) (is_new : Bool) (ps : Ps E)
      (row : ListingRow Number)
      → IsSound (some id) w
      → IsSound none
          (settle_write E r key w (committed p id is_new ps (E.L.T.put w.listings id row))).0
  written_IsSound r key id w p is_new ps row safe =
      after_commit-IsSound r key p id is_new
        (record w { properties = ps; listings = E.L.T.put w.listings id row })
        (put-IsSafe E.S E.P.T E.L (display_env E.public_display_enabled) w.listings w.documents id
          row safe)

  settle_write-IsSound :
      (r : Record) (key id : String) (w : Database E) (o : WriteOutcome (Ps E) (Ls E))
      → IsSound (some id) w
      → Writes w.listings id o
      → IsSound none (settle_write E r key w o).0
  settle_write-IsSound r key id w (failed e) safe writes = weaker (some id) w safe
  settle_write-IsSound r key id w (committed p id' is_new ps ls) safe (same, (row, put)) =
      rw (same, put) (written_IsSound r key id w p is_new ps row safe)

  write_listing-Writes :
      (ls : Ls E) (key : String) (p : PropertyData Number) (columns : ListingData Number)
      (id : String) (existing : Option (ListingRow Number)) (resolved : Option (Ps E × String))
      → Writes ls id (write_listing E ls key p columns id existing resolved)
  write_listing-Writes ls key p columns id existing none = tt
  write_listing-Writes ls key p columns id none (some (ps, property_id)) =
      (refl, (created_listing E ls key property_id p columns, refl))
  write_listing-Writes ls key p columns id (some l) (some (ps, property_id)) =
      (refl, (record l { property_id = property_id; columns = columns }, refl))

  body-Writes :
      (ps : Ps E) (ls : Ls E) (r : Record) (key : String) (p : PropertyData Number)
      (columns : Option (ListingData Number))
      → Writes ls (existing_listing E ls key).0 (transaction_body E ps ls r key p columns)
  unfolding transaction_body
  body-Writes ps ls r key p none = tt
  body-Writes ps ls r key p (some columns) =
      let (id, existing) = existing_listing E ls key in
      write_listing-Writes ls key p columns id existing
        (resolve_property_id E ps r p (property_of E existing))

  attempt-Writes :
      (left n : ℕ) (ls : Ls E) (id : String) (o : WriteOutcome (Ps E) (Ls E))
      → Writes ls id o
      → Writes ls id (attempt_from E left n o)
  attempt-Writes left n ls id o writes = elim (attempt_from_form E left n o) [
    | inl same ↦ rw same writes
    | inr (e, f) ↦ rw f tt
  ]

  pub write_record-IsSound :
      (r : Record) (key : String) (x : Database E × Option String)
      → (x.1 ≡ none → IsSound (some (existing_listing E x.0.listings key).0) x.0)
      → IsSound none x.0
      → IsSound none (write_record E r key x).0
  write_record-IsSound r key (w', some message) away safe = safe
  write_record-IsSound r key (w', none) away safe =
      settle_write-IsSound r key (existing_listing E w'.listings key).0 w'
        (attempt_from E 7 1 (
          transaction_body E w'.properties w'.listings r key (build_property_data E.builders r)
            (build_listing_data E.builders r)))
        (away refl)
        (attempt-Writes 7 1 w'.listings (existing_listing E w'.listings key).0
          (transaction_body E w'.properties w'.listings r key (build_property_data E.builders r)
            (build_listing_data E.builders r))
          (body-Writes w'.properties w'.listings r key (build_property_data E.builders r)
            (build_listing_data E.builders r)))
