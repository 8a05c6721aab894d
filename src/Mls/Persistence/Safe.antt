-- ===== src/Mls/Persistence/Safe.antt =====
-- The search index while property records are processed.
use mathlib.Core.Path.{subst}
use frontstead_kit.Prelude.{
  String, true, false, Option, none, some, ◌≡◌, inl, inr, refl, sym, ◌∙◌, ap, Option-cases,
  Bool-cases,
}
use frontstead_kit.Search.Collection.{withdrawn}
use frontstead_kit.Search.Indexing.{ListingRow, delete_document}
use frontstead_kit.Search.Indexing.Safe.{delete_away, put-IsSafe, absent_away}
use frontstead_kit.Mls.Value.{Record, str, is_off}
use frontstead_kit.Mls.Metrics.{result, removed}
use frontstead_kit.Mls.Persistence.Write.{Environment, Database, Ls, existing_listing, property_of}
use frontstead_kit.Mls.Persistence.Process.{
  display_env, pre_delete, withdraw, remove_existing, upsert_property_and_listing, remove_listing,
  process_property_record, can_view,
}
pub use frontstead_kit.Mls.Persistence.Written.{IsSound}
use frontstead_kit.Mls.Persistence.Written.{
  pre_delete-IsSound, reconciled-IsSound, weaker, write_record-IsSound,
}

module _ {Number : Type 0} (E : Environment Number)
    (configured : E.is_typesense_configured ≡ true) where
  pre_delete_configured :
      (p : String) (w : Database E)
      → pre_delete E (some p) w ≡ (
        record w { documents = (delete_document E.S w.documents p).0 },
        (delete_document E.S w.documents p).1,
      )
  unfolding pre_delete
  pre_delete_configured p w = rw configured refl

  pre_delete_listings :
      (p : Option String) (w : Database E) → (pre_delete E p w).0.listings ≡ w.listings
  unfolding pre_delete
  pre_delete_listings none w = refl
  pre_delete_listings (some p) w = ap (λ x. x.0.listings) (pre_delete_configured p w)

  -- Once the document of a listing's property is deleted, nothing shows the listing.
  pre_delete_away :
      (id : String) (existing : Option (ListingRow Number)) (w : Database E)
      → E.L.T.find w.listings id ≡ existing
      → IsSound E configured none w
      → (pre_delete E (property_of E existing) w).1 ≡ none
      → IsSound E configured (some id) (pre_delete E (property_of E existing) w).0
  unfolding pre_delete
  pre_delete_away id none w e safe h =
      absent_away E.S E.P.T E.L (display_env E.public_display_enabled) w.listings w.documents id e
        safe
  pre_delete_away id (some l) w e safe h = rw configured (
      delete_away E.S E.P.T E.L (display_env E.public_display_enabled) w.listings w.documents id l e
        (sym (ap (λ x. x.1) (pre_delete_configured l.property_id w)) ∙ h) safe)

  existing_listing-find :
      (ls : Ls E) (key : String)
      → E.L.T.find ls (existing_listing E ls key).0 ≡ (existing_listing E ls key).1
  existing_listing-find ls key = elim (Option-cases (E.L.id_of_key ls key)) [
    | inl absent ↦ rw (existing_listing, absent) (E.L.fresh-find ls)
    | inr (id, stored) ↦ rw (existing_listing, stored) refl
  ]

  keyed_away :
      (key : String) (w : Database E)
      → IsSound E configured none w
      → let x = pre_delete E (property_of E (existing_listing E w.listings key).1) w in
        x.1 ≡ none → IsSound E configured (some (existing_listing E x.0.listings key).0) x.0
  keyed_away key w safe h =
      let (id, existing) = existing_listing E w.listings key in
      subst
        (λ ls.
          IsSound E configured (some (existing_listing E ls key).0)
            (pre_delete E (property_of E existing) w).0)
        (sym (pre_delete_listings (property_of E existing) w))
        (pre_delete_away id existing w (existing_listing-find w.listings key) safe h)

  upsert-IsSound :
      (r : Record) (w : Database E)
      → IsSound E configured none w
      → IsSound E configured none (upsert_property_and_listing E r w).0
  unfolding upsert_property_and_listing
  upsert-IsSound r w safe = elim (Option-cases (str (r "ListingKey"))) [
    | inl absent ↦ rw (upsert_property_and_listing, absent) safe
    | inr (key, present) ↦
        rw (upsert_property_and_listing, present)
          (write_record-IsSound E configured r key
            (pre_delete E (property_of E (existing_listing E w.listings key).1) w)
            (keyed_away key w safe)
            (pre_delete-IsSound E configured (property_of E (existing_listing E w.listings key).1) w
              safe))
  ]

  withdraw-IsSound :
      (key id : String) (l : ListingRow Number) (x : Database E × Option String)
      → (x.1 ≡ none → IsSound E configured (some id) x.0)
      → IsSound E configured none x.0
      → IsSound E configured none (withdraw E key id l x).0
  withdraw-IsSound key id l (w, some message) away safe = safe
  withdraw-IsSound key id l (w, none) away safe =
      let row = record l { columns = record l.columns { status = withdrawn } } in
      let w' = record w { listings = E.L.T.put w.listings id row } in
      reconciled-IsSound E configured key l.property_id (result removed false) w' (
        weaker E configured (some id) w' (
          put-IsSafe E.S E.P.T E.L (display_env E.public_display_enabled) w.listings w.documents id
            row (away refl)))

  remove_existing-IsSound :
      (key id : String) (w : Database E) (existing : Option (ListingRow Number))
      → E.L.T.find w.listings id ≡ existing
      → IsSound E configured none w
      → IsSound E configured none (remove_existing E key w id existing).0
  remove_existing-IsSound key id w none e safe = safe
  remove_existing-IsSound key id w (some l) e safe =
      withdraw-IsSound key id l (pre_delete E (some l.property_id) w)
        (pre_delete_away id (some l) w e safe)
        (pre_delete-IsSound E configured (some l.property_id) w safe)

  remove-IsSound :
      (r : Record) (w : Database E)
      → IsSound E configured none w
      → IsSound E configured none (remove_listing E r w).0
  unfolding remove_listing
  remove-IsSound r w safe = elim (Option-cases (str (r "ListingKey"))) [
    | inl absent ↦ rw (remove_listing, absent) safe
    | inr (key, present) ↦
        rw (remove_listing, present)
          (remove_existing-IsSound key (existing_listing E w.listings key).0 w
            (existing_listing E w.listings key).1 (existing_listing-find w.listings key) safe)
  ]

  -- Where Typesense is configured, whatever it, the database and the media answer, processing a
  -- record leaves an index whose every document shows a stored listing of its property that is
  -- active, displayable and, unless public display is enabled, not of the MLS.
  pub process_property_record-IsSound :
      (r : Record) (w : Database E)
      → IsSound E configured none w
      → IsSound E configured none (process_property_record E r w).0
  unfolding process_property_record
  process_property_record-IsSound r w safe =
      elim (Bool-cases (is_off (can_view E E.viewable_flag_field r))) [
        | inl off ↦ rw off (remove-IsSound r w safe)
        | inr on ↦ rw on (upsert-IsSound r w safe)
      ]
