-- ===== src/Mls/Persistence/Write.antt =====
-- The transaction that writes a property and its listing, with its retries: resolvePropertyId,
-- uniqueSlug and upsertPropertyAndListing of apps/mls-service/src/sync/persistence.ts. What
-- JavaScript and the modules beside it do to a value, the tables, the search service, the media and
-- the classification of a property are the fields of `Environment`.
use frontstead_kit.Prelude.{
  ℕ, zero, suc, ◌+◌, String, Bool, true, false, ◌&&◌, Option, none, some, List, [], any, is_some,
  str_eq, if◌then◌else◌,
}
use frontstead_kit.Db.{Table}
use frontstead_kit.Db.Slugs.{generate_property_slug, generate_unique_property_slug}
use frontstead_kit.Search.Collection.{mls}
use frontstead_kit.Search.Indexing.{
  PropertyRow, PropertyData, ListingRow, ListingData, Listings, Typesense,
}
use frontstead_kit.Mls.Value.{Record, str}
use frontstead_kit.Mls.Persistence.Rows.{Builders}

-- An error of the database: `code` and `meta.target` of a known request error, and the fields that
-- the adapter nests, or any other error.
pub data DbError : Type 0 where
  known : (code : String) → (target adapter : Option (List String)) → DbError
  other : String → DbError

-- slugConflictFields
unfoldable pub slug_conflict_fields : Option (List String) → Option (List String) → List String
slug_conflict_fields (some target) adapter = target
slug_conflict_fields none (some fields) = fields
slug_conflict_fields none none = []

unfoldable pub is_slug_conflict : DbError → Bool
unfolding slug_conflict_fields
is_slug_conflict (known code target adapter) =
    str_eq code "P2002" && any (str_eq "slug") (slug_conflict_fields target adapter)
is_slug_conflict (other message) = false

abbrev pub text_of : DbError → String
text_of (known code target adapter) = code
text_of (other message) = message

abbrev pub max_slug_attempts : ℕ
max_slug_attempts = 8

-- What syncPropertyMedia resolves to, or throws.
pub data MediaOutcome : Type 0 where
  media_result : (image_url : Option String) → (changed : Bool) → MediaOutcome
  media_threw : MediaOutcome

-- The table of properties: by id and by its unique parcel.
pub record Properties (Number : Type 0) : Type 1 where
  pub T : Table (PropertyRow Number)
  pub id_of_parcel : T.State → String → Option String
  pub fresh : T.State → String

pub record Environment (Number : Type 0) : Type 1 where
  pub builders : Builders Number
  pub P : Properties Number
  pub L : Listings Number
  pub S : Typesense Number
  -- the rest of the database and the object store
  pub Rest : Type 0
  pub is_typesense_configured : Bool
  pub is_storage_configured : Bool
  pub provider_id : Option String
  pub mls_board_id : String
  pub access_token : Option String
  pub public_display_enabled : Option Bool
  pub viewable_flag_field : Option String
  pub now : ℕ
  -- what stops the commit of the n-th transaction, if anything
  pub refuses : ℕ → Option DbError
  -- classifyIngestedProperty; what it throws is dropped
  pub classify : String → String → Record → Rest → Rest
  pub sync_property_media : Record → String → String → Rest → Rest × MediaOutcome

pub record Store (Properties_ Listings_ Documents Rest : Type 0) : Type 0 where
  pub properties : Properties_
  pub listings : Listings_
  pub documents : Documents
  pub rest : Rest

-- What a transaction commits, or the error that rolls it back.
pub data WriteOutcome (Properties_ Listings_ : Type 0) : Type 0 where
  committed :
      (property_id listing_id : String)
      → (is_new : Bool) → Properties_
      → Listings_
      → WriteOutcome Properties_ Listings_
  failed : DbError → WriteOutcome Properties_ Listings_

module _ {Number : Type 0} (E : Environment Number) where
  abbrev pub Ps : Type 0
  Ps = Table.State E.P.T

  abbrev pub Ls : Type 0
  Ls = Table.State E.L.T

  abbrev pub Database : Type 0
  Database = Store Ps Ls (Typesense.State E.S) E.Rest

  abbrev pub new_property : Option String → PropertyData Number → PropertyRow Number
  new_property parcel_id columns = record {
    parcel_id = parcel_id;
    created_at = E.now;
    columns = columns;
  }

  -- `update`, whose missing row is an error P2025 of the database.
  abbrev pub update_property : Ps → String → PropertyData Number → Option (Ps × String)
  update_property s id columns = elim (E.P.T.find s id) [
    | none ↦ none
    | some p ↦ some (E.P.T.put s id (record p { columns = columns }), id)
  ]

  abbrev pub create_property : Ps → Option String → PropertyData Number → Option (Ps × String)
  create_property s parcel_id columns =
      some (E.P.T.put s (E.P.fresh s) (new_property parcel_id columns), E.P.fresh s)

  -- `upsert` by the parcel.
  abbrev pub upsert_property : Ps → String → PropertyData Number → Option (Ps × String)
  upsert_property s parcel columns = elim (E.P.id_of_parcel s parcel) [
    | none ↦ create_property s (some parcel) columns
    | some id ↦ update_property s id columns
  ]

  -- The last two ways of resolvePropertyId.
  abbrev pub anchor : Ps → PropertyData Number → Option String → Option (Ps × String)
  anchor s columns none = create_property s none columns
  anchor s columns (some id) = update_property s id columns

  unfoldable pub resolve_property_id :
      Ps → Record → PropertyData Number → Option String → Option (Ps × String)
  resolve_property_id s r columns existing = elim (str (r "ParcelNumber")) [
    | none ↦ anchor s columns existing
    | some parcel ↦
        if is_some (str (r "UnitNumber"))
        then anchor s columns existing
        else upsert_property s parcel columns
  ]

  unfoldable pub unique_slug : Ls → (address city state : String) → String
  unique_slug s address city state =
      generate_unique_property_slug address city state
        (E.L.slugs_with s (generate_property_slug address city state))

  abbrev pub missing_row : DbError
  missing_row = known "P2025" none none

  abbrev pub created_listing :
      Ls → String → String → PropertyData Number → ListingData Number → ListingRow Number
  created_listing s key property_id p columns = record {
    property_id = property_id;
    source = mls;
    mls_board_id = some E.mls_board_id;
    listing_key = some key;
    slug = some (unique_slug s p.address p.city p.state);
    image_url = none;
    columns = columns;
  }

  -- The write of the listing, once its property is resolved; `existing` is the row under `id`.
  abbrev pub write_listing :
      Ls
      → String
      → PropertyData Number
      → ListingData Number
      → (id : String) → Option (ListingRow Number)
      → Option (Ps × String)
      → WriteOutcome Ps Ls
  write_listing ls key p columns id existing none = failed missing_row
  write_listing ls key p columns id none (some (ps, property_id)) =
      committed property_id id true ps
        (E.L.T.put ls id (created_listing ls key property_id p columns))
  write_listing ls key p columns id (some l) (some (ps, property_id)) =
      committed property_id id false ps
        (E.L.T.put ls id (record l { property_id = property_id; columns = columns }))

  -- The existing listing of a key, `existing`, with the id under which it is or will be stored.
  abbrev pub existing_listing : Ls → String → String × Option (ListingRow Number)
  existing_listing s key = elim (E.L.id_of_key s key) [
    | none ↦ (E.L.fresh s, none)
    | some id ↦ (id, E.L.T.find s id)
  ]

  abbrev pub property_of : Option (ListingRow Number) → Option String
  property_of none = none
  property_of (some l) = some l.property_id

  -- The body of the transaction; `columns` is `none` where the client refuses them.
  unfoldable pub transaction_body :
      Ps
      → Ls
      → Record
      → String
      → PropertyData Number
      → Option (ListingData Number)
      → WriteOutcome Ps Ls
  unfolding resolve_property_id
  transaction_body ps ls r key p none = failed (other "Invalid value for argument `status`")
  transaction_body ps ls r key p (some columns) =
      let (id, existing) = existing_listing ls key in
      write_listing ls key p columns id existing (resolve_property_id ps r p (property_of existing))

  -- The n-th transaction, which the database may refuse to commit.
  abbrev pub run_transaction : ℕ → WriteOutcome Ps Ls → WriteOutcome Ps Ls
  run_transaction n (failed e) = failed e
  run_transaction n (committed property_id listing_id is_new ps ls) = elim (E.refuses n) [
    | none ↦ committed property_id listing_id is_new ps ls
    | some e ↦ failed e
  ]

  -- The `catch` of an attempt that is not the last; `again` is what the next attempts come to.
  abbrev pub resume : WriteOutcome Ps Ls → WriteOutcome Ps Ls → WriteOutcome Ps Ls
  resume again (committed property_id listing_id is_new ps ls) =
      committed property_id listing_id is_new ps ls
  resume again (failed e) = if is_slug_conflict e then again else failed e

  -- `for (let attempt = 1; !result; attempt++)`: the attempts that are left, the number of this one.
  -- An attempt that fails leaves the tables as they are, so that each attempt's body is `body`.
  unfoldable pub attempt_from : ℕ → ℕ → WriteOutcome Ps Ls → WriteOutcome Ps Ls
  attempt_from zero attempt body = run_transaction attempt body
  attempt_from (suc left) attempt body =
      let again = attempt_from left (attempt + 1) body in
      resume again (run_transaction attempt body)
