-- ===== src/Mls/Persistence/Examples.antt =====
-- Two listings that are ingested, and one that is withdrawn.
use frontstead_kit.Prelude.{
  ℕ, ◌≡◌, ◌≤◌, ◌<◌, ◌⊎◌, ◌==◌, refl, inl, ap, sym, String, Bool, true, false, none, some, [], ◌∷◌,
  arith, str_eq, if◌then◌else◌,
}
use frontstead_kit.Db.{finite_map, Table}
use frontstead_kit.Db.Slugs.{
  generate_property_slug, generate_unique_property_slug, numbered, includes_slug,
}
use frontstead_kit.Db.Slugs.Fresh.{generate_unique_property_slug-fresh}
use frontstead_kit.Search.Collection.{active, mls}
use frontstead_kit.Search.Indexing.{PropertyRow, ListingRow, ListingData, delete_document}
use frontstead_kit.Search.Indexing.Finite.{
  list_table, finite_listings, finite_typesense, failing_typesense, all_ids, select, drop_row,
}
use frontstead_kit.Mls.Value
use frontstead_kit.Mls.Value.{Value, Record, undefined, text, bool, str, is_off}
use frontstead_kit.Mls.Metrics.{Failure, page, finished, World}
use frontstead_kit.Mls.Persistence.Rows.{Builders}
use frontstead_kit.Mls.Persistence.Write as Write
use frontstead_kit.Mls.Persistence.Write.{
  Environment, Properties, DbError, known, media_threw, Store, committed, failed, attempt_from,
}
use frontstead_kit.Mls.Persistence.Attempts.{Contended, attempt_from_bound}
use frontstead_kit.Mls.Persistence.Process.{process_property_record, reconciliation_failed}
use frontstead_kit.Mls.Persistence.Safe.{IsSound, process_property_record-IsSound}
use frontstead_kit.Mls.Persistence.Gates.{process_property_record_refused}
use frontstead_kit.Mls.Persistence.Run.{property_run, property_run-IsSound}

abbrev builders : Builders ℕ
builders = record {
  num = λ v. none;
  int = λ v. none;
  normalize_subdivision = λ v. none;
  parse_date = λ s. none;
  stringify = λ r. "{}";
  prefix = some "ACT";
}

abbrev has_parcel : String → PropertyRow ℕ → Bool
has_parcel parcel p = elim p.parcel_id [ none ↦ false | some id ↦ str_eq id parcel ]

abbrev properties : Properties ℕ
properties = record {
  T = list_table (PropertyRow ℕ);
  id_of_parcel = λ s parcel. drop_row (select s (has_parcel parcel) s);
  fresh = λ s. all_ids s;
}

abbrev conflict : DbError
conflict = known "P2002" none (some ("slug" ∷ []))

-- The first attempt is refused for its slug.
abbrev service : Environment ℕ
service = record {
  builders = builders;
  P = properties;
  L = finite_listings;
  S = finite_typesense;
  Rest = ℕ;
  is_typesense_configured = true;
  is_storage_configured = true;
  provider_id = none;
  mls_board_id = "actris";
  access_token = none;
  public_display_enabled = some true;
  viewable_flag_field = some "MlgCanView";
  now = 0;
  refuses = λ n. if n == 1 then some conflict else none;
  classify = λ id provider r n. n;
  sync_property_media = λ r id key n. (n, media_threw);
}

abbrev columns : ListingData ℕ
columns = record {
  mls_id = some "1";
  list_price = none;
  status = active;
  list_date = none;
  description = none;
  listing_agent_name = none;
  listing_agent_email = none;
  listing_agent_phone = none;
  brokerage_name = none;
  brokerage_phone = none;
  bedrooms = none;
  bathrooms = none;
  square_feet = none;
  raw_data = "{}";
  idx_displayable = true;
}

abbrev stored : ListingRow ℕ
stored = record {
  property_id = "p1";
  source = mls;
  mls_board_id = some "actris";
  listing_key = some "K1";
  slug = some "12-main-st-austin-tx";
  image_url = none;
  columns = columns;
}

abbrev home : PropertyRow ℕ
home = record {
  parcel_id = none;
  created_at = 0;
  columns = record {
    address = "12 Main St";
    city = "Austin";
    state = "TX";
    zip_code = "78701";
    latitude = none;
    longitude = none;
    property_type = none;
    bedrooms = none;
    bathrooms = none;
    square_feet = none;
    lot_size = none;
    year_built = none;
    subdivision = none;
  };
}

abbrev start : Write.Database service
start = record {
  properties = ("p1", home) ∷ [];
  listings = ("l1", stored) ∷ [];
  documents = λ j. none;
  rest = 0;
}

abbrev gone : Record
gone key =
    if str_eq key "ListingKey"
    then text "K1"
    else if str_eq key "MlgCanView"
    then bool false
    else undefined

abbrev new_home : Record
new_home key =
    if str_eq key "ListingKey"
    then text "K2"
    else if str_eq key "StandardStatus"
    then text "Active"
    else if str_eq key "UnparsedAddress"
    then text "12  Main St"
    else undefined

absurd_row : {A : Type 0} (a : A) → none ≡ some a → ⊥
absurd_row a e = ground (arith, e)

start-IsSound : IsSound service refl none start
start-IsSound = record { shown = λ p d e. absurd (absurd_row d e) }

process_property_record-IsSound_example :
    IsSound service refl none (process_property_record service new_home start).0
process_property_record-IsSound_example =
    process_property_record-IsSound service refl new_home start start-IsSound

abbrev failures : Table Failure
failures = finite_map Failure

abbrev world : World failures.State (Write.Database service)
world = record { failures = λ id. none; store = start; cursor = none }

property_run-IsSound_example :
    IsSound service refl none
      (property_run failures service
        (λ s. none)
        0
        none
        "mls"
        true
        (λ s. [])
        (λ since. page (new_home ∷ gone ∷ []) finished)
        []
        world).store
property_run-IsSound_example =
    property_run-IsSound failures service refl (λ s. none) 0 none "mls" true (λ s. [])
      (λ since. page (new_home ∷ gone ∷ []) finished) [] world start-IsSound

first : (k : ℕ) → 1 ≤ k → k < 2 → 1 ≡ k
first k low high = omega (arith, low, high)

contended : Contended service 1 2
unfolding Write.is_slug_conflict Write.slug_conflict_fields
contended = record {
  conflict = λ k low high. (conflict, ap service.refuses (sym (first k low high)), refl);
}

attempt_from_bound_example :
    attempt_from service 7 1 (committed "p1" "l1" false start.properties start.listings)
    ≡ committed "p1" "l1" false start.properties start.listings
attempt_from_bound_example =
    attempt_from_bound service "p1" "l1" false start.properties start.listings 2 (omega arith)
      (omega arith) contended (inl refl)

key_test : str (gone "ListingKey") ≡ some "K1"
unfolding str Value.trim Value.trim_start Value.trim_end Value.is_space
key_test = refl

abbrev broken_service : Environment ℕ
broken_service = record service { S = failing_typesense }

process_property_record_refused_example :
    let (w', p) = process_property_record broken_service gone start in
    (w'.properties ≡ start.properties)
    × (w'.listings ≡ start.listings)
    × (w'.rest ≡ start.rest)
    × (p ≡ reconciliation_failed "K1" "pre-delete")
unfolding delete_document
process_property_record_refused_example =
    process_property_record_refused broken_service gone start "K1" "l1" stored key_test refl refl
      refl "timeout" refl

generate_unique_property_slug-fresh_example :
    let slug =
      generate_unique_property_slug "12 Main St" "Austin" "TX" ("12-main-st-austin-tx" ∷ []) in
    let base = generate_property_slug "12 Main St" "Austin" "TX" in
    (includes_slug ("12-main-st-austin-tx" ∷ []) slug ≡ false)
    × ((slug ≡ base) ⊎ ((n : ℕ) × (1 ≤ n) × (slug ≡ numbered base n)))
generate_unique_property_slug-fresh_example =
    generate_unique_property_slug-fresh "12 Main St" "Austin" "TX" ("12-main-st-austin-tx" ∷ [])
