-- ===== src/Mls/Persistence/Media.antt =====
-- The rehosting of a property's photos, syncPropertyMedia of apps/mls-service/src/sync/media.ts. The
-- download and the object store are arguments, and so is `int`, of which orders are natural numbers.
-- The downloads of a chunk are read in the order of the photos, so that the chunks make no
-- difference. Instants are in milliseconds.
pub mod Rehosted
mod Examples
use Prim.Native.String.{◌++◌}
use text.Mathlib.Text.{starts_with}
use frontstead_kit.Prelude.{
  ℕ, ◌+◌, String, Bool, true, false, ◌&&◌, Option, none, some, List, [], ◌∷◌, leb, or_else, is_some,
  str_eq, if◌then◌else◌,
}
use frontstead_kit.Db.Slugs.{decimal}
use frontstead_kit.Mls.Value.{Value, Record, str, date_of}

pub record MediaItem : Type 0 where
  pub media_url : Value
  pub order : Value
  pub short_description : Value

pub record MediaRow : Type 0 where
  pub url : String
  pub order : ℕ
  pub caption : Option String

-- The rows of `Media` and the column `photosSyncedAt`, by property.
pub record MediaState : Type 0 where
  pub media : String → List MediaRow
  pub photos_synced_at : String → Option ℕ

pub record MediaResult : Type 0 where
  pub image_url : Option String
  pub changed : Bool

abbrev pub unchanged : MediaResult
unchanged = record { image_url = none; changed = false }

-- `includes`, of a text that is not empty
unfoldable pub includes_text : String → String → Bool
includes_text String.[] part = false
includes_text (String.◌∷◌ c s) part =
    let later = includes_text s part in if starts_with (String.◌∷◌ c s) part then true else later

unfoldable pub ext_for : String → String
ext_for content_type =
    if includes_text content_type "png"
    then "png"
    else if includes_text content_type "webp"
    then "webp"
    else "jpg"

-- A stable sort by a key, as `Array.prototype.sort` is.
abbrev pub insert_by : {A : Type 0} → (A → ℕ) → A → List A → List A
insert_by key a [] = a ∷ []
insert_by key a (b ∷ bs) = if leb (key a) (key b) then a ∷ b ∷ bs else b ∷ insert_by key a bs

abbrev pub sort_by : {A : Type 0} → (A → ℕ) → List A → List A
sort_by key [] = []
sort_by key (a ∷ rest) = insert_by key a (sort_by key rest)

module _ {Bytes : Type 0} (int : Value → Option ℕ) (parse_date : String → Option ℕ)
    (fetch_image : String → Option (Bytes × String))
    (put_object : (key : String) → Bytes → (content_type : String) → Option String)
    (mls_board_id listing_key : String) (now : ℕ) where
  -- The items with a URL.
  abbrev pub with_url : List MediaItem → List (MediaItem × String)
  with_url [] = []
  with_url (m ∷ items) = elim (str m.media_url) [
    | none ↦ with_url items
    | some url ↦ (m, url) ∷ with_url items
  ]

  abbrev pub ordered : List MediaItem → List (MediaItem × String)
  ordered items = sort_by (λ m. or_else (int m.0.order) 0) (with_url items)

  abbrev pub object_key : ℕ → String → String
  object_key order content_type =
      "mls/"
      ++ mls_board_id
      ++ "/"
      ++ listing_key
      ++ "/"
      ++ decimal order
      ++ "."
      ++ ext_for content_type

  -- One photo, at its position; `none` where the download or the store fails.
  unfoldable pub upload : ℕ → MediaItem × String → Option MediaRow
  upload position (m, url) =
      let order = or_else (int m.order) position in
      elim (fetch_image url) [
        | none ↦ none
        | some (body, content_type) ↦
            elim (put_object (object_key order content_type) body content_type) [
              | none ↦ none
              | some public_url ↦
                  some
                    (record { url = public_url; order = order; caption = str m.short_description })
            ]
      ]

  unfoldable pub upload_all : ℕ → List (MediaItem × String) → List MediaRow
  upload_all position [] = []
  upload_all position (m ∷ items) = elim (upload position m) [
    | none ↦ upload_all (position + 1) items
    | some row ↦ row ∷ upload_all (position + 1) items
  ]

  -- `photosChangedAt && lastSynced && photosChangedAt <= lastSynced`
  abbrev pub is_current : Option ℕ → Option ℕ → Bool
  is_current none last = false
  is_current (some changed_at) none = false
  is_current (some changed_at) (some last) = leb changed_at last

  -- The transaction that replaces the photos and stamps the property.
  abbrev pub replace_media :
      String → Option ℕ → List MediaRow → MediaState → MediaState × MediaResult
  replace_media property_id changed_at [] s = (s, unchanged)
  replace_media property_id changed_at (row ∷ rows) s = (
    record {
      media = λ j. if str_eq property_id j then row ∷ rows else s.media j;
      photos_synced_at =
          λ j. if str_eq property_id j then some (or_else changed_at now) else s.photos_synced_at j;
    },
    record { image_url = some row.url; changed = true },
  )

  unfoldable pub sync_property_media :
      Record → List MediaItem → String → MediaState → MediaState × MediaResult
  unfolding upload_all
  sync_property_media r items property_id s =
      let changed_at = date_of parse_date (r "PhotosChangeTimestamp") in
      let replaced =
        replace_media property_id changed_at
          (sort_by (λ row. row.order) (upload_all 0 (ordered items))) s in
      if is_current changed_at (s.photos_synced_at property_id) then (s, unchanged) else replaced
