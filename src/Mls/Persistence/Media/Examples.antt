-- ===== src/Mls/Persistence/Media/Examples.antt =====
-- Three photos, one of which cannot be downloaded.
use frontstead_kit.Prelude.{
  ℕ, ◌≡◌, ◌⊎◌, refl, String, Option, none, some, List, [], ◌∷◌, str_eq, if◌then◌else◌,
}
use frontstead_kit.Mls.Value.{Value, Record, undefined, text, number}
use frontstead_kit.Mls.Persistence.Media.{
  MediaItem, MediaState, MediaResult, unchanged, ext_for, includes_text, sync_property_media,
}
use frontstead_kit.Mls.Persistence.Media.Rehosted.{
  IsCurrent, Hosts, IsReplaced, sync_property_media-IsReplaced,
}

abbrev int : Value → Option ℕ
int (number n) = some n
int _ = none

abbrev parse_date : String → Option ℕ
parse_date s = none

abbrev fetch_image : String → Option (ℕ × String)
fetch_image url = if str_eq url "b" then none else some (1, "image/png")

abbrev put_object : String → ℕ → String → Option String
put_object key body content_type = some key

abbrev item : String → ℕ → MediaItem
item url n = record { media_url = text url; order = number n; short_description = undefined }

abbrev items : List MediaItem
items = item "c" 3 ∷ item "a" 1 ∷ item "b" 2 ∷ []

abbrev photos : MediaState
photos = record { media = λ id. []; photos_synced_at = λ id. none }

abbrev nothing : Record
nothing field = undefined

ext_test : ext_for "image/webp" ≡ "webp"
unfolding ext_for includes_text
ext_test = refl

abbrev synced : MediaState × MediaResult
synced =
    sync_property_media int parse_date fetch_image put_object "actris" "K1" 7 nothing items "p1"
      photos

abbrev Current : Type 0
Current = IsCurrent int parse_date fetch_image put_object "actris" "K1" 7 nothing items "p1" photos

sync_property_media-IsReplaced_example :
    (Current × (synced ≡ (photos, unchanged)))
    ⊎ (¬ Current
        × Hosts int parse_date fetch_image put_object "actris" "K1" 7 nothing items "p1" photos 0
            ((item "a" 1, "a") ∷ (item "b" 2, "b") ∷ (item "c" 3, "c") ∷ [])
            []
        × (synced ≡ (photos, unchanged)))
    ⊎ (¬ Current
        × IsReplaced int parse_date fetch_image put_object "actris" "K1" 7 nothing items "p1" photos
            synced)
unfolding frontstead_kit.Mls.Value.str
sync_property_media-IsReplaced_example =
    sync_property_media-IsReplaced int parse_date fetch_image put_object "actris" "K1" 7 nothing
      items "p1" photos
