-- ===== src/Mls/Persistence/Media/Rehosted.antt =====
-- The photos of a property after they are rehosted.
use mathlib.Core.Path.{subst}
use frontstead_kit.Prelude.{
  ℕ, ◌≤◌, ◌≡◌, ◌≢◌, ◌⊎◌, inl, inr, refl, sym, ap, ◌∙◌, ◌+◌, true, false, none, Option-cases, String,
  Option, some, List, [], ◌∷◌, All, leb, or_else, eq_iff, eq_refl, arith, Bool-cases,
}
use frontstead_kit.Mls.Value.{Value, Record, date_of, str}
use frontstead_kit.Mls.Persistence.Media.{
  MediaItem, MediaRow, MediaState, MediaResult, unchanged, insert_by, sort_by, ordered, upload_all,
  is_current, replace_media, upload, object_key, sync_property_media,
}

-- Each key is at most those after it.
abbrev pub IsSorted : {A : Type 0} → (A → ℕ) → List A → Type 0
IsSorted key [] = Unit
IsSorted key (a ∷ rows) = All (λ b. key a ≤ key b) rows × IsSorted key rows

module _ {A : Type 0} (key : A → ℕ) where
  All-insert_by :
      (n : ℕ) (a : A) (rows : List A)
      → n ≤ key a
      → All (λ b. n ≤ key b) rows
      → All (λ b. n ≤ key b) (insert_by key a rows)
  All-insert_by n a [] h all = (h, tt)
  All-insert_by n a (b ∷ bs) h (first, all) = elim (Bool-cases (leb (key a) (key b))) [
    | inl below ↦ rw (insert_by, below) (h, (first, all))
    | inr above ↦ rw (insert_by, above) (first, All-insert_by n a bs h all)
  ]

  All-weaker :
      (m n : ℕ) (rows : List A) → m ≤ n → All (λ b. n ≤ key b) rows → All (λ b. m ≤ key b) rows
  All-weaker m n [] h all = tt
  All-weaker m n (a ∷ rows) h (first, all) = (omega (arith, h, first), All-weaker m n rows h all)

  insert_by-IsSorted :
      (a : A) (rows : List A) → IsSorted key rows → IsSorted key (insert_by key a rows)
  insert_by-IsSorted a [] s = (tt, tt)
  insert_by-IsSorted a (b ∷ bs) (all, s) = elim (Bool-cases (leb (key a) (key b))) [
    | inl below ↦
        rw (insert_by, below)
          (
            (ground (arith, below), All-weaker (key a) (key b) bs (ground (arith, below)) all),
            (all, s),
          )
    | inr above ↦
        rw (insert_by, above)
          (All-insert_by (key b) a bs (ground (arith, above)) all, insert_by-IsSorted a bs s)
  ]

  pub sort_by-IsSorted : (rows : List A) → IsSorted key (sort_by key rows)
  sort_by-IsSorted [] = tt
  sort_by-IsSorted (a ∷ rows) = insert_by-IsSorted a (sort_by key rows) (sort_by-IsSorted rows)

  some_inserted : (a : A) (rows : List A) → insert_by key a rows ≢ []
  some_inserted a [] e = ground (arith, e)
  some_inserted a (b ∷ bs) e = ground (arith, e)

  pub nothing_sorted : (rows : List A) → sort_by key rows ≡ [] → rows ≡ []
  nothing_sorted [] e = refl
  nothing_sorted (a ∷ rows) e = absurd (some_inserted a (sort_by key rows) e)

module _ {Bytes : Type 0} (int : Value → Option ℕ) (parse_date : String → Option ℕ)
    (fetch_image : String → Option (Bytes × String))
    (put_object : String → Bytes → String → Option String) (board listing_key : String) (now : ℕ)
    (r : Record) (items : List MediaItem) (property_id : String) (s : MediaState) where
  abbrev synced : MediaState × MediaResult
  synced =
      sync_property_media int parse_date fetch_image put_object board listing_key now r items
        property_id s

  abbrev key_of : ℕ → String → String
  key_of order content_type =
      object_key int parse_date fetch_image put_object board listing_key now order content_type

  -- The photos by their orders, those without a URL left out.
  abbrev in_order : List (MediaItem × String)
  in_order = ordered int parse_date fetch_image put_object board listing_key now items

  abbrev changed_at : Option ℕ
  changed_at = date_of parse_date (r "PhotosChangeTimestamp")

  -- The source's photos have an instant of change that is at most that of the last rehosting.
  pub record IsCurrent : Type 0 where
    pub changed : ℕ
    pub last : ℕ
    pub at_source : changed_at ≡ some changed
    pub stamped : s.photos_synced_at property_id ≡ some last
    pub not_after : changed ≤ last

  -- A photo, at its position, that was downloaded and stored, and its row.
  pub record IsStored (position : ℕ) (m : MediaItem) (url : String) (row : MediaRow) : Type 0 where
    pub body : Bytes
    pub content_type : String
    pub fetched : fetch_image url ≡ some (body, content_type)
    pub put :
        put_object (key_of (or_else (int m.order) position) content_type) body content_type
        ≡ some row.url
    pub order : row.order ≡ or_else (int m.order) position
    pub caption : row.caption ≡ str m.short_description

  -- The rows of the photos from a position on: each photo has its row, but those of which the download
  -- or the store fails.
  abbrev pub Hosts : ℕ → List (MediaItem × String) → List MediaRow → Type 0
  Hosts position [] rows = rows ≡ []
  Hosts position ((m, url) ∷ rest) rows =
      (((body : Bytes) (content_type : String)
          → fetch_image url ≡ some (body, content_type)
          → put_object (key_of (or_else (int m.order) position) content_type) body content_type
            ≡ none)
        × Hosts (position + 1) rest rows)
      ⊎ ((row : MediaRow) × (others : List MediaRow) × (rows ≡ row ∷ others)
          × IsStored position m url row
          × Hosts (position + 1) rest others)

  -- The property's photos are those that could be rehosted, by their order, and stamped; no other
  -- property is touched.
  pub record IsReplaced (x : MediaState × MediaResult) : Type 0 where
    pub rehosted : List MediaRow
    pub hosted : Hosts 0 in_order rehosted
    pub photos : x.0.media property_id ≡ sort_by (λ row. row.order) rehosted
    pub sorted : IsSorted (λ row. row.order) (x.0.media property_id)
    pub first : MediaRow
    pub rest : List MediaRow
    pub at_front : x.0.media property_id ≡ first ∷ rest
    pub image : x.1.image_url ≡ some first.url
    pub changed : x.1.changed ≡ true
    pub stamp : x.0.photos_synced_at property_id ≡ some (or_else changed_at now)
    pub others :
        (j : String)
        → property_id ≢ j
        → (x.0.media j ≡ s.media j) × (x.0.photos_synced_at j ≡ s.photos_synced_at j)

  one : ℕ → MediaItem × String → Option MediaRow
  one position m = upload int parse_date fetch_image put_object board listing_key now position m

  all_from : ℕ → List (MediaItem × String) → List MediaRow
  all_from position rest =
      upload_all int parse_date fetch_image put_object board listing_key now position rest

  unstored :
      (position : ℕ) (m : MediaItem) (url : String)
      → one position (m, url) ≡ none
      → (body : Bytes) (content_type : String) → fetch_image url ≡ some (body, content_type)
      → put_object (key_of (or_else (int m.order) position) content_type) body content_type ≡ none
  unfolding one upload
  unstored position m url e body content_type f = ground (arith, e, f)

  upload-IsStored :
      (position : ℕ) (m : MediaItem) (url : String) (row : MediaRow) (o : Option (Bytes × String))
      → fetch_image url ≡ o
      → one position (m, url) ≡ some row
      → IsStored position m url row
  unfolding one upload
  upload-IsStored position m url row none f e = absurd (ground (arith, e, f))
  upload-IsStored position m url row (some (body, content_type)) f e =
      elim (Option-cases
        (put_object (key_of (or_else (int m.order) position) content_type) body content_type)) [
          | inl failed ↦ absurd (ground (arith, e, f, failed))
          | inr (public_url, stored) ↦
              let made : MediaRow = record {
                url = public_url;
                order = or_else (int m.order) position;
                caption = str m.short_description;
              } in
              let same : made ≡ row = ground (arith, e, f, stored) in
              record {
                body = body;
                content_type = content_type;
                fetched = f;
                put = stored ∙ ap (λ x. some (MediaRow.url x)) same;
                order = sym (ap MediaRow.order same);
                caption = sym (ap MediaRow.caption same);
              }
        ]

  all_from_lost :
      (position : ℕ) (m : MediaItem × String) (rest : List (MediaItem × String))
      → one position m ≡ none
      → all_from (position + 1) rest ≡ all_from position (m ∷ rest)
  unfolding all_from upload_all one
  all_from_lost position m rest lost = ground (arith, lost)

  all_from_kept :
      (position : ℕ) (m : MediaItem × String) (rest : List (MediaItem × String)) (row : MediaRow)
      → one position m ≡ some row
      → all_from position (m ∷ rest) ≡ row ∷ all_from (position + 1) rest
  unfolding all_from upload_all one
  all_from_kept position m rest row kept = ground (arith, kept)

  all_from_end : (position : ℕ) → all_from position [] ≡ []
  unfolding all_from upload_all
  all_from_end position = refl

  all_from-Hosts :
      (position : ℕ) (rest : List (MediaItem × String))
      → Hosts position rest (all_from position rest)
  all_from-Hosts position [] = all_from_end position
  all_from-Hosts position ((m, url) ∷ rest) = elim (Option-cases (one position (m, url))) [
    | inl lost ↦ inl (
      unstored position m url lost,
      subst (λ rows. Hosts (position + 1) rest rows) (all_from_lost position (m, url) rest lost)
          (all_from-Hosts (position + 1) rest),
    )
    | inr (row, kept) ↦ inr (
      row,
      all_from (position + 1) rest,
      all_from_kept position (m, url) rest row kept,
      upload-IsStored position m url row (fetch_image url) refl kept,
      all_from-Hosts (position + 1) rest,
    )
  ]

  abbrev replaced_by : List MediaRow → MediaState × MediaResult
  replaced_by rows =
      replace_media int parse_date fetch_image put_object board listing_key now property_id
        changed_at rows s

  replaced_lem :
      (rows : List MediaRow)
      → sort_by (λ row. row.order) (all_from 0 in_order) ≡ rows
      → (Hosts 0 in_order [] × (replaced_by rows ≡ (s, unchanged))) ⊎ IsReplaced (replaced_by rows)
  replaced_lem [] e = inl (
    subst (λ rows. Hosts 0 in_order rows) (nothing_sorted (λ row. row.order) _ e)
        (all_from-Hosts 0 in_order),
    refl,
  )
  replaced_lem (row ∷ rows) e = inr (record {
    rehosted = all_from 0 in_order;
    hosted = all_from-Hosts 0 in_order;
    photos = rw (eq_refl property_id) (sym e);
    sorted = rw (eq_refl property_id) (
        subst (IsSorted (λ row. row.order)) e
          (sort_by-IsSorted (λ row. row.order) (all_from 0 in_order)));
    first = row;
    rest = rows;
    at_front = rw (eq_refl property_id) refl;
    image = refl;
    changed = refl;
    stamp = rw (eq_refl property_id) refl;
    others =
        λ j h. (ground (arith, eq_iff property_id j, h), ground (arith, eq_iff property_id j, h));
  })

  current_lem :
      (o last : Option ℕ)
      → changed_at ≡ o
      → s.photos_synced_at property_id ≡ last
      → is_current int parse_date fetch_image put_object board listing_key now o last ≡ true
      → IsCurrent
  current_lem none last e f h = absurd (ground (arith, h))
  current_lem (some c) none e f h = absurd (ground (arith, h))
  current_lem (some c) (some l) e f h = record {
    changed = c;
    last = l;
    at_source = e;
    stamped = f;
    not_after = ground (arith, h);
  }

  stale_lem :
      is_current int parse_date fetch_image put_object board listing_key now changed_at
          (s.photos_synced_at property_id)
        ≡ false
      → ¬ IsCurrent
  stale_lem h c = ground (arith, h, c.at_source, c.stamped, c.not_after)

  -- Photos that are current stay, and the result says so. Otherwise, if of none both the download and
  -- the store succeed, nothing changes either; else the photos of the property are replaced as a whole,
  -- by those of which both do, in their order, and the property is stamped.
  pub sync_property_media-IsReplaced :
      (IsCurrent × (synced ≡ (s, unchanged)))
      ⊎ (¬ IsCurrent × Hosts 0 in_order [] × (synced ≡ (s, unchanged)))
      ⊎ (¬ IsCurrent × IsReplaced synced)
  unfolding sync_property_media all_from
  sync_property_media-IsReplaced =
      elim (Bool-cases (
        is_current int parse_date fetch_image put_object board listing_key now changed_at
          (s.photos_synced_at property_id))) [
            | inl current ↦ inl (
              current_lem changed_at (s.photos_synced_at property_id) refl refl current,
              rw (sync_property_media, current) refl,
            )
            | inr stale ↦
                inr (elim (replaced_lem (sort_by (λ row. row.order) (all_from 0 in_order)) refl) [
                  | inl (nothing, same) ↦
                      inl (stale_lem stale, nothing, rw (sync_property_media, stale) same)
                  | inr replaced ↦ inr (stale_lem stale, rw (sync_property_media, stale) replaced)
                ])
          ]
