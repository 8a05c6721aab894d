-- ===== src/Mls/Sync/Watermark.antt =====
-- The watermark that a run stores.
use frontstead_kit.Prelude.{
  ℕ, ◌+◌, ◌≤◌, ◌≡◌, refl, sym, ◌∙◌, ◌⊎◌, inl, inr, Bool, Option, none, some, List, [], ◌∷◌, ◌++◌,
  arith, length, String, In, if◌then◌else◌,
}
use frontstead_kit.Prelude.Int.{ℤ}
use frontstead_kit.Db.{Table}
use frontstead_kit.Mls.Value.{Record, date_of}
use frontstead_kit.Mls.Metrics.{
  Resource, Failure, Processed, SyncMetrics, World, Feed, page, finished, broken, later, get_cursor,
}
use frontstead_kit.Mls.Sync.Pages.{process_page-eq-process_chunk}
use frontstead_kit.Mls.Sync.{
  process_page, process_chunk, process_record, settle_record, consume, latest, retry_from,
  retry_one, settle_retry, update_cursor,
}

-- All records that the generator yields.
abbrev pub records_of : Feed → List Record
records_of finished = []
records_of (broken message) = []
records_of (page rs feed) = rs ++ records_of feed

module _ (parse_date : String → Option ℕ) where
  -- The instant of a record's ModificationTimestamp.
  abbrev pub modified_at : Record → Option ℕ
  modified_at r = date_of parse_date (r "ModificationTimestamp")

-- `opts.fullSync ? undefined : await getCursor(…)`
abbrev pub since_of : Bool → Option ℕ → Option ℤ
since_of full_sync cursor = if full_sync then none else get_cursor cursor

-- The value of `maxTs` after a list of records.
abbrev AtLeast : Option ℕ → ℕ → Type 0
AtLeast none t = ⊥
AtLeast (some u) t = t ≤ u

later_left : (o p : Option ℕ) (t : ℕ) → AtLeast o t → AtLeast (later o p) t
unfolding later
later_left (some u) none t h = h
later_left (some u) (some v) t h = ground arith
later_left none p t h = absurd h

later_right : (o : Option ℕ) (t : ℕ) → AtLeast (later o (some t)) t
unfolding later
later_right none t = omega arith
later_right (some u) t = ground arith

later_choice : (o p : Option ℕ) → (later o p ≡ o) ⊎ (later o p ≡ p)
unfolding later
later_choice o none = inl refl
later_choice none (some t) = inr refl
later_choice (some u) (some t) = ground arith

-- The new cursor is at least as late as every record of the run, and is the old one or the instant
-- of one of the records.
pub record IsAdvanced (parse_date : String → Option ℕ) (old new : Option ℕ) (rs : List Record)
    : Type 0 where
  pub reached :
      (r : Record) (t : ℕ)
      → In r rs
      → modified_at parse_date r ≡ some t
      → (u : ℕ) × (new ≡ some u) × (t ≤ u)
  pub source : (new ≡ old) ⊎ ((r : Record) × In r rs × (new ≡ modified_at parse_date r))

module _ (T : Table Failure) {Store : Type 0} (resource : Resource)
    (dispatch : Record → Store → Store × Processed) (parse_date : String → Option ℕ) (now : ℕ) where
  latest_keeps :
      (o : Option ℕ) (rs : List Record) (t : ℕ)
      → AtLeast o t
      → AtLeast (latest T resource dispatch parse_date now o rs) t
  unfolding latest
  latest_keeps o [] t h = h
  latest_keeps o (r ∷ rs) t h =
      latest_keeps (later o (modified_at parse_date r)) rs t
        (later_left o (modified_at parse_date r) t h)

  latest_bound :
      (o : Option ℕ) (rs : List Record) (r : Record) (t : ℕ)
      → In r rs
      → modified_at parse_date r ≡ some t
      → AtLeast (latest T resource dispatch parse_date now o rs) t
  unfolding latest
  latest_bound o [] r t i h = absurd i
  latest_bound o (x ∷ rs) r t (inl same) h =
      latest_keeps (later o (modified_at parse_date x)) rs t (rw (← same, h) (later_right o t))
  latest_bound o (x ∷ rs) r t (inr i) h =
      latest_bound (later o (modified_at parse_date x)) rs r t i h

  latest_source :
      (o : Option ℕ) (rs : List Record)
      → (latest T resource dispatch parse_date now o rs ≡ o)
        ⊎ ((r : Record) × In r rs
            × (latest T resource dispatch parse_date now o rs ≡ modified_at parse_date r))
  unfolding latest
  latest_source o [] = inl refl
  latest_source o (x ∷ rs) = elim (latest_source (later o (modified_at parse_date x)) rs) [
    | inr (r, i, e) ↦ inr (r, inr i, e)
    | inl e ↦ elim (later_choice o (modified_at parse_date x)) [
      | inl old ↦ inl (e ∙ old)
      | inr new ↦ inr (x, inl refl, e ∙ new)
    ]
  ]

  latest-append :
      (o : Option ℕ) (xs ys : List Record)
      → latest T resource dispatch parse_date now o (xs ++ ys)
        ≡ latest T resource dispatch parse_date now
            (latest T resource dispatch parse_date now o xs)
            ys
  unfolding latest
  latest-append o [] ys = refl
  latest-append o (x ∷ xs) ys = latest-append (later o (modified_at parse_date x)) xs ys

  pub consume-latest :
      (w : World T.State Store) (m : SyncMetrics) (o : Option ℕ) (feed : Feed)
      → (consume T resource dispatch parse_date now w m o feed).0.2
        ≡ latest T resource dispatch parse_date now o (records_of feed)
  unfolding consume
  consume-latest w m o finished = unfold latest in refl
  consume-latest w m o (broken message) = unfold latest in refl
  consume-latest w m o (page rs feed) =
      let m₀ : SyncMetrics = record m { fetched = m.fetched + length rs } in
      let next = process_page T resource dispatch parse_date now (length rs) w m₀ rs in
      consume-latest next.0 next.1 (latest T resource dispatch parse_date now o rs) feed
      ∙ sym (latest-append o rs (records_of feed))

  settle_retry-cursor :
      (w : World T.State Store) (id : String) (f : Failure) (p : Store × Processed)
      → (settle_retry T resource dispatch parse_date now w id f p).0.cursor ≡ w.cursor
  unfolding settle_retry
  settle_retry-cursor w id f (store, Processed.result o media) = refl
  settle_retry-cursor w id f (store, Processed.index_error message) = refl
  settle_retry-cursor w id f (store, Processed.error message) = refl

  pub retry_from-cursor :
      (w : World T.State Store) (n : ℕ) (rows : List (String × Failure))
      → (retry_from T resource dispatch parse_date now w n rows).0.cursor ≡ w.cursor
  unfolding retry_from retry_one
  retry_from-cursor w n [] = refl
  retry_from-cursor w n ((id, f) ∷ rows) =
      let (w', done) = retry_one T resource dispatch parse_date now w id f in
      retry_from-cursor w' (if done then n + 1 else n) rows
      ∙ settle_retry-cursor w id f (dispatch f.payload w.store)

  settle_record-cursor :
      (w : World T.State Store) (m : SyncMetrics) (r : Record) (p : Store × Processed)
      → (settle_record T resource dispatch parse_date now w m r p).0.cursor ≡ w.cursor
  unfolding settle_record
  settle_record-cursor w m r (store, Processed.result o media) = refl
  settle_record-cursor w m r (store, Processed.index_error message) = refl
  settle_record-cursor w m r (store, Processed.error message) = refl

  process_chunk-cursor :
      (w : World T.State Store) (m : SyncMetrics) (rs : List Record)
      → (process_chunk T resource dispatch parse_date now w m rs).0.cursor ≡ w.cursor
  unfolding process_chunk process_record
  process_chunk-cursor w m [] = refl
  process_chunk-cursor w m (r ∷ rs) =
      let (w', m') = process_record T resource dispatch parse_date now w m r in
      process_chunk-cursor w' m' rs ∙ settle_record-cursor w m r (dispatch r w.store)

  pub consume-cursor :
      (w : World T.State Store) (m : SyncMetrics) (o : Option ℕ) (feed : Feed)
      → (consume T resource dispatch parse_date now w m o feed).0.0.cursor ≡ w.cursor
  unfolding consume
  consume-cursor w m o finished = refl
  consume-cursor w m o (broken message) = refl
  consume-cursor w m o (page rs feed) =
      let m₀ : SyncMetrics = record m { fetched = m.fetched + length rs } in
      let next = process_page T resource dispatch parse_date now (length rs) w m₀ rs in
      consume-cursor next.0 next.1 (latest T resource dispatch parse_date now o rs) feed
      ∙ rw
          (process_page-eq-process_chunk T resource dispatch parse_date now (length rs) w m₀ rs
            (omega arith))
          (process_chunk-cursor w m₀ rs)

  pub update_cursor-IsAdvanced :
      (w : World T.State Store) (rs : List Record)
      → IsAdvanced parse_date w.cursor
          (update_cursor T resource dispatch parse_date now
            (latest T resource dispatch parse_date now none rs)
            w).cursor
          rs
  update_cursor-IsAdvanced w rs =
      go (latest T resource dispatch parse_date now none rs) (latest_bound none rs)
        (latest_source none rs)
    where
      go :
          (max_ts : Option ℕ)
          → ((r : Record) (t : ℕ) → In r rs → modified_at parse_date r ≡ some t → AtLeast max_ts t)
          → (max_ts ≡ none) ⊎ ((r : Record) × In r rs × (max_ts ≡ modified_at parse_date r))
          → IsAdvanced parse_date w.cursor
              (update_cursor T resource dispatch parse_date now max_ts w).cursor
              rs
      go none bound source = record {
        reached = λ r t i h. absurd (bound r t i h);
        source = inl refl;
      }
      go (some u) bound source = record {
        reached = λ r t i h. (u, refl, bound r t i h);
        source = elim source [ inl e ↦ cc | inr s ↦ inr s ];
      }
