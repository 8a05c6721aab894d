-- ===== src/Mls/Sync/Pages.antt =====
-- The loop over a page: each record once, and what is counted.
use frontstead_kit.Prelude.{
  ℕ, zero, suc, ◌+◌, ◌≤◌, ◌≡◌, refl, ap, ◌∙◌, Bool, true, false, Option, List, [], ◌∷◌, ◌++◌, arith,
  length, take, drop, take-append-drop, length-drop, String, sym,
}
use frontstead_kit.Db.{Table}
use frontstead_kit.Mls.Value.{Record}
use frontstead_kit.Mls.Metrics.{
  Resource, Failure, ProcessOutcome, created, updated, removed, skipped, Processed, result,
  index_error, error, SyncMetrics, count_result, World, concurrency, Feed, page, finished, broken,
}
use frontstead_kit.Mls.Sync.{
  settle_record, process_record, process_chunk, process_page, consume, latest,
}

-- Every record that was fetched is counted once, as processed, skipped or failed; what was
-- processed was created, updated or removed.
pub record IsBalanced (m : SyncMetrics) : Type 0 where
  pub fetched : m.fetched ≡ m.processed + m.skipped_records + m.failed + m.index_failed
  pub processed : m.processed ≡ m.created + m.updated + m.removed
  pub media : m.media_failed ≤ m.processed + m.skipped_records

-- The same while `n` fetched records are still to be processed.
pub record IsBehind (n : ℕ) (m : SyncMetrics) : Type 0 where
  pub fetched : m.fetched ≡ m.processed + m.skipped_records + m.failed + m.index_failed + n
  pub processed : m.processed ≡ m.created + m.updated + m.removed
  pub media : m.media_failed ≤ m.processed + m.skipped_records

count_result-IsBehind :
    (o : ProcessOutcome) (media : Bool) (n : ℕ) (m : SyncMetrics)
    → IsBehind (suc n) m
    → IsBehind n (count_result o media m)
unfolding count_result
count_result-IsBehind created true n m h = omega arith
count_result-IsBehind created false n m h = omega arith
count_result-IsBehind updated true n m h = omega arith
count_result-IsBehind updated false n m h = omega arith
count_result-IsBehind removed true n m h = omega arith
count_result-IsBehind removed false n m h = omega arith
count_result-IsBehind skipped true n m h = omega arith
count_result-IsBehind skipped false n m h = omega arith

module _ (T : Table Failure) {Store : Type 0} (resource : Resource)
    (dispatch : Record → Store → Store × Processed) (parse_date : String → Option ℕ) (now : ℕ) where
  settle_record-IsBehind :
      (w : World T.State Store) (m : SyncMetrics) (r : Record) (n : ℕ) (p : Store × Processed)
      → IsBehind (suc n) m
      → IsBehind n (settle_record T resource dispatch parse_date now w m r p).1
  unfolding settle_record
  settle_record-IsBehind w m r n (store, result o media) h = count_result-IsBehind o media n m h
  settle_record-IsBehind w m r n (store, index_error message) h = omega arith
  settle_record-IsBehind w m r n (store, error message) h = omega arith

  process_chunk-IsBehind :
      (w : World T.State Store) (m : SyncMetrics) (rs : List Record) (n : ℕ)
      → IsBehind (length rs + n) m
      → IsBehind n (process_chunk T resource dispatch parse_date now w m rs).1
  unfolding process_chunk process_record
  process_chunk-IsBehind w m [] n h = omega arith
  process_chunk-IsBehind w m (r ∷ rs) n h =
      let (w', m') = process_record T resource dispatch parse_date now w m r in
      process_chunk-IsBehind w' m' rs n
        (settle_record-IsBehind w m r (length rs + n) (dispatch r w.store) (omega arith))

  process_chunk-append :
      (w : World T.State Store) (m : SyncMetrics) (xs ys : List Record)
      → process_chunk T resource dispatch parse_date now w m (xs ++ ys) ≡ (
          let (w', m') = process_chunk T resource dispatch parse_date now w m xs in
          process_chunk T resource dispatch parse_date now w' m' ys)
  unfolding process_chunk
  process_chunk-append w m [] ys = refl
  process_chunk-append w m (x ∷ xs) ys =
      let (w', m') = process_record T resource dispatch parse_date now w m x in
      process_chunk-append w' m' xs ys

  -- Cutting a page into chunks of eight loses and repeats nothing: with fuel for its length, the
  -- loop over the chunks is one pass over the page.
  pub process_page-eq-process_chunk :
      (fuel : ℕ) (w : World T.State Store) (m : SyncMetrics) (rs : List Record)
      → length rs ≤ fuel
      → process_page T resource dispatch parse_date now fuel w m rs
        ≡ process_chunk T resource dispatch parse_date now w m rs
  unfolding process_page
  process_page-eq-process_chunk zero w m [] h = unfold process_chunk in refl
  process_page-eq-process_chunk zero w m (r ∷ rs) h = absurd (omega arith)
  process_page-eq-process_chunk (suc fuel) w m [] h = unfold process_chunk in refl
  process_page-eq-process_chunk (suc fuel) w m (r ∷ rs) h =
      let (w', m') =
        process_chunk T resource dispatch parse_date now w m (take concurrency (r ∷ rs)) in
      process_page-eq-process_chunk fuel w' m' (drop concurrency (r ∷ rs))
        (omega (arith, length-drop concurrency (r ∷ rs)))
      ∙ sym (process_chunk-append w m (take concurrency (r ∷ rs)) (drop concurrency (r ∷ rs)))
      ∙ ap (process_chunk T resource dispatch parse_date now w m)
          (take-append-drop concurrency (r ∷ rs))

  pub consume-IsBehind :
      (w : World T.State Store) (m : SyncMetrics) (max_ts : Option ℕ) (feed : Feed)
      → IsBehind 0 m
      → IsBehind 0 (consume T resource dispatch parse_date now w m max_ts feed).0.1
  unfolding consume
  consume-IsBehind w m max_ts finished h = h
  consume-IsBehind w m max_ts (broken message) h = h
  consume-IsBehind w m max_ts (page rs feed) h =
      let m₀ : SyncMetrics = record m { fetched = m.fetched + length rs } in
      let next = process_page T resource dispatch parse_date now (length rs) w m₀ rs in
      consume-IsBehind next.0 next.1 (latest T resource dispatch parse_date now max_ts rs) feed (
        rw (process_page-eq-process_chunk (length rs) w m₀ rs (omega arith))
          (process_chunk-IsBehind w m₀ rs 0 (omega arith)))
