-- ===== src/Mls/Sync/Keeps.antt =====
-- What a run keeps of the database when the processing of each record keeps it.
use frontstead_kit.Prelude.{
  ℕ, zero, suc, ◌+◌, inl, inr, Bool, Option, none, some, List, [], ◌∷◌, String, length, take, drop,
  if◌then◌else◌, Bool-cases,
}
use frontstead_kit.Prelude.Int.{ℤ}
use frontstead_kit.Db.{Table}
use frontstead_kit.Mls.Value.{Record}
use frontstead_kit.Mls.Metrics.{
  Resource, Failure, Processed, result, index_error, error, SyncMetrics, World, concurrency, Feed,
  page, finished, broken, has, lock_key, is_disabled, get_cursor, empty_metrics,
  max_dead_letter_batch,
}
use frontstead_kit.Mls.Sync.{
  settle_retry, retry_one, retry_from, retry_failures, settle_record, process_record, process_chunk,
  process_page, consume, latest, update_cursor, close, sync_locked, run_sync, Progress,
}

module _ (T : Table Failure) {Store : Type 0} (resource : Resource)
    (dispatch : Record → Store → Store × Processed) (parse_date : String → Option ℕ) (now : ℕ)
    (Kept : Store → Type 0)
    (dispatch-Kept : (r : Record) (s : Store) → Kept s → Kept (dispatch r s).0) where
  settle_retry-Kept :
      (w : World T.State Store) (id : String) (f : Failure) (x : Store × Processed)
      → Kept x.0
      → Kept (settle_retry T resource dispatch parse_date now w id f x).0.store
  unfolding settle_retry
  settle_retry-Kept w id f (s, result o media) k = k
  settle_retry-Kept w id f (s, index_error message) k = k
  settle_retry-Kept w id f (s, error message) k = k

  retry_from-Kept :
      (w : World T.State Store) (n : ℕ) (rows : List (String × Failure))
      → Kept w.store
      → Kept (retry_from T resource dispatch parse_date now w n rows).0.store
  unfolding retry_from retry_one
  retry_from-Kept w n [] k = k
  retry_from-Kept w n ((id, f) ∷ rows) k =
      let (w', done) = retry_one T resource dispatch parse_date now w id f in
      retry_from-Kept w' (if done then n + 1 else n) rows
        (settle_retry-Kept w id f (dispatch f.payload w.store) (dispatch-Kept f.payload w.store k))

  settle_record-Kept :
      (w : World T.State Store) (m : SyncMetrics) (r : Record) (x : Store × Processed)
      → Kept x.0
      → Kept (settle_record T resource dispatch parse_date now w m r x).0.store
  unfolding settle_record
  settle_record-Kept w m r (s, result o media) k = k
  settle_record-Kept w m r (s, index_error message) k = k
  settle_record-Kept w m r (s, error message) k = k

  process_chunk-Kept :
      (w : World T.State Store) (m : SyncMetrics) (rs : List Record)
      → Kept w.store
      → Kept (process_chunk T resource dispatch parse_date now w m rs).0.store
  unfolding process_chunk process_record
  process_chunk-Kept w m [] k = k
  process_chunk-Kept w m (r ∷ rs) k =
      let (w', m') = process_record T resource dispatch parse_date now w m r in
      process_chunk-Kept w' m' rs
        (settle_record-Kept w m r (dispatch r w.store) (dispatch-Kept r w.store k))

  process_page-Kept :
      (fuel : ℕ) (w : World T.State Store) (m : SyncMetrics) (rs : List Record)
      → Kept w.store
      → Kept (process_page T resource dispatch parse_date now fuel w m rs).0.store
  unfolding process_page
  process_page-Kept zero w m rs k = k
  process_page-Kept (suc fuel) w m [] k = k
  process_page-Kept (suc fuel) w m (r ∷ rs) k =
      let (w', m') =
        process_chunk T resource dispatch parse_date now w m (take concurrency (r ∷ rs)) in
      process_page-Kept fuel w' m' (drop concurrency (r ∷ rs))
        (process_chunk-Kept w m (take concurrency (r ∷ rs)) k)

  consume-Kept :
      (w : World T.State Store) (m : SyncMetrics) (max_ts : Option ℕ) (feed : Feed)
      → Kept w.store
      → Kept (consume T resource dispatch parse_date now w m max_ts feed).0.0.store
  unfolding consume
  consume-Kept w m max_ts finished k = k
  consume-Kept w m max_ts (broken message) k = k
  consume-Kept w m max_ts (page rs feed) k =
      let start = record m { fetched = m.fetched + length rs } in
      let (w', m') = process_page T resource dispatch parse_date now (length rs) w start rs in
      consume-Kept w' m' (latest T resource dispatch parse_date now max_ts rs) feed
        (process_page-Kept (length rs) w start rs k)

  update_cursor-Kept :
      (ts : Option ℕ) (w : World T.State Store)
      → Kept w.store
      → Kept (update_cursor T resource dispatch parse_date now ts w).store
  update_cursor-Kept none w k = k
  update_cursor-Kept (some ts) w k = k

  close-Kept :
      (x : Progress T resource dispatch parse_date now × Option String)
      → Kept x.0.0.store
      → Kept (close T resource dispatch parse_date now x).0.store
  close-Kept ((w, m, ts), none) k = update_cursor-Kept ts w k
  close-Kept ((w, m, ts), some message) k = k

  locked-Kept :
      (full_sync : Bool) (pending : T.State → List (String × Failure)) (connector : Option ℤ → Feed)
      (w : World T.State Store)
      → Kept w.store
      → Kept (sync_locked T resource dispatch parse_date now full_sync pending connector w).0.store
  unfolding sync_locked retry_failures
  locked-Kept full_sync pending connector w k =
      let batch = take max_dead_letter_batch (pending w.failures) in
      let (w', n) = retry_from T resource dispatch parse_date now w 0 batch in
      let since = if full_sync then none else get_cursor w'.cursor in
      let start = record empty_metrics { retried = length batch; recovered = n } in
      close-Kept (consume T resource dispatch parse_date now w' start none (connector since))
        (consume-Kept w' start none (connector since) (retry_from-Kept w 0 batch k))

  -- Whatever its feed, its dead letter and its outcome, a run keeps of the database what the
  -- processing of each record keeps.
  pub run_sync-Kept :
      (enabled : Option String) (provider_id : String) (full_sync : Bool)
      (pending : T.State → List (String × Failure)) (connector : Option ℤ → Feed)
      (running : List String) (w : World T.State Store)
      → Kept w.store
      → Kept
          (run_sync T resource dispatch parse_date now enabled provider_id full_sync pending
            connector running w).1.store
  unfolding run_sync
  run_sync-Kept enabled provider_id full_sync pending connector running w k =
      elim (Bool-cases (is_disabled enabled)) [
        | inl off ↦ rw (run_sync, off) k
        | inr on ↦ elim (Bool-cases (has running (lock_key provider_id resource))) [
          | inl busy ↦ rw (run_sync, on, busy) k
          | inr free ↦ rw (run_sync, on, free) (locked-Kept full_sync pending connector w k)
        ]
      ]
