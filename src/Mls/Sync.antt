-- ===== src/Mls/Sync.antt =====
-- One synchronisation run, apps/mls-service/src/sync/runSync.ts, with the watermark of cursor.ts.
-- The rows of `MlsSyncFailure` and the cursor are those of the run's provider and resource. What
-- `dispatch` does to the rest of the database is the argument `dispatch` over an abstract store;
-- the query for pending failures and the connector's stream of pages are arguments too. The eight
-- tasks of a chunk are read in the order of the page.
pub mod Pages
pub mod Watermark
pub mod DeadLetter
pub mod Locks
mod Examples
pub mod Keeps
use Prim.Native.String
use frontstead_kit.Prelude.{
  ℕ, zero, suc, ◌+◌, String, Bool, true, false, Option, none, some, List, [], ◌∷◌, length, any,
  take, drop, keep, not, ltb, leb, str_eq, if◌then◌else◌,
}
use frontstead_kit.Prelude.Int.{ℤ, sub_ℕ}
use frontstead_kit.Db.{Table}
use frontstead_kit.Mls.Metrics.{
  Resource, Failure, ProcessOutcome, Processed, result, index_error, error, SyncMetrics,
  empty_metrics, max_dead_letter_batch, concurrency, Feed, page, finished, broken, Settled,
  resolved, rejected, external_id_of, get_cursor, later, count_result, World, has, add, delete,
  lock_key, is_disabled, skipped_run,
}
use frontstead_kit.Mls.Value.{Record, str, date_of}

module _ (T : Table Failure) {Store : Type 0} (resource : Resource)
    (dispatch : Record → Store → Store × Processed) (parse_date : String → Option ℕ) (now : ℕ) where
  -- recordFailure: an upsert whose update leaves the stored payload alone.
  pub record_failure : T.State → String → Record → String → T.State
  record_failure s id payload message = elim (T.find s id) [
    | none ↦
        T.put s id
          (record { payload = payload; error = message; retry_count = 0; last_tried_at = now })
    | some f ↦
        T.put s id
          (record f { error = message; retry_count = f.retry_count + 1; last_tried_at = now })
  ]

  -- The `try` and `catch` round one pending row of retryFailures, and whether it was recovered.
  pub settle_retry :
      World T.State Store → String → Failure → Store × Processed → World T.State Store × Bool
  unfolding record_failure
  settle_retry w id f (store, result outcome media) =
      (record w { failures = T.remove w.failures id; store = store }, true)
  settle_retry w id f (store, index_error message) =
      (record w { failures = record_failure w.failures id f.payload message; store = store }, false)
  settle_retry w id f (store, error message) =
      (record w { failures = record_failure w.failures id f.payload message; store = store }, false)

  pub retry_one : World T.State Store → String → Failure → World T.State Store × Bool
  unfolding settle_retry
  retry_one w id f = settle_retry w id f (dispatch f.payload w.store)

  pub retry_from : World T.State Store → ℕ → List (String × Failure) → World T.State Store × ℕ
  retry_from w recovered [] = (w, recovered)
  retry_from w recovered ((id, f) ∷ rows) =
      let (w', done) = retry_one w id f in
      retry_from w' (if done then recovered + 1 else recovered) rows

  -- retryFailures: `pending` is the query's answer, the rows with attempts left.
  pub retry_failures : World T.State Store → List (String × Failure) → World T.State Store × ℕ × ℕ
  retry_failures w pending =
      let batch = take max_dead_letter_batch pending in
      let (w', recovered) = retry_from w 0 batch in (w', length batch, recovered)

  abbrev pub capture : T.State → Record → String → T.State
  capture s r message = elim (external_id_of resource r) [
    | none ↦ s
    | some id ↦ record_failure s id r message
  ]

  -- The `try` and `catch` of one task of a chunk.
  pub settle_record :
      World T.State Store
      → SyncMetrics
      → Record
      → Store × Processed
      → World T.State Store × SyncMetrics
  settle_record w m r (store, result outcome media) =
      (record w { store = store }, count_result outcome media m)
  settle_record w m r (store, index_error message) = (
    record w { failures = capture w.failures r message; store = store },
    record m { index_failed = m.index_failed + 1 },
  )
  settle_record w m r (store, error message) = (
    record w { failures = capture w.failures r message; store = store },
    record m { failed = m.failed + 1 },
  )

  pub process_record :
      World T.State Store → SyncMetrics → Record → World T.State Store × SyncMetrics
  unfolding settle_record
  process_record w m r = settle_record w m r (dispatch r w.store)

  pub process_chunk :
      World T.State Store → SyncMetrics → List Record → World T.State Store × SyncMetrics
  process_chunk w m [] = (w, m)
  process_chunk w m (r ∷ rs) = let (w', m') = process_record w m r in process_chunk w' m' rs

  -- processPage: `for (i = 0; i < page.length; i += CONCURRENCY)`, on fuel.
  pub process_page :
      ℕ → World T.State Store → SyncMetrics → List Record → World T.State Store × SyncMetrics
  process_page zero w m rs = (w, m)
  process_page (suc fuel) w m [] = (w, m)
  process_page (suc fuel) w m (r ∷ rs) =
      let (w', m') = process_chunk w m (take concurrency (r ∷ rs)) in
      process_page fuel w' m' (drop concurrency (r ∷ rs))

  pub latest : Option ℕ → List Record → Option ℕ
  latest max_ts [] = max_ts
  latest max_ts (r ∷ rs) = latest (later max_ts (date_of parse_date (r "ModificationTimestamp"))) rs

  abbrev pub Progress : Type 0
  Progress = World T.State Store × SyncMetrics × Option ℕ

  -- The `for await` loop: how far it came, and what the generator threw.
  pub consume : World T.State Store → SyncMetrics → Option ℕ → Feed → Progress × Option String
  consume w m max_ts finished = ((w, m, max_ts), none)
  consume w m max_ts (broken message) = ((w, m, max_ts), some message)
  consume w m max_ts (page rs feed) =
      let (w', m') = process_page (length rs) w (record m { fetched = m.fetched + length rs }) rs in
      consume w' m' (latest max_ts rs) feed

  abbrev pub update_cursor : Option ℕ → World T.State Store → World T.State Store
  update_cursor none w = w
  update_cursor (some ts) w = record w { cursor = some ts }

  abbrev pub close : Progress × Option String → World T.State Store × Settled
  close ((w, m, max_ts), none) = (update_cursor max_ts w, resolved m)
  close ((w, m, max_ts), some message) = (w, rejected message)

  -- The body of the `try`.
  pub sync_locked :
      (full_sync : Bool)
      → (T.State → List (String × Failure))
      → (Option ℤ → Feed)
      → World T.State Store
      → World T.State Store × Settled
  unfolding consume retry_failures get_cursor
  sync_locked full_sync pending connector w =
      let (w', retried, recovered) = retry_failures w (pending w.failures) in
      let since = if full_sync then none else get_cursor w'.cursor in
      close (
        consume w' (record empty_metrics { retried = retried; recovered = recovered }) none
          (connector since))

module _ (T : Table Failure) {Store : Type 0} (resource : Resource)
    (dispatch : Record → Store → Store × Processed) (parse_date : String → Option ℕ) (now : ℕ) where
  -- runSync; `enabled` is the environment's MLS_SYNC_ENABLED.
  pub run_sync :
      (enabled : Option String) (provider_id : String) (full_sync : Bool)
      → (T.State → List (String × Failure))
      → (Option ℤ → Feed)
      → List String
      → World T.State Store
      → List String × World T.State Store × Settled
  run_sync enabled provider_id full_sync pending connector running w =
      let key = lock_key provider_id resource in
      let (w', settled) =
        sync_locked T resource dispatch parse_date now full_sync pending connector w in
      if is_disabled enabled
      then (running, w, skipped_run)
      else if has running key
      then (running, w, skipped_run)
      else (delete (add running key) key, w', settled)
