-- ===== src/Mls/Sync/DeadLetter/Captures.antt =====
-- Which records a page leaves in the dead letter, recordFailure and processPage of
-- apps/mls-service/src/sync/runSync.ts.
use frontstead_kit.Prelude.{
  ℕ, ◌+◌, ◌≡◌, inl, inr, Option, none, some, List, [], ◌∷◌, arith, String, if◌then◌else◌,
  Option-cases, str_eq, eq_refl, ◌≢◌,
}
use frontstead_kit.Db.{Table}
use frontstead_kit.Mls.Value.{Record}
use frontstead_kit.Mls.Metrics.{
  Resource, Failure, Processed, SyncMetrics, World, external_id_of, result, index_error, error,
}
use frontstead_kit.Mls.Sync.{record_failure, settle_record, process_record, process_chunk, capture}

module _ (T : Table Failure) {Store : Type 0} (resource : Resource)
    (dispatch : Record → Store → Store × Processed) (parse_date : String → Option ℕ) (now : ℕ) where
  -- The row that an upsert leaves.
  abbrev pub recorded : Record → String → Option Failure → Failure
  recorded payload message none = record {
    payload = payload;
    error = message;
    retry_count = 0;
    last_tried_at = now;
  }
  recorded payload message (some f) = record f {
    error = message;
    retry_count = f.retry_count + 1;
    last_tried_at = now;
  }

  pub record_failure-find :
      (s : T.State) (id j : String) (payload : Record) (message : String)
      → T.find (record_failure T resource dispatch parse_date now s id payload message) j
        ≡ (if str_eq id j then some (recorded payload message (T.find s id)) else T.find s j)
  unfolding record_failure
  record_failure-find s id j payload message = elim (Option-cases (T.find s id)) [
    | inl e ↦ rw (e, record_failure) (T.find-put s id j (recorded payload message none))
    | inr (f, e) ↦ rw (e, record_failure) (T.find-put s id j (recorded payload message (some f)))
  ]

  record_failure_id : (r : Record) → Option String → T.State → String → T.State
  record_failure_id r none s message = s
  record_failure_id r (some id) s message =
      record_failure T resource dispatch parse_date now s id r message

  capture_by_id :
      (s : T.State) (r : Record) (message : String) (o : Option String)
      → external_id_of resource r ≡ o
      → capture T resource dispatch parse_date now s r message ≡ record_failure_id r o s message
  unfolding record_failure_id
  capture_by_id s r message none e = rw (e, capture)
  capture_by_id s r message (some id) e = rw (e, capture)

  capture-keeps :
      (s : T.State) (r : Record) (message j : String)
      → T.find s j ≢ none
      → T.find (capture T resource dispatch parse_date now s r message) j ≢ none
  unfolding record_failure_id
  capture-keeps s r message j h = elim (Option-cases (external_id_of resource r)) [
    | inl e ↦ rw (capture_by_id s r message none e) h
    | inr (id, e) ↦
        rw (capture_by_id s r message (some id) e)
          (ground (arith, record_failure-find s id j r message))
  ]

  capture-find_self :
      (s : T.State) (r : Record) (message id : String)
      → external_id_of resource r ≡ some id
      → T.find (capture T resource dispatch parse_date now s r message) id ≢ none
  unfolding record_failure_id
  capture-find_self s r message id e =
      rw (capture_by_id s r message (some id) e)
        (ground (arith, record_failure-find s id id r message, eq_refl id))

  settle_record-keeps :
      (w : World T.State Store) (m : SyncMetrics) (r : Record) (p : Store × Processed) (j : String)
      → T.find w.failures j ≢ none
      → T.find (settle_record T resource dispatch parse_date now w m r p).0.failures j ≢ none
  unfolding settle_record
  settle_record-keeps w m r (store, result o media) j h = h
  settle_record-keeps w m r (store, index_error message) j h =
      capture-keeps w.failures r message j h
  settle_record-keeps w m r (store, error message) j h = capture-keeps w.failures r message j h

  pub process_chunk-keeps :
      (w : World T.State Store) (m : SyncMetrics) (rs : List Record) (j : String)
      → T.find w.failures j ≢ none
      → T.find (process_chunk T resource dispatch parse_date now w m rs).0.failures j ≢ none
  unfolding process_chunk process_record
  process_chunk-keeps w m [] j h = h
  process_chunk-keeps w m (r ∷ rs) j h =
      let next = process_record T resource dispatch parse_date now w m r in
      process_chunk-keeps next.0 next.1 rs j (settle_record-keeps w m r (dispatch r w.store) j h)

  abbrev pub IsThrown : Processed → Type 0
  IsThrown (result o media) = ⊥
  IsThrown (index_error message) = Unit
  IsThrown (error message) = Unit

  settle_record-find_self :
      (w : World T.State Store) (m : SyncMetrics) (r : Record) (p : Store × Processed) (id : String)
      → IsThrown p.1
      → external_id_of resource r ≡ some id
      → T.find (settle_record T resource dispatch parse_date now w m r p).0.failures id ≢ none
  unfolding settle_record
  settle_record-find_self w m r (store, result o media) id h e = absurd h
  settle_record-find_self w m r (store, index_error message) id h e =
      capture-find_self w.failures r message id e
  settle_record-find_self w m r (store, error message) id h e =
      capture-find_self w.failures r message id e

  -- In a pass over records: each one whose processing throws, at the store that it meets, and that
  -- has an external id is in the dead letter `s`.
  abbrev pub IsCaptured : World T.State Store → SyncMetrics → List Record → T.State → Type 0
  IsCaptured w m [] s = Unit
  IsCaptured w m (r ∷ rs) s =
      ((id : String)
        → IsThrown (dispatch r w.store).1
        → external_id_of resource r ≡ some id
        → T.find s id ≢ none)
      × IsCaptured (process_record T resource dispatch parse_date now w m r).0
          (process_record T resource dispatch parse_date now w m r).1 rs s

  pub process_chunk-IsCaptured :
      (w : World T.State Store) (m : SyncMetrics) (rs : List Record)
      → IsCaptured w m rs (process_chunk T resource dispatch parse_date now w m rs).0.failures
  unfolding process_chunk process_record
  process_chunk-IsCaptured w m [] = tt
  process_chunk-IsCaptured w m (r ∷ rs) =
      let next = process_record T resource dispatch parse_date now w m r in
      (
        λ id thrown e.
            process_chunk-keeps next.0 next.1 rs id
              (settle_record-find_self w m r (dispatch r w.store) id thrown e),
        process_chunk-IsCaptured next.0 next.1 rs,
      )
