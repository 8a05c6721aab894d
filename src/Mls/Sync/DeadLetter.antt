-- ===== src/Mls/Sync/DeadLetter.antt =====
-- The dead letter: what is captured, and what a retry leaves of it.
mod Captures
use mathlib.Core.Path.{subst}
use frontstead_kit.Prelude.{
  ℕ, ◌+◌, ◌≤◌, ◌≡◌, refl, ap, ◌∙◌, ◌⊎◌, inl, inr, Bool, false, Option, none, some, List, [], ◌∷◌,
  arith, length, String, if◌then◌else◌, Option-cases, str_eq, ◌||◌, eq_iff, eq_refl, take,
  length-take, All, ◌≢◌,
}
use frontstead_kit.Db.{Table}
use frontstead_kit.Mls.Value.{Record}
use frontstead_kit.Mls.Metrics.{
  Resource, Failure, Processed, SyncMetrics, World, external_id_of, result, index_error, error,
  max_dead_letter_batch,
}
use frontstead_kit.Mls.Sync.{
  record_failure, settle_retry, retry_one, retry_from, retry_failures, settle_record,
  process_record, process_chunk, process_page, capture,
}
use frontstead_kit.Mls.Sync.Pages.{process_page-eq-process_chunk}
pub use frontstead_kit.Mls.Sync.DeadLetter.Captures.{IsThrown, IsCaptured, recorded}
use frontstead_kit.Mls.Sync.DeadLetter.Captures.{
  record_failure-find, process_chunk-IsCaptured, process_chunk-keeps,
}

abbrev Rows : Type 0
Rows = List (String × Failure)

-- Whether an id is among those of the rows.
abbrev pub listed : String → List (String × Failure) → Bool
listed id [] = false
listed id ((k, f) ∷ rows) = str_eq k id || listed id rows

-- The rows of a query have distinct ids.
abbrev pub HasDistinctIds : List (String × Failure) → Type 0
HasDistinctIds [] = Unit
HasDistinctIds ((k, f) ∷ rows) = (listed k rows ≡ false) × HasDistinctIds rows

module _ (T : Table Failure) {Store : Type 0} (resource : Resource)
    (dispatch : Record → Store → Store × Processed) (parse_date : String → Option ℕ) (now : ℕ) where
  -- The row with one more retry counted at this time, the new error, and its first payload.
  abbrev pub retried_row : Failure → String → Failure
  retried_row f message = record {
    payload = f.payload;
    error = message;
    retry_count = f.retry_count + 1;
    last_tried_at = now;
  }

  -- What a retry leaves of a row, by what its processing gave: nothing after a success, the row with
  -- one more retry after a failure.
  abbrev pub left_of : Failure → Processed → Option Failure
  left_of f (result o media) = none
  left_of f (index_error message) = some (retried_row f message)
  left_of f (error message) = some (retried_row f message)

  abbrev pub successes : Processed → ℕ
  successes (result o media) = 1
  successes (index_error message) = 0
  successes (error message) = 0

  -- Each row is processed by its payload, in order, at the store that the one before left, and the
  -- dead letter `s` has what the processing leaves of it.
  abbrev pub Retried : Store → List (String × Failure) → T.State → Type 0
  Retried store [] s = Unit
  Retried store ((id, f) ∷ rows) s =
      (T.find s id ≡ left_of f (dispatch f.payload store).1)
      × Retried (dispatch f.payload store).0 rows s

  abbrev pub recovered_of : Store → List (String × Failure) → ℕ
  recovered_of store [] = 0
  recovered_of store ((id, f) ∷ rows) =
      successes (dispatch f.payload store).1 + recovered_of (dispatch f.payload store).0 rows

  settle_retry-find_other :
      (w : World T.State Store) (id j : String) (f : Failure) (p : Store × Processed)
      → str_eq id j ≡ false
      → T.find (settle_retry T resource dispatch parse_date now w id f p).0.failures j
        ≡ T.find w.failures j
  unfolding settle_retry
  settle_retry-find_other w id j f (store, result o media) h =
      ground (arith, T.find-remove w.failures id j)
  settle_retry-find_other w id j f (store, index_error message) h = ground (
    arith,
    record_failure-find T resource dispatch parse_date now w.failures id j f.payload message,
  )
  settle_retry-find_other w id j f (store, error message) h = ground (
    arith,
    record_failure-find T resource dispatch parse_date now w.failures id j f.payload message,
  )

  settle_retry-find_self :
      (w : World T.State Store) (id : String) (f : Failure) (p : Store × Processed)
      → T.find w.failures id ≡ some f
      → T.find (settle_retry T resource dispatch parse_date now w id f p).0.failures id
        ≡ left_of f p.1
  unfolding settle_retry
  settle_retry-find_self w id f (store, result o media) h =
      ground (arith, T.find-remove w.failures id id, eq_refl id)
  settle_retry-find_self w id f (store, index_error message) h = ground (
    arith,
    record_failure-find T resource dispatch parse_date now w.failures id id f.payload message,
    eq_refl id,
  )
  settle_retry-find_self w id f (store, error message) h = ground (
    arith,
    record_failure-find T resource dispatch parse_date now w.failures id id f.payload message,
    eq_refl id,
  )

  settle_retry-store :
      (w : World T.State Store) (id : String) (f : Failure) (p : Store × Processed)
      → (settle_retry T resource dispatch parse_date now w id f p).0.store ≡ p.0
  unfolding settle_retry
  settle_retry-store w id f (store, result o media) = refl
  settle_retry-store w id f (store, index_error message) = refl
  settle_retry-store w id f (store, error message) = refl

  settle_retry-counts :
      (w : World T.State Store) (id : String) (f : Failure) (p : Store × Processed) (n : ℕ)
      → (if (settle_retry T resource dispatch parse_date now w id f p).1 then n + 1 else n)
        ≡ n + successes p.1
  unfolding settle_retry
  settle_retry-counts w id f (store, result o media) n = refl
  settle_retry-counts w id f (store, index_error message) n = omega arith
  settle_retry-counts w id f (store, error message) n = omega arith

  retry_from-recovered :
      (w : World T.State Store) (n : ℕ) (rows : List (String × Failure))
      → (retry_from T resource dispatch parse_date now w n rows).1 ≡ n + recovered_of w.store rows
  unfolding retry_from retry_one
  retry_from-recovered w n [] = omega arith
  retry_from-recovered w n ((id, f) ∷ rows) =
      let answer = dispatch f.payload w.store in
      let next = settle_retry T resource dispatch parse_date now w id f answer in
      let n' : ℕ = if next.1 then n + 1 else n in
      retry_from-recovered next.0 n' rows
      ∙ ap (λ st. n' + recovered_of st rows) (settle_retry-store w id f answer)
      ∙ omega (arith, settle_retry-counts w id f answer n)

  retry_from-find_other :
      (w : World T.State Store) (n : ℕ) (rows : List (String × Failure)) (j : String)
      → listed j rows ≡ false
      → T.find (retry_from T resource dispatch parse_date now w n rows).0.failures j
        ≡ T.find w.failures j
  unfolding retry_from retry_one
  retry_from-find_other w n [] j h = refl
  retry_from-find_other w n ((id, f) ∷ rows) j h =
      let (w', done) = retry_one T resource dispatch parse_date now w id f in
      retry_from-find_other w' (if done then n + 1 else n) rows j (ground arith)
      ∙ settle_retry-find_other w id j f (dispatch f.payload w.store) (ground arith)

  -- The rows as the query found them.
  abbrev pub AreStored : T.State → List (String × Failure) → Type 0
  AreStored s [] = Unit
  AreStored s ((k, f) ∷ rows) = (T.find s k ≡ some f) × AreStored s rows

  settle_retry-AreStored :
      (w : World T.State Store) (id : String) (f : Failure) (p : Store × Processed)
      (rows : List (String × Failure))
      → listed id rows ≡ false
      → AreStored w.failures rows
      → AreStored (settle_retry T resource dispatch parse_date now w id f p).0.failures rows
  settle_retry-AreStored w id f p [] h s = tt
  settle_retry-AreStored w id f p ((k, g) ∷ rows) h (here, s) =
      let other : str_eq id k ≡ false = ground (arith, eq_iff id k, eq_iff k id) in
      (
        settle_retry-find_other w id k f p other ∙ here,
        settle_retry-AreStored w id f p rows (ground arith) s,
      )

  retry_from-Retried :
      (w : World T.State Store) (n : ℕ) (rows : List (String × Failure))
      → HasDistinctIds rows
      → AreStored w.failures rows
      → Retried w.store rows (retry_from T resource dispatch parse_date now w n rows).0.failures
  unfolding retry_from retry_one
  retry_from-Retried w n [] d s = tt
  retry_from-Retried w n ((id, f) ∷ rows) (fresh, d) (here, s) =
      let answer = dispatch f.payload w.store in
      let next = settle_retry T resource dispatch parse_date now w id f answer in
      let n' : ℕ = if next.1 then n + 1 else n in
      (
        retry_from-find_other next.0 n' rows id fresh ∙ settle_retry-find_self w id f answer here,
        subst
            (λ st.
              Retried st rows
                (retry_from T resource dispatch parse_date now next.0 n' rows).0.failures)
            (settle_retry-store w id f answer)
            (retry_from-Retried next.0 n' rows d
              (settle_retry-AreStored w id f answer rows fresh s)),
      )

  -- A retry of the dead letter tries each row that the query gave, at most 500 of them, once and in
  -- order: the row whose payload is processed now is gone, one whose processing fails stays with one
  -- more retry counted, its first payload and the new error. Rows that were not given are untouched,
  -- the retried are all that were given, and the recovered are those that were processed.
  pub retry_failures_rows :
      (w : World T.State Store) (pending : List (String × Failure))
      → HasDistinctIds (take max_dead_letter_batch pending)
      → AreStored w.failures (take max_dead_letter_batch pending)
      → let (w', retried, recovered) =
          retry_failures T resource dispatch parse_date now w pending in
        Retried w.store (take 500 pending) w'.failures
        × ((j : String)
            → listed j (take 500 pending) ≡ false
            → T.find w'.failures j ≡ T.find w.failures j)
        × (recovered ≡ recovered_of w.store (take 500 pending))
        × (retried ≡ length (take 500 pending))
  unfolding retry_failures
  retry_failures_rows w pending d s =
      let batch = take max_dead_letter_batch pending in
      (
        retry_from-Retried w 0 batch d s,
        λ j h. retry_from-find_other w 0 batch j h,
        omega (arith, retry_from-recovered w 0 batch),
        refl,
      )

  -- Nothing that fails is lost: after a page, every record of it whose processing threw, and that
  -- has an external id, has a row in the dead letter, and rows that were there before are still
  -- there.
  pub process_page-IsCaptured :
      (w : World T.State Store) (m : SyncMetrics) (rs : List Record)
      → let done = process_page T resource dispatch parse_date now (length rs) w m rs in
        IsCaptured T resource dispatch parse_date now w m rs done.0.failures
        × ((j : String) → T.find w.failures j ≢ none → T.find done.0.failures j ≢ none)
  process_page-IsCaptured w m rs =
      rw
        (process_page-eq-process_chunk T resource dispatch parse_date now (length rs) w m rs
          (omega arith))
        (
          process_chunk-IsCaptured T resource dispatch parse_date now w m rs,
          λ j. process_chunk-keeps T resource dispatch parse_date now w m rs j,
        )

  settle_record_done :
      (w : World T.State Store) (m : SyncMetrics) (r : Record) (p : Store × Processed)
      → ¬ IsThrown T resource dispatch parse_date now p.1
      → (settle_record T resource dispatch parse_date now w m r p).0.failures ≡ w.failures
  unfolding settle_record
  settle_record_done w m r (store, result o media) h = refl
  settle_record_done w m r (store, index_error message) h = absurd (h tt)
  settle_record_done w m r (store, error message) h = absurd (h tt)

  -- A record that is processed without an error leaves the whole dead letter as it was, so an older
  -- failure `f` of the same record stays; the next retry of that row hands the old payload of `f`,
  -- not the newer record, to `dispatch`.
  pub success_leaves_failure :
      (w : World T.State Store) (m : SyncMetrics) (r : Record) (id : String) (f : Failure)
      → ¬ IsThrown T resource dispatch parse_date now (dispatch r w.store).1
      → T.find w.failures id ≡ some f
      → let w' = (process_record T resource dispatch parse_date now w m r).0 in
        (T.find w'.failures id ≡ some f)
        × ((retry_one T resource dispatch parse_date now w' id f).0.store
            ≡ (dispatch f.payload w'.store).0)
  unfolding process_record retry_one
  success_leaves_failure w m r id f h e =
      let w' : World T.State Store = (process_record T resource dispatch parse_date now w m r).0 in
      (
        rw (settle_record_done w m r (dispatch r w.store) h) e,
        settle_retry-store w' id f (dispatch f.payload w'.store),
      )
