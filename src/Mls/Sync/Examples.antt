-- ===== src/Mls/Sync/Examples.antt =====
-- Concrete synchronisation runs.
use frontstead_kit.Prelude.{
  ℕ, ◌+◌, ◌≡◌, refl, false, Option, none, some, List, [], ◌∷◌, String, if◌then◌else◌, str_eq, ◌≢◌,
}
use frontstead_kit.Prelude.Int.{ℤ}
use frontstead_kit.Db.{Table, finite_map}
use frontstead_kit.Mls.Value.{text, undefined, Record, str, date_of}
use frontstead_kit.Mls.Metrics.{
  property, Failure, Processed, result, error, created, SyncMetrics, empty_metrics, World, Feed,
  page, finished, broken, resolved, rejected, get_cursor, later, count_result,
}
use frontstead_kit.Mls.Sync.{
  record_failure, settle_retry, retry_one, retry_from, retry_failures, settle_record,
  process_record, process_chunk, process_page, consume, latest, sync_locked, run_sync,
}
use frontstead_kit.Mls.Sync.Pages.{IsBalanced}
use frontstead_kit.Mls.Sync.Watermark.{IsAdvanced}
use frontstead_kit.Mls.Sync.DeadLetter.{
  Retried, recovered_of, listed, IsCaptured, retry_failures_rows, process_page-IsCaptured,
}
use frontstead_kit.Mls.Sync.Locks.{run, run_sync-IsBalanced, run_sync-IsAdvanced}

abbrev T : Table Failure
T = finite_map Failure

-- A listing with a key and an instant.
abbrev listing : String → String → Record
listing key at f =
    if str_eq f "ListingKey"
    then text key
    else if str_eq f "ModificationTimestamp"
    then text at
    else undefined

-- The store counts the attempts; the listing "bad" is refused.
abbrev dispatch : Record → ℕ → ℕ × Processed
dispatch r n = elim (r "ListingKey") [
  | text s ↦ (n + 1, if str_eq s "bad" then error "refused" else result created false)
  | _ ↦ (n + 1, error "no key")
]

abbrev parse_date : String → Option ℕ
parse_date s = if str_eq s "t1" then some 100_000 else if str_eq s "t2" then some 200_000 else none

abbrev old_failure : Failure
old_failure = record {
  payload = listing "old" "t1";
  error = "refused";
  retry_count = 2;
  last_tried_at = 7;
}

abbrev before : World (Table.State T) ℕ
before = record {
  failures = λ k. if str_eq k "old" then some old_failure else none;
  store = 0;
  cursor = some 150_000;
}

abbrev pending : Table.State T → List (String × Failure)
pending s = elim (s "old") [ none ↦ [] | some f ↦ ("old", f) ∷ [] ]

abbrev rs : List Record
rs = listing "a" "t2" ∷ listing "bad" "t1" ∷ []

abbrev pages : Option ℤ → Feed
pages since = page rs finished

abbrev failing : Option ℤ → Feed
failing since = page rs (broken "timeout")

abbrev metrics : SyncMetrics
metrics = record empty_metrics {
  fetched = 2;
  processed = 1;
  created = 1;
  failed = 1;
  retried = 1;
  recovered = 1;
}

unfold_all : Unit {0}
unfolding run_sync sync_locked consume process_page process_chunk process_record settle_record
    retry_failures retry_from retry_one settle_retry record_failure latest get_cursor later
    count_result str date_of
unfold_all = tt

resolves :
    (run T property dispatch parse_date 9 none "mls" false pending pages [] before).2
    ≡ resolved metrics
unfolding unfold_all
resolves = refl

rejects :
    (run T property dispatch parse_date 9 none "mls" false pending failing [] before).2
    ≡ rejected "timeout"
unfolding unfold_all
rejects = refl

run_sync-IsBalanced_example : IsBalanced metrics
run_sync-IsBalanced_example =
    run_sync-IsBalanced T property dispatch parse_date 9 none "mls" false pending pages [] before
      metrics resolves

run_sync-IsAdvanced_example :
    IsAdvanced parse_date
      (some 150_000)
      (run T property dispatch parse_date 9 none "mls" false pending pages [] before).1.cursor
      rs
run_sync-IsAdvanced_example =
    run_sync-IsAdvanced T property dispatch parse_date 9 none "mls" false pending pages [] before
      metrics resolves refl

retry_failures_rows_example :
    let (w', retried, recovered) =
      retry_failures T property dispatch parse_date 9 before (("old", old_failure) ∷ []) in
    Retried T property dispatch parse_date 9 before.store (("old", old_failure) ∷ []) w'.failures
    × ((j : String)
        → listed j (("old", old_failure) ∷ []) ≡ false
        → w'.failures j ≡ before.failures j)
    × (recovered
        ≡ recovered_of T property dispatch parse_date 9 before.store (("old", old_failure) ∷ []))
    × (retried ≡ 1)
retry_failures_rows_example =
    retry_failures_rows T property dispatch parse_date 9 before (("old", old_failure) ∷ [])
      (refl, tt) (refl, tt)

process_page-IsCaptured_example :
    let done = process_page T property dispatch parse_date 9 2 before empty_metrics rs in
    IsCaptured T property dispatch parse_date 9 before empty_metrics rs done.0.failures
    × ((j : String) → before.failures j ≢ none → done.0.failures j ≢ none)
process_page-IsCaptured_example =
    process_page-IsCaptured T property dispatch parse_date 9 before empty_metrics rs
