-- ===== src/Mls/Persistence/Run.antt =====
-- A synchronisation run of the resource Property, whose records are processed by
-- processPropertyRecord.
use frontstead_kit.Prelude.{ℕ, ◌≡◌, Bool, true, none, Option, List, String}
use frontstead_kit.Prelude.Int.{ℤ}
use frontstead_kit.Db.{Table}
use frontstead_kit.Mls.Metrics.{Failure, property, Feed, World}
use frontstead_kit.Mls.Sync.{run_sync}
use frontstead_kit.Mls.Sync.Keeps.{run_sync-Kept}
use frontstead_kit.Mls.Persistence.Write as Write
use frontstead_kit.Mls.Persistence.Write.{Environment}
use frontstead_kit.Mls.Persistence.Process.{process_property_record}
use frontstead_kit.Mls.Persistence.Safe.{IsSound, process_property_record-IsSound}

-- The run, with the database and the index that it leaves.
abbrev pub property_run :
    {Number : Type 0} (T : Table Failure) (E : Environment Number)
    → (parse_date : String → Option ℕ) → (now : ℕ) → (enabled : Option String)
    → (provider_id : String) → (full_sync : Bool) → (T.State → List (String × Failure))
    → (Option ℤ → Feed)
    → List String
    → World T.State (Write.Database E)
    → World T.State (Write.Database E)
property_run T E parse_date now enabled provider_id full_sync pending connector running w =
    (run_sync T property (process_property_record E) parse_date now enabled provider_id full_sync
      pending connector running w).1

-- Where Typesense is configured, a synchronisation run of properties, also one that fails halfway
-- or retries dead letters, leaves a search index whose every document shows a stored listing of its
-- property that is active, displayable and, unless public display is enabled, not of the MLS, when
-- the index was so before it.
pub property_run-IsSound :
    {Number : Type 0} (T : Table Failure) (E : Environment Number)
    (configured : E.is_typesense_configured ≡ true) (parse_date : String → Option ℕ) (now : ℕ)
    (enabled : Option String) (provider_id : String) (full_sync : Bool)
    (pending : T.State → List (String × Failure)) (connector : Option ℤ → Feed)
    (running : List String) (w : World T.State (Write.Database E))
    → IsSound E configured none w.store
    → IsSound E configured none
        (property_run T E parse_date now enabled provider_id full_sync pending connector running
          w).store
property_run-IsSound T E configured parse_date now enabled provider_id full_sync pending connector
      running w safe =
    run_sync-Kept T property (process_property_record E) parse_date now (IsSound E configured none)
      (process_property_record-IsSound E configured) enabled provider_id full_sync pending connector
      running w safe
