-- ===== src/Mls/Metrics.antt =====
-- The data of a synchronisation run, apps/mls-service/src/sync/runSync.ts and cursor.ts: metrics,
-- dead-letter rows, the feed of pages, the watermark and the set of locks.
use Prim.Native.String
use frontstead_kit.Prelude.{
  ℕ, ◌+◌, String, Bool, true, false, not, Option, none, some, List, ◌∷◌, any, keep, ltb, str_eq,
  if◌then◌else◌,
}
use frontstead_kit.Prelude.Int.{ℤ, sub_ℕ}
use frontstead_kit.Mls.Value.{Record, str}

pub data Resource : Type 0 where
  property member office : Resource

-- A row of the dead letter.
pub record Failure : Type 0 where
  pub payload : Record
  pub error : String
  pub retry_count : ℕ
  pub last_tried_at : ℕ

pub data ProcessOutcome : Type 0 where
  created updated removed skipped : ProcessOutcome

-- What `dispatch` resolves to, or throws: a failed search index, or anything else.
pub data Processed : Type 0 where
  result : ProcessOutcome → (media_failed : Bool) → Processed
  index_error : String → Processed
  error : String → Processed

pub record SyncMetrics : Type 0 where
  pub skipped : Bool
  pub fetched : ℕ
  pub processed : ℕ
  pub created : ℕ
  pub updated : ℕ
  pub removed : ℕ
  pub skipped_records : ℕ
  pub failed : ℕ
  pub media_failed : ℕ
  pub index_failed : ℕ
  pub retried : ℕ
  pub recovered : ℕ

abbrev pub empty_metrics : SyncMetrics
empty_metrics = record {
  skipped = false;
  fetched = 0;
  processed = 0;
  created = 0;
  updated = 0;
  removed = 0;
  skipped_records = 0;
  failed = 0;
  media_failed = 0;
  index_failed = 0;
  retried = 0;
  recovered = 0;
}

abbrev pub max_retries : ℕ
max_retries = 5

abbrev pub max_dead_letter_batch : ℕ
max_dead_letter_batch = 500

abbrev pub concurrency : ℕ
concurrency = 8

abbrev pub overlap_ms : ℕ
overlap_ms = 60_000

-- The pages of the connector's generator, which may throw between two of them.
pub data Feed : Type 0 where
  page : List Record → Feed → Feed
  finished : Feed
  broken : String → Feed

-- What the run's promise settles to.
pub data Settled : Type 0 where
  resolved : SyncMetrics → Settled
  rejected : String → Settled

abbrev pub external_id_of : Resource → Record → Option String
external_id_of property r = str (r "ListingKey")
external_id_of member r = str (r "MemberKey")
external_id_of office r = str (r "OfficeKey")

-- getCursor: the watermark less the overlap.
unfoldable pub get_cursor : Option ℕ → Option ℤ
get_cursor none = none
get_cursor (some last_sync_at) = some (sub_ℕ last_sync_at overlap_ms)

-- `if (ts && (!maxTs || ts > maxTs)) maxTs = ts`
unfoldable pub later : Option ℕ → Option ℕ → Option ℕ
later max_ts none = max_ts
later none (some ts) = some ts
later (some max) (some ts) = if ltb max ts then some ts else some max

abbrev pub count_media : Bool → SyncMetrics → SyncMetrics
count_media true m = record m { media_failed = m.media_failed + 1 }
count_media false m = m

-- The `switch` on the outcome and the media flag.
unfoldable pub count_result : ProcessOutcome → Bool → SyncMetrics → SyncMetrics
count_result created media m =
    count_media media (record m { created = m.created + 1; processed = m.processed + 1 })
count_result updated media m =
    count_media media (record m { updated = m.updated + 1; processed = m.processed + 1 })
count_result removed media m =
    count_media media (record m { removed = m.removed + 1; processed = m.processed + 1 })
count_result skipped media m =
    count_media media (record m { skipped_records = m.skipped_records + 1 })

-- What a run reads and writes besides its metrics: the dead letter, the rest of the database, the
-- cursor.
pub record World (Failures Store : Type 0) : Type 0 where
  pub failures : Failures
  pub store : Store
  pub cursor : Option ℕ

-- The in-process set of locks.
abbrev pub has : List String → String → Bool
has running key = any (λ k. str_eq k key) running

abbrev pub add : List String → String → List String
add running key = if has running key then running else key ∷ running

abbrev pub delete : List String → String → List String
delete running key = keep (λ k. not (str_eq k key)) running

abbrev pub resource_name : Resource → String
resource_name property = "Property"
resource_name member = "Member"
resource_name office = "Office"

abbrev pub lock_key : String → Resource → String
lock_key provider_id resource = String.◌++◌ provider_id (String.◌++◌ ":" (resource_name resource))

-- `process.env.MLS_SYNC_ENABLED === 'false'`
abbrev pub is_disabled : Option String → Bool
is_disabled none = false
is_disabled (some s) = str_eq s "false"

abbrev pub skipped_run : Settled
skipped_run = resolved (record empty_metrics { skipped = true })
