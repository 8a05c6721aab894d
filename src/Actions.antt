-- ===== src/Actions.antt =====
-- The queue of suggested actions, apps/api/src/services/actionQueueService.ts, with the columns of
-- `AIAction` and `AIAuditLog` in packages/db/prisma/schema.prisma. Each operation finds the row by
-- its key and its owner; `none` is the `null` that it returns where there is nothing to do.
pub mod Steps
pub mod Pages
pub mod Shown
mod Examples
use frontstead_kit.Prelude.{
  ℕ, ◌+◌, ◌-◌, ◌*◌, ◌/◌, String, Bool, true, false, not, ◌&&◌, ◌||◌, Option, none, some, List, [],
  ◌∷◌, str_eq, leb, length, take, drop, if◌then◌else◌, or_else, ◌==◌,
}
use frontstead_kit.Db.{Table}

pub data ActionStatus : Type 0 where
  pending approved executing executed sent dismissed snoozed failed expired : ActionStatus

pub record Action : Type 0 where
  pub user_id : String
  pub status : ActionStatus
  pub tool_type : String
  pub contact_id : Option String
  pub property_id : Option String
  pub transaction_id : Option String
  pub decided_at : Option ℕ
  pub snoozed_until : Option ℕ

-- What an audit row says besides its owner, its action and its time.
pub data Event : Type 0 where
  action_reviewed : Event
  action_dismissed : Option String → Event
  action_snoozed : ℕ → Event

pub record AuditLog : Type 0 where
  pub user_id : String
  pub action_id : String
  pub event : Event
  pub previous_status : ActionStatus
  pub tool_type : String
  pub occurred_at : ℕ

-- `['EXECUTED', 'SENT', 'DISMISSED', 'EXPIRED'].includes(status)`
abbrev pub is_terminal : ActionStatus → Bool
is_terminal executed = true
is_terminal sent = true
is_terminal dismissed = true
is_terminal expired = true
is_terminal _ = false

-- The table and the log, the last entry first.
pub record World (Actions : Type 0) : Type 0 where
  pub actions : Actions
  pub audit : List AuditLog

abbrev pub status_code : ActionStatus → ℕ
status_code pending = 0
status_code approved = 1
status_code executing = 2
status_code executed = 3
status_code sent = 4
status_code dismissed = 5
status_code snoozed = 6
status_code failed = 7
status_code expired = 8

-- The conditions of getQueue's query besides the owner.
pub record Filters : Type 0 where
  pub status : Option ActionStatus
  pub tool_type : Option String
  pub contact_id : Option String
  pub property_id : Option String
  pub transaction_id : Option String

abbrev pub agrees : Option String → Option String → Bool
agrees none column = true
agrees (some wanted) none = false
agrees (some wanted) (some v) = str_eq v wanted

-- `snoozedUntil: { lte: now }`, which a null never satisfies.
abbrev pub is_awake : Option ℕ → ℕ → Bool
is_awake none now = false
is_awake (some until) now = leb until now

-- Without a status: pending, failed, or snoozed until an instant that has passed.
abbrev pub in_status : Option ActionStatus → ℕ → Action → Bool
in_status (some wanted) now a = status_code a.status == status_code wanted
in_status none now a = elim a.status [
  | pending ↦ true
  | failed ↦ true
  | snoozed ↦ is_awake a.snoozed_until now
  | _ ↦ false
]

-- The `where` of getQueue.
unfoldable pub in_queue : (user : String) → Filters → (now : ℕ) → Action → Bool
in_queue user filters now a =
    str_eq a.user_id user
    && in_status filters.status now a
    && agrees filters.tool_type (some a.tool_type)
    && agrees filters.contact_id a.contact_id
    && agrees filters.property_id a.property_id
    && agrees filters.transaction_id a.transaction_id

-- The rows of one page, of the rows in the order of the query: `skip` and `take`.
abbrev pub page_of : {A : Type 0} → (page limit : ℕ) → List A → List A
page_of page limit rows = take limit (drop ((page - 1) * limit) rows)

-- `Math.ceil(total / take)`
abbrev pub total_pages : (total limit : ℕ) → ℕ
total_pages total limit = (total + (limit - 1)) / limit

module _ (T : Table Action) where
  -- findFirst by key and owner.
  abbrev pub get_action : T.State → String → String → Option Action
  get_action s id user = elim (T.find s id) [
    | none ↦ none
    | some a ↦ if str_eq a.user_id user then some a else none
  ]

  -- The update of the row and the entry of the log.
  abbrev pub record_event :
      World T.State → String → String → ℕ → Action → Action → Event → World T.State × Option Action
  record_event w id user now before after event = (
    record {
      actions = T.put w.actions id after;
      audit =
          record {
            user_id = user;
            action_id = id;
            event = event;
            previous_status = before.status;
            tool_type = before.tool_type;
            occurred_at = now;
          }
          ∷ w.audit;
    },
    some after,
  )

  unfoldable pub review_action :
      (id user : String) → (now : ℕ) → World T.State → World T.State × Option Action
  review_action id user now w = elim (get_action w.actions id user) [
    | none ↦ (w, none)
    | some a ↦
        record_event w id user now a (record a { decided_at = some (or_else a.decided_at now) })
          action_reviewed
  ]

  unfoldable pub dismiss_action :
      (id user : String)
      → (reason : Option String) → (now : ℕ) → World T.State
      → World T.State × Option Action
  dismiss_action id user reason now w = elim (get_action w.actions id user) [
    | none ↦ (w, none)
    | some a ↦
        if is_terminal a.status
        then (w, none)
        else record_event w id user now a (record a { status = dismissed; decided_at = some now })
            (action_dismissed reason)
  ]

  unfoldable pub snooze_action :
      (id user : String) → (until now : ℕ) → World T.State → World T.State × Option Action
  snooze_action id user until now w = elim (get_action w.actions id user) [
    | none ↦ (w, none)
    | some a ↦
        if is_terminal a.status
        then (w, none)
        else record_event w id user now a
            (record a { status = snoozed; snoozed_until = some until }) (action_snoozed until)
  ]
