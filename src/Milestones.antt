-- ===== src/Milestones.antt =====
-- The creation of a transaction from its milestones,
-- apps/api/src/services/transactionCreationFlowService.ts. An instant is the ℕ of its milliseconds
-- since JavaScript's earliest date, the begin of a day, before which no date is valid. The parse of a
-- date, the account and the keys of new rows are arguments; the answer is the rows that the
-- database transaction creates.
pub mod Template
pub mod Order
pub mod Rows
mod Examples
pub mod Outcome
use frontstead_kit.Prelude.{
  has_text, ℕ, zero, suc, ◌+◌, ◌-◌, ◌*◌, ◌%◌, String, Bool, true, false, not, ◌&&◌, Option, none,
  some, List, [], ◌∷◌, any, keep, map, ltb, leb, ◌==◌, str_eq, is_some, if◌then◌else◌, ◌++◌,
  or_else,
}
use frontstead_kit.Prelude.Fallible.{Result, ok, err, ◌>>=◌, ◌>>◌, refuse_if}
use frontstead_kit.Milestones.Template.{
  Offset, later, earlier, MilestoneDefinition, TaskDefinition, EventDefinition, DocumentDefinition,
  TransactionTemplate,
}

-- milestoneDates: the dates by the key of their milestone.
abbrev pub Dates : Type 0
Dates = List (String × ℕ)

abbrev pub date_at : Dates → String → Option ℕ
date_at [] key = none
date_at ((k, date) ∷ dates) key = if str_eq k key then some date else date_at dates key

abbrev pub knows : List MilestoneDefinition → String → Bool
knows definitions key = any (λ d. str_eq (MilestoneDefinition.key d) key) definitions

-- normalizeMilestoneDateInput: known keys with a date that parses.
pub normalize_milestone_date_input : List MilestoneDefinition → List (String × Option ℕ) → Dates
normalize_milestone_date_input definitions [] = []
normalize_milestone_date_input definitions ((key, none) ∷ input) =
    normalize_milestone_date_input definitions input
normalize_milestone_date_input definitions ((key, some date) ∷ input) =
    let rest = normalize_milestone_date_input definitions input in
    if knows definitions key then (key, date) ∷ rest else rest

-- The stable sort by sortOrder.
abbrev pub insert : MilestoneDefinition → List MilestoneDefinition → List MilestoneDefinition
insert d [] = d ∷ []
insert d (e ∷ es) = if leb d.sort_order e.sort_order then d ∷ e ∷ es else e ∷ insert d es

abbrev pub sort : List MilestoneDefinition → List MilestoneDefinition
sort [] = []
sort (d ∷ ds) = insert d (sort ds)

-- The check of one milestone against the one before it; an error names both labels.
abbrev pub pair_errors :
    Option ℕ → Option ℕ → MilestoneDefinition → MilestoneDefinition → List (String × String)
pair_errors none current_date previous current = []
pair_errors (some p) none previous current = []
pair_errors (some p) (some c) previous current =
    if ltb c p then (current.label, previous.label) ∷ [] else []

pub order_errors : Dates → List MilestoneDefinition → List (String × String)
order_errors dates [] = []
order_errors dates (d ∷ []) = []
order_errors dates (d ∷ e ∷ ds) =
    pair_errors (date_at dates d.key) (date_at dates e.key) d e ++ order_errors dates (e ∷ ds)

-- validateMilestoneDateOrder
pub validate_milestone_date_order : List MilestoneDefinition → Dates → List (String × String)
unfolding order_errors
validate_milestone_date_order definitions dates = order_errors dates (sort definitions)

abbrev pub hour : ℕ
hour = 3_600_000

abbrev pub day : ℕ
day = 86_400_000

-- dateWithOffset; the result of a date that is not valid any more is the earliest date.
abbrev pub date_with_offset : ℕ → Offset → ℕ
date_with_offset date (later days) = date + days * day
date_with_offset date (earlier days) = date - days * day

-- `setUTCHours(0, 0, 0, 0)`
abbrev pub day_start : ℕ → ℕ
day_start date = date - date % day

-- `durationHours || 1`
abbrev pub hours_or_one : ℕ → ℕ
hours_or_one zero = 1
hours_or_one (suc n) = suc n

-- eventRangeForDate
abbrev pub event_range_for_date : ℕ → ℕ → Bool → ℕ × ℕ
event_range_for_date date duration true = (day_start date, day_start date + day)
event_range_for_date date duration false =
    (day_start date + 15 * hour, day_start date + 15 * hour + hours_or_one duration * hour)

-- The rows that are created; each belongs to the new transaction, and a task or an event to its agent.
pub record MilestoneRow : Type 0 where
  pub milestone_definition_id : String
  pub date : ℕ

pub record TaskRow : Type 0 where
  pub title : String
  pub description : String
  pub due_date : ℕ
  pub priority : String
  pub status : String

pub record EventRow : Type 0 where
  pub type : String
  pub title : String
  pub status : String
  pub start_at : ℕ
  pub end_at : ℕ
  pub is_all_day : Bool

-- A slot, which is MISSING at first.
pub record DocumentRow : Type 0 where
  pub document_definition_id : String
  pub label : String

pub record Created : Type 0 where
  pub account_id : String
  pub stage : String
  pub assigned_agent_id : String
  pub template_id : String
  pub closing_date : Option ℕ
  pub milestones : List MilestoneRow
  pub tasks : List TaskRow
  pub events : List EventRow
  pub documents : List DocumentRow

-- milestoneById
abbrev pub date_of_id : List MilestoneDefinition → Dates → String → Option ℕ
date_of_id [] dates id = none
date_of_id (d ∷ ds) dates id =
    let rest = date_of_id ds dates id in if str_eq d.id id then date_at dates d.key else rest

pub milestone_rows : Dates → List MilestoneDefinition → List MilestoneRow
milestone_rows dates [] = []
milestone_rows dates (d ∷ ds) =
    let rest = milestone_rows dates ds in
    elim (date_at dates d.key) [
      | none ↦ rest
      | some date ↦ record { milestone_definition_id = d.id; date = date } ∷ rest
    ]

pub task_rows : (String → Option ℕ) → List TaskDefinition → List TaskRow
task_rows date_of [] = []
task_rows date_of (d ∷ ds) =
    let rest = task_rows date_of ds in
    elim (date_of d.anchor_milestone_id) [
      | none ↦ rest
      | some anchor ↦
          record {
            title = d.title;
            description = d.description;
            due_date = date_with_offset anchor d.offset_days;
            priority = d.priority;
            status = d.status;
          }
          ∷ rest
    ]

abbrev pub event_row : EventDefinition → ℕ × ℕ → EventRow
event_row d (start, end_) = record {
  type = d.type;
  title = d.title;
  status = d.status;
  start_at = start;
  end_at = end_;
  is_all_day = d.is_all_day;
}

pub event_rows : (String → Option ℕ) → List EventDefinition → List EventRow
event_rows date_of [] = []
event_rows date_of (d ∷ ds) =
    let rest = event_rows date_of ds in
    elim (date_of d.anchor_milestone_id) [
      | none ↦ rest
      | some anchor ↦
          event_row d (
            event_range_for_date (date_with_offset anchor d.offset_days) d.duration_hours
              d.is_all_day)
          ∷ rest
    ]

-- requiredMissing
pub required_missing : Dates → List MilestoneDefinition → List MilestoneDefinition
required_missing dates definitions =
    keep
      (λ d.
        MilestoneDefinition.required d && not (is_some (date_at dates (MilestoneDefinition.key d))))
      definitions

abbrev pub is_empty {ℓ} : {A : Type ℓ} → List A → Bool
is_empty [] = true
is_empty (x ∷ xs) = false

-- The rows for the dates of a template.
pub created_rows : (account agent stage : String) → TransactionTemplate → Dates → Created
unfolding milestone_rows task_rows event_rows
created_rows account agent stage template dates = record {
  account_id = account;
  stage = stage;
  assigned_agent_id = agent;
  template_id = template.id;
  closing_date = date_at dates "closing_date";
  milestones = milestone_rows dates template.milestones;
  tasks = task_rows (date_of_id template.milestones dates) template.task_definitions;
  events = event_rows (date_of_id template.milestones dates) template.event_definitions;
  documents =
      map
        (λ d. record {
          document_definition_id = DocumentDefinition.id d;
          label = DocumentDefinition.label d;
        })
        template.document_definitions;
}

-- `stage ? String(stage) : 'PROSPECT'`
abbrev pub stage_or_prospect : Option String → String
stage_or_prospect none = "PROSPECT"
stage_or_prospect (some s) = if str_eq s "" then "PROSPECT" else s

-- createTransactionFromMilestones; `type` and `stage` are the request's, `member` the agent's account.
pub create_transaction_from_milestones :
    (type stage : Option String) (agent : String) (member : Option String)
    (template : TransactionTemplate) (input : List (String × Option ℕ))
    → Result Created
unfolding required_missing validate_milestone_date_order normalize_milestone_date_input
create_transaction_from_milestones type stage agent none template input =
    refuse_if (not (has_text type)) 400 "Transaction type is required."
    >> err 403 "User has no account"
create_transaction_from_milestones type stage agent (some account) template input =
    let dates = normalize_milestone_date_input template.milestones input in
    refuse_if (not (has_text type)) 400 "Transaction type is required."
    >> refuse_if (not (is_empty (required_missing dates template.milestones))) 400
        "Missing required milestone dates."
    >> refuse_if (not (is_empty (validate_milestone_date_order template.milestones dates))) 400
        "Milestone date order is invalid."
    >> ok (created_rows account agent (stage_or_prospect stage) template dates)
