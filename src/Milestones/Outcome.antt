-- ===== src/Milestones/Outcome.antt =====
-- What the rows of a template and its dates are.
use frontstead_kit.Prelude.{
  none, sym, ◌∙◌, ◌+◌, ◌*◌, ◌⊎◌, ◌≢◌, max, map, str_eq, eq_iff, if◌then◌else◌, ℕ, zero, suc, ◌<◌,
  ◌≡◌, refl, String, Bool, true, false, Option, some, List, [], ◌∷◌, arith, All, Option-cases,
  Bool-cases, inl, inr,
}
use frontstead_kit.Milestones.Template.{
  MilestoneDefinition, TaskDefinition, DocumentDefinition, EventDefinition, TransactionTemplate,
}
use frontstead_kit.Milestones.{
  MilestoneRow, TaskRow, DocumentRow, milestone_rows, task_rows, event_row, day_start,
  stage_or_prospect, Dates, date_at, EventRow, Created, event_range_for_date, event_rows,
  created_rows, date_of_id, date_with_offset,
}

range_forward :
    (date duration : ℕ) (all_day : Bool)
    → (event_range_for_date date duration all_day).0
      < (event_range_for_date date duration all_day).1
range_forward date duration true = omega arith
range_forward date zero false = omega arith
range_forward date (suc n) false = omega arith

abbrev pub IsForward : EventRow → Type 0
IsForward e = e.start_at < e.end_at

event_rows-IsForward :
    (date_of : String → Option ℕ) (ds : List EventDefinition)
    → All IsForward (event_rows date_of ds)
unfolding event_rows
event_rows-IsForward date_of [] = tt
event_rows-IsForward date_of (d ∷ ds) = elim (Option-cases (date_of d.anchor_milestone_id)) [
  | inl out ↦ rw (event_rows, out) (event_rows-IsForward date_of ds)
  | inr (anchor, e) ↦
      rw (event_rows, e)
        (
          range_forward (date_with_offset anchor d.offset_days) d.duration_hours d.is_all_day,
          event_rows-IsForward date_of ds,
        )
]

-- The rows of definitions in their order: one for each whose milestone has a date, and none for the
-- others.
abbrev pub AreRows :
    {D R : Type 0} → (D → Option ℕ) → (D → ℕ → R → Type 0) → List D → List R → Type 0
AreRows date_of Is [] rows = rows ≡ []
AreRows date_of Is (d ∷ ds) rows =
    ((date_of d ≡ none) × AreRows date_of Is ds rows)
    ⊎ ((date : ℕ) × (row : _) × (rest : List _) × (date_of d ≡ some date)
        × (rows ≡ row ∷ rest)
        × Is d date row
        × AreRows date_of Is ds rest)

pub record IsMilestone (d : MilestoneDefinition) (date : ℕ) (row : MilestoneRow) : Type 0 where
  pub definition : row.milestone_definition_id ≡ d.id
  pub dated : row.date ≡ date

pub record IsTask (d : TaskDefinition) (anchor : ℕ) (row : TaskRow) : Type 0 where
  pub title : row.title ≡ d.title
  pub description : row.description ≡ d.description
  pub due : row.due_date ≡ date_with_offset anchor d.offset_days
  pub priority : row.priority ≡ d.priority
  pub status : row.status ≡ d.status

-- An event that begins with its day, or at 15:00, and lasts the day, or its hours, at least one.
pub record IsEvent (d : EventDefinition) (anchor : ℕ) (row : EventRow) : Type 0 where
  pub type : row.type ≡ d.type
  pub title : row.title ≡ d.title
  pub status : row.status ≡ d.status
  pub all_day : row.is_all_day ≡ d.is_all_day
  pub start :
      row.start_at
      ≡ day_start (date_with_offset anchor d.offset_days) + (if d.is_all_day then 0 else 54_000_000)
  pub end_ :
      row.end_at
      ≡ row.start_at + (if d.is_all_day then 86_400_000 else max 1 d.duration_hours * 3_600_000)

milestone_rows-AreRows :
    (dates : Dates) (ds : List MilestoneDefinition)
    → AreRows (λ d. date_at dates d.key) IsMilestone ds (milestone_rows dates ds)
unfolding milestone_rows
milestone_rows-AreRows dates [] = refl
milestone_rows-AreRows dates (d ∷ ds) = elim (Option-cases (date_at dates d.key)) [
  | inl out ↦ inl (out, rw (milestone_rows, out) (milestone_rows-AreRows dates ds))
  | inr (date, e) ↦ inr (
    date,
    record { milestone_definition_id = d.id; date = date },
    milestone_rows dates ds,
    e,
    rw (milestone_rows, e) refl,
    record { definition = refl; dated = refl },
    milestone_rows-AreRows dates ds,
  )
]

task_rows-AreRows :
    (date_of : String → Option ℕ) (ds : List TaskDefinition)
    → AreRows (λ d. date_of d.anchor_milestone_id) IsTask ds (task_rows date_of ds)
unfolding task_rows
task_rows-AreRows date_of [] = refl
task_rows-AreRows date_of (d ∷ ds) = elim (Option-cases (date_of d.anchor_milestone_id)) [
  | inl out ↦ inl (out, rw (task_rows, out) (task_rows-AreRows date_of ds))
  | inr (anchor, e) ↦ inr (
    anchor,
    record {
      title = d.title;
      description = d.description;
      due_date = date_with_offset anchor d.offset_days;
      priority = d.priority;
      status = d.status;
    },
    task_rows date_of ds,
    e,
    rw (task_rows, e) refl,
    record { title = refl; description = refl; due = refl; priority = refl; status = refl },
    task_rows-AreRows date_of ds,
  )
]

range_start :
    (date duration : ℕ) (all_day : Bool)
    → (event_range_for_date date duration all_day).0
      ≡ day_start date + (if all_day then 0 else 54_000_000)
range_start date duration true = omega arith
range_start date duration false = omega arith

range_end :
    (date duration : ℕ) (all_day : Bool)
    → (event_range_for_date date duration all_day).1
      ≡ (event_range_for_date date duration all_day).0
        + (if all_day then 86_400_000 else max 1 duration * 3_600_000)
range_end date duration true = omega arith
range_end date zero false = omega arith
range_end date (suc n) false = omega arith

event_rows-AreRows :
    (date_of : String → Option ℕ) (ds : List EventDefinition)
    → AreRows (λ d. date_of d.anchor_milestone_id) IsEvent ds (event_rows date_of ds)
unfolding event_rows
event_rows-AreRows date_of [] = refl
event_rows-AreRows date_of (d ∷ ds) = elim (Option-cases (date_of d.anchor_milestone_id)) [
  | inl out ↦ inl (out, rw (event_rows, out) (event_rows-AreRows date_of ds))
  | inr (anchor, e) ↦
      let date = date_with_offset anchor d.offset_days in
      inr (
        anchor,
        event_row d (event_range_for_date date d.duration_hours d.is_all_day),
        event_rows date_of ds,
        e,
        rw (event_rows, e) refl,
        record {
          type = refl;
          title = refl;
          status = refl;
          all_day = refl;
          start = range_start date d.duration_hours d.is_all_day;
          end_ = range_end date d.duration_hours d.is_all_day;
        },
        event_rows-AreRows date_of ds,
      )
]

-- What is created of a template: the transaction's own columns, a row for each dated milestone, and
-- for each task and event whose milestone has a date, and a slot for each document.
pub record IsCreated (account agent : String) (stage : Option String)
    (template : TransactionTemplate) (dates : Dates) (created : Created) : Type 0 where
  pub account_id : created.account_id ≡ account
  pub assigned_agent_id : created.assigned_agent_id ≡ agent
  pub template_id : created.template_id ≡ template.id
  pub closing_date : created.closing_date ≡ date_at dates "closing_date"
  pub stage_given : (stage ≡ some created.stage) ⊎ (created.stage ≡ "PROSPECT")
  pub stage_filled : created.stage ≢ ""
  pub milestones :
      AreRows (λ d. date_at dates d.key) IsMilestone template.milestones created.milestones
  pub tasks :
      AreRows
        (λ d. date_of_id template.milestones dates d.anchor_milestone_id)
        IsTask
        template.task_definitions
        created.tasks
  pub events :
      AreRows
        (λ d. date_of_id template.milestones dates d.anchor_milestone_id)
        IsEvent
        template.event_definitions
        created.events
  pub documents :
      map DocumentRow.document_definition_id created.documents
      ≡ map DocumentDefinition.id template.document_definitions
  pub labels :
      map DocumentRow.label created.documents
      ≡ map DocumentDefinition.label template.document_definitions
  pub events_forward : All IsForward created.events

stage_form :
    (stage : Option String)
    → (stage ≡ some (stage_or_prospect stage)) ⊎ (stage_or_prospect stage ≡ "PROSPECT")
stage_form none = inr refl
stage_form (some s) = elim (Bool-cases (str_eq s "")) [
  | inl empty ↦ inr (rw empty refl)
  | inr filled ↦ inl (rw filled refl)
]

abbrev default_stage : String
default_stage = "PROSPECT"

prospect_filled : default_stage ≢ ""
prospect_filled e = ground (arith, (eq_iff default_stage "").1 e)

stage_filled_lem : (stage : Option String) → stage_or_prospect stage ≢ ""
stage_filled_lem none e = prospect_filled e
stage_filled_lem (some s) e = elim (Bool-cases (str_eq s "")) [
  | inl empty ↦ prospect_filled (sym (rw empty refl) ∙ e)
  | inr filled ↦ absurd (ground (arith, filled, e, eq_iff s ""))
]

abbrev slot : DocumentDefinition → DocumentRow
slot d = record { document_definition_id = d.id; label = d.label }

map-slot :
    {A : Type 0} (f : DocumentRow → A) (g : DocumentDefinition → A) (ds : List DocumentDefinition)
    → ((d : DocumentDefinition) → f (slot d) ≡ g d)
    → map f (map slot ds) ≡ map g ds
map-slot f g [] same = refl
map-slot f g (d ∷ ds) same = rw (map-slot f g ds same, same d) refl

pub created_rows-IsCreated :
    (account agent : String) (stage : Option String) (template : TransactionTemplate)
    (dates : Dates)
    → IsCreated account agent stage template dates
        (created_rows account agent (stage_or_prospect stage) template dates)
unfolding created_rows
created_rows-IsCreated account agent stage template dates =
    let date_of = date_of_id template.milestones dates in
    record {
      account_id = refl;
      assigned_agent_id = refl;
      template_id = refl;
      closing_date = refl;
      stage_given = stage_form stage;
      stage_filled = stage_filled_lem stage;
      milestones = milestone_rows-AreRows dates template.milestones;
      tasks = task_rows-AreRows date_of template.task_definitions;
      events = event_rows-AreRows date_of template.event_definitions;
      documents =
          map-slot DocumentRow.document_definition_id DocumentDefinition.id
            template.document_definitions (λ d. refl);
      labels =
          map-slot DocumentRow.label DocumentDefinition.label template.document_definitions
            (λ d. refl);
      events_forward = event_rows-IsForward date_of template.event_definitions;
    }
