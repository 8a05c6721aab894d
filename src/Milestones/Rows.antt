-- ===== src/Milestones/Rows.antt =====
-- The rows of a new transaction.
use frontstead_kit.Prelude.{◌≡◌, true, is_some}
use frontstead_kit.Milestones.Template.{MilestoneDefinition}
use frontstead_kit.Milestones.{Dates, date_at}
pub use frontstead_kit.Milestones.Outcome.{IsCreated}

-- A required milestone has a date.
abbrev pub IsMet : Dates → MilestoneDefinition → Type 0
IsMet dates d = d.required ≡ true → is_some (date_at dates d.key) ≡ true
