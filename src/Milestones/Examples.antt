-- ===== src/Milestones/Examples.antt =====
-- A sale by the default template.
use frontstead_kit.Prelude.{
  ℕ, ◌≡◌, ◌≤◌, refl, inl, inr, String, Option, some, true, List, [], ◌∷◌, arith,
}
use frontstead_kit.Milestones.Template.{
  MilestoneDefinition, TransactionTemplate, default_milestones, default_template,
}
use frontstead_kit.Milestones.{
  Dates, Created, validate_milestone_date_order, order_errors, created_rows,
}
use frontstead_kit.Milestones.Order.{date, validate_milestone_date_order_sound}

abbrev same : String → String
same key = key

abbrev template : TransactionTemplate
template = default_template "t1" same

abbrev input : List (String × Option ℕ)
input =
    ("offer_accepted", some 86_400_000)
    ∷ ("inspection_deadline", some 172_800_000)
    ∷ ("appraisal_date", some 259_200_000)
    ∷ ("financing_deadline", some 345_600_000)
    ∷ ("unknown", some 1)
    ∷ ("closing_date", some 432_000_000)
    ∷ []

abbrev dates : Dates
dates =
    ("offer_accepted", 86_400_000)
    ∷ ("inspection_deadline", 172_800_000)
    ∷ ("appraisal_date", 259_200_000)
    ∷ ("financing_deadline", 345_600_000)
    ∷ ("closing_date", 432_000_000)
    ∷ []

abbrev first : MilestoneDefinition
first = record {
  id = "offer_accepted";
  key = "offer_accepted";
  label = "Offer Accepted";
  sort_order = 1;
  required = true;
}

abbrev second : MilestoneDefinition
second = record {
  id = "inspection_deadline";
  key = "inspection_deadline";
  label = "Inspection Deadline";
  sort_order = 2;
  required = true;
}

in_order : validate_milestone_date_order (default_milestones same) dates ≡ []
unfolding validate_milestone_date_order order_errors
in_order = refl

validate_milestone_date_order_sound_example : date dates first ≤ date dates second
validate_milestone_date_order_sound_example =
    validate_milestone_date_order_sound dates (default_milestones same)
      (refl, (refl, (refl, (refl, (refl, tt))))) in_order first second (inl refl) (inr (inl refl))
      (omega arith)

abbrev created : Created
created = created_rows "acc" "ann" "PROSPECT" template dates
