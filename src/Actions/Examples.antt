-- ===== src/Actions/Examples.antt =====
-- Calls on one pending action.
use frontstead_kit.Prelude.{ℕ, List, ◌≡◌, refl, none, some, [], ◌∷◌, str_eq, if◌then◌else◌, arith}
use frontstead_kit.Db.{Table, finite_map}
use frontstead_kit.Actions.{
  Action, World, pending, dismissed, snoozed, dismiss_action, snooze_action,
}
use frontstead_kit.Actions.Steps.{
  run, dismiss, snooze, Keeps, run-Keeps, here, next, Reach-terminal,
}
use frontstead_kit.Actions.Pages.{pages, pages-eq-rows}

abbrev T : Table Action
T = finite_map Action

abbrev follow_up : Action
follow_up = record {
  user_id = "ann";
  status = pending;
  tool_type = "DRAFT";
  contact_id = some "c1";
  property_id = none;
  transaction_id = none;
  decided_at = none;
  snoozed_until = none;
}

abbrev w : World (Table.State T)
w = record { actions = λ j. if str_eq "a1" j then some follow_up else none; audit = [] }

abbrev gone : Action
gone = record follow_up { status = dismissed; decided_at = some 7 }

abbrev closed : World (Table.State T)
closed = record { actions = λ j. if str_eq "a1" j then some gone else none; audit = [] }

run-Keeps_example :
    (b : Action) × (Table.find T (run T (dismiss "a1" none) "ann" 7 w).0.actions "a1" ≡ some b)
    × Keeps "ann" follow_up b
run-Keeps_example = run-Keeps T (dismiss "a1" none) "ann" 7 w "a1" follow_up refl

Reach-terminal_example :
    (b : Action) × (Table.find T (run T (snooze "a1" 9) "ann" 8 closed).0.actions "a1" ≡ some b)
    × (b.user_id ≡ "ann")
    × (b.status ≡ dismissed)
Reach-terminal_example = Reach-terminal T "a1" gone refl refl (next (snooze "a1" 9) "ann" 8 here)

abbrev numbers : List ℕ
numbers = 1 ∷ 2 ∷ 3 ∷ []

pages-eq-rows_example : pages 2 2 numbers ≡ numbers
pages-eq-rows_example = pages-eq-rows 2 numbers (omega arith)

snoozing :
    (snooze_action T "a1" "ann" 9 7 w).1
    ≡ some (record follow_up { status = snoozed; snoozed_until = some 9 })
unfolding snooze_action
snoozing = refl

dismissing : (dismiss_action T "a1" "ann" none 7 w).1 ≡ some gone
unfolding dismiss_action
dismissing = refl
