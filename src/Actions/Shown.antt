-- ===== src/Actions/Shown.antt =====
-- What the queue shows of an action that was dismissed or snoozed.
use frontstead_kit.Prelude.{
  ℕ, ◌≡◌, String, false, Option, none, some, leb, eq_iff, arith, Option-cases, inl, inr,
}
use frontstead_kit.Db.{Table}
use frontstead_kit.Actions.{
  Action, World, Filters, in_queue, dismiss_action, snooze_action, dismissed, snoozed,
}

-- No status and no other filter.
abbrev pub no_filters : Filters
no_filters = record {
  status = none;
  tool_type = none;
  contact_id = none;
  property_id = none;
  transaction_id = none;
}

module _ (T : Table Action) where
  snooze_action-inv :
      (id user : String) (until now : ℕ) (w : World T.State) (b : Action)
      → (snooze_action T id user until now w).1 ≡ some b
      → (b.status ≡ snoozed) × (b.snoozed_until ≡ some until) × (b.user_id ≡ user)
  unfolding snooze_action
  snooze_action-inv id user until now w b h = elim (Option-cases (T.find w.actions id)) [
    | inl e ↦ ground arith
    | inr (a, e) ↦ ground (arith, eq_iff a.user_id user)
  ]

  -- An action that its user snoozed until an instant is in that user's queue, with no filter set,
  -- from that instant on and not before.
  pub snooze_action-in_queue :
      (id user : String) (until now later : ℕ) (w : World T.State) (b : Action)
      → (snooze_action T id user until now w).1 ≡ some b
      → in_queue user no_filters later b ≡ leb until later
  unfolding in_queue
  snooze_action-in_queue id user until now later w b h =
      let (status, awake, owner) = snooze_action-inv id user until now w b h in
      ground (arith, eq_iff b.user_id user)

  dismiss_action-inv :
      (id user : String) (reason : Option String) (now : ℕ) (w : World T.State) (b : Action)
      → (dismiss_action T id user reason now w).1 ≡ some b
      → b.status ≡ dismissed
  unfolding dismiss_action
  dismiss_action-inv id user reason now w b h = elim (Option-cases (T.find w.actions id)) [
    | inl e ↦ ground arith
    | inr (a, e) ↦ ground arith
  ]

  -- An action that was dismissed is in no queue that is asked for without a status.
  pub dismiss_action-in_queue :
      (id user : String) (reason : Option String) (now later : ℕ) (w : World T.State) (b : Action)
      (filters : Filters) (reader : String)
      → (dismiss_action T id user reason now w).1 ≡ some b
      → filters.status ≡ none
      → in_queue reader filters later b ≡ false
  unfolding in_queue
  dismiss_action-in_queue id user reason now later w b filters reader h plain =
      let status = dismiss_action-inv id user reason now w b h in ground arith
