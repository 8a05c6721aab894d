-- ===== src/Actions/Steps.antt =====
-- What the operations of the queue keep of each action, and what they log.
use mathlib.Core.Path.{subst}
use frontstead_kit.Prelude.{
  ℕ, ◌≡◌, ◌≢◌, refl, ◌∙◌, String, true, false, Option, none, some, ◌∷◌, str_eq, eq_iff, is_some,
  or_else, arith, Option-cases, Bool-cases, inl, inr,
}
use frontstead_kit.Db.{Table, find-put_self}
use frontstead_kit.Actions.{
  Action, AuditLog, Event, World, is_terminal, get_action, record_event, review_action,
  dismiss_action, snooze_action, dismissed, snoozed, action_reviewed, action_dismissed,
  action_snoozed,
}

-- A call of one of the three operations.
pub data Operation : Type 0 where
  review : (id : String) → Operation
  dismiss : (id : String) → Option String → Operation
  snooze : (id : String) → (until : ℕ) → Operation

-- What a step by `user` keeps of an action `a` that it leaves as `b`: the owner; everything if it is
-- somebody else's; the status and the end of a snooze if the status is terminal; and that a decision
-- was taken.
pub record Keeps (user : String) (a b : Action) : Type 0 where
  pub owner : b.user_id ≡ a.user_id
  pub others : a.user_id ≢ user → b ≡ a
  pub status : is_terminal a.status ≡ true → b.status ≡ a.status
  pub snooze : is_terminal a.status ≡ true → b.snoozed_until ≡ a.snoozed_until
  pub decision : is_some a.decided_at ≡ true → is_some b.decided_at ≡ true

Keeps-self : (user : String) (a : Action) → Keeps user a a
Keeps-self user a = record {
  owner = refl;
  others = λ h. refl;
  status = λ h. refl;
  snooze = λ h. refl;
  decision = λ h. h;
}

reviewed-Keeps :
    (user : String) (now : ℕ) (a : Action)
    → a.user_id ≡ user
    → Keeps user a (record a { decided_at = some (or_else a.decided_at now) })
reviewed-Keeps user now a h = record {
  owner = refl;
  others = λ n. absurd (n h);
  status = λ t. refl;
  snooze = λ t. refl;
  decision = λ t. refl;
}

dismissed-Keeps :
    (user : String) (now : ℕ) (a : Action)
    → a.user_id ≡ user
    → is_terminal a.status ≡ false
    → Keeps user a (record a { status = dismissed; decided_at = some now })
dismissed-Keeps user now a h live = record {
  owner = refl;
  others = λ n. absurd (n h);
  status = λ t. ground arith;
  snooze = λ t. refl;
  decision = λ t. refl;
}

snoozed-Keeps :
    (user : String) (until : ℕ) (a : Action)
    → a.user_id ≡ user
    → is_terminal a.status ≡ false
    → Keeps user a (record a { status = snoozed; snoozed_until = some until })
snoozed-Keeps user until a h live = record {
  owner = refl;
  others = λ n. absurd (n h);
  status = λ t. ground arith;
  snooze = λ t. ground arith;
  decision = λ t. t;
}

module _ (T : Table Action) where
  unfoldable pub run :
      Operation → (user : String) → (now : ℕ) → World T.State → World T.State × Option Action
  unfolding review_action dismiss_action snooze_action
  run (review id) user now w = review_action T id user now w
  run (dismiss id reason) user now w = dismiss_action T id user reason now w
  run (snooze id until) user now w = snooze_action T id user until now w

  abbrev pub target : Operation → String
  target (review id) = id
  target (dismiss id reason) = id
  target (snooze id until) = id

  -- An answer with the action it names, before and after: nothing happened, or the row is the owner's,
  -- was written, and the log grew by one entry that tells the status before.
  pub data Effect (w : World T.State) (id user : String)
      : World T.State → Option Action → Type 0 where
    nothing : Effect w id user w none
    written :
        (now : ℕ) (a b : Action) (e : Event)
        → T.find w.actions id ≡ some a
        → a.user_id ≡ user
        → Keeps user a b
        → Effect w id user (record_event T w id user now a b e).0 (some b)

  get_action-inv :
      (s : T.State) (id user : String) (a : Action)
      → get_action T s id user ≡ some a
      → (T.find s id ≡ some a) × (a.user_id ≡ user)
  get_action-inv s id user a h = ground (arith, eq_iff a.user_id user)

  review-Effect :
      (id user : String) (now : ℕ) (w : World T.State)
      → Effect w id user (review_action T id user now w).0 (review_action T id user now w).1
  unfolding review_action
  review-Effect id user now w = elim (Option-cases (get_action T w.actions id user)) [
    | inl e ↦ rw (review_action, e) nothing
    | inr (a, e) ↦
        let (found, owned) = get_action-inv w.actions id user a e in
        rw (review_action, e)
          (written now a (record a { decided_at = some (or_else a.decided_at now) }) action_reviewed
            found owned (reviewed-Keeps user now a owned))
  ]

  dismiss-Effect :
      (id user : String) (reason : Option String) (now : ℕ) (w : World T.State)
      → Effect w id user
          (dismiss_action T id user reason now w).0
          (dismiss_action T id user reason now w).1
  unfolding dismiss_action
  dismiss-Effect id user reason now w = elim (Option-cases (get_action T w.actions id user)) [
    | inl e ↦ rw (dismiss_action, e) nothing
    | inr (a, e) ↦ elim (Bool-cases (is_terminal a.status)) [
      | inl over ↦ rw (dismiss_action, e, over) nothing
      | inr live ↦
          let (found, owned) = get_action-inv w.actions id user a e in
          rw (dismiss_action, e, live)
            (written now a (record a { status = dismissed; decided_at = some now })
              (action_dismissed reason) found owned (dismissed-Keeps user now a owned live))
    ]
  ]

  snooze-Effect :
      (id user : String) (until now : ℕ) (w : World T.State)
      → Effect w id user
          (snooze_action T id user until now w).0
          (snooze_action T id user until now w).1
  unfolding snooze_action
  snooze-Effect id user until now w = elim (Option-cases (get_action T w.actions id user)) [
    | inl e ↦ rw (snooze_action, e) nothing
    | inr (a, e) ↦ elim (Bool-cases (is_terminal a.status)) [
      | inl over ↦ rw (snooze_action, e, over) nothing
      | inr live ↦
          let (found, owned) = get_action-inv w.actions id user a e in
          rw (snooze_action, e, live)
            (written now a (record a { status = snoozed; snoozed_until = some until })
              (action_snoozed until) found owned (snoozed-Keeps user until a owned live))
    ]
  ]

  run-Effect :
      (op : Operation) (user : String) (now : ℕ) (w : World T.State)
      → Effect w (target op) user (run op user now w).0 (run op user now w).1
  unfolding run
  run-Effect (review id) user now w = review-Effect id user now w
  run-Effect (dismiss id reason) user now w = dismiss-Effect id user reason now w
  run-Effect (snooze id until) user now w = snooze-Effect id user until now w

  -- Where the row `j` that held `a` went.
  abbrev pub Kept : String → World T.State → String → Action → Type 0
  Kept user w j a = (b : Action) × (T.find w.actions j ≡ some b) × Keeps user a b

  Effect-Kept :
      {id user : String} {w w' : World T.State} {answer : Option Action} (j : String) (a : Action)
      → Effect w id user w' answer
      → T.find w.actions j ≡ some a
      → Kept user w' j a
  Effect-Kept {id} {user} j a nothing found = (a, found, Keeps-self user a)
  Effect-Kept {id} {user} {w} j a (written now c b e held owned keeps) found =
      elim (Bool-cases (str_eq id j)) [
        | inl same ↦
            let here : id ≡ j = ground (arith, eq_iff id j) in
            let before : c ≡ a = cc in
            (
              b,
              ground (arith, T.find-put w.actions id j b),
              subst (λ x. Keeps user x b) before keeps,
            )
        | inr other ↦ (a, ground (arith, T.find-put w.actions id j b), Keeps-self user a)
      ]

  -- Whatever a user asks of the queue, each action stays, with its owner; an action of somebody else
  -- stays as it is; a terminal status never changes; and a decision that was taken is never undone.
  pub run-Keeps :
      (op : Operation) (user : String) (now : ℕ) (w : World T.State) (j : String) (a : Action)
      → T.find w.actions j ≡ some a
      → (b : Action) × (T.find (run op user now w).0.actions j ≡ some b) × Keeps user a b
  run-Keeps op user now w j a found = Effect-Kept j a (run-Effect op user now w) found

  -- A session of calls, each with its user and its time.
  pub data Reach (w : World T.State) : World T.State → Type 0 where
    here : Reach w w
    next :
        {v : World T.State} (op : Operation) (user : String) (now : ℕ)
        → Reach w v
        → Reach w (run op user now v).0

  -- What the answer and the log say of a call: null and no change, or the action, written, with one
  -- new entry.
  pub data Logged (w : World T.State) (id user : String)
      : World T.State → Option Action → Type 0 where
    unchanged : Logged w id user w none
    logged :
        {w' : World T.State} (a b : Action) (e : AuditLog)
        → T.find w.actions id ≡ some a
        → a.user_id ≡ user
        → T.find w'.actions id ≡ some b
        → w'.audit ≡ e ∷ w.audit
        → (e.action_id ≡ id) × (e.user_id ≡ user) × (e.previous_status ≡ a.status)
        → Logged w id user w' (some b)

  -- An action in a terminal state is final: after any calls by any users it is still there, with
  -- the same owner and the same status.
  pub Reach-terminal :
      {w v : World T.State} (j : String) (a : Action)
      → T.find w.actions j ≡ some a
      → is_terminal a.status ≡ true
      → Reach w v
      → (b : Action) × (T.find v.actions j ≡ some b)
        × (b.user_id ≡ a.user_id)
        × (b.status ≡ a.status)
  Reach-terminal j a found over here = (a, found, refl, refl)
  Reach-terminal j a found over (next {v} op user now r) =
      let (b, held, owner, status) = Reach-terminal j a found over r in
      let (c, held', keeps) = run-Keeps op user now v j b held in
      (c, held', keeps.owner ∙ owner, keeps.status (rw status over) ∙ status)

  Effect-Logged :
      {id user : String} {w w' : World T.State} {answer : Option Action}
      → Effect w id user w' answer
      → Logged w id user w' answer
  Effect-Logged nothing = unchanged
  Effect-Logged {id} {user} {w} (written now a b e held owned keeps) =
      logged a b _ held owned (find-put_self T w.actions id b) refl (refl, refl, refl)

  -- A call that answers null changes nothing. A call that answers an action found it, as its user's,
  -- wrote the answer, and added one entry to the log, of this action and user, with the status
  -- that the action had before.
  pub run-Logged :
      (op : Operation) (user : String) (now : ℕ) (w : World T.State)
      → Logged w (target op) user (run op user now w).0 (run op user now w).1
  run-Logged op user now w = Effect-Logged (run-Effect op user now w)
