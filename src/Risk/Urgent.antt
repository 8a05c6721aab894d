-- ===== src/Risk/Urgent.antt =====
-- The severity of a transaction by its dates and rows alone.
use frontstead_kit.Prelude.{
  ℕ, ◌+◌, ◌*◌, Bool, true, false, ◌&&◌, ◌||◌, Option, none, some, List, [], ◌∷◌, any, any_congr,
  ltb, leb, ◌≡◌, refl, ◌∙◌, if◌then◌else◌, arith,
}
use frontstead_kit.Prelude.Int.{pos, leb_ℤ}
use frontstead_kit.Documents.{Status, missing, matched, verified}
use frontstead_kit.Risk.{
  low, medium, high, Transaction, RiskTask, RiskDocument, days_away, closing_days, is_within,
  is_coming, severe_if, is_overdue, contingencies, is_missing, is_matched, collect_risk_factors,
  is_high, highest_severity,
}
use frontstead_kit.Risk.Days.{days_away-below, days_away-from}
use frontstead_kit.Risk.Rules.{
  expires_as, closes_as, applies, any_severity, highest_severity-applies,
}

-- A date that has passed.
abbrev pub is_late : (now : ℕ) → Option ℕ → Bool
is_late now none = false
is_late now (some date) = ltb date now

-- A date that is at most so many days of 86,400,000 ms away, or has passed.
abbrev pub is_near : (now days : ℕ) → Option ℕ → Bool
is_near now days none = false
is_near now days (some date) = leb date (now + days * 86_400_000)

-- One that, besides, has passed by less than a day, if at all.
abbrev pub is_ahead : (now days : ℕ) → Option ℕ → Bool
is_ahead now days none = false
is_ahead now days (some date) = ltb now (date + 86_400_000) && leb date (now + days * 86_400_000)

abbrev pub deadlines : Transaction → List (Option ℕ)
deadlines tx =
    tx.inspection_contingency_date ∷ tx.financing_contingency_date ∷ tx.appraisal_contingency_date
    ∷ tx.title_contingency_date ∷ []

abbrev pub lacks : Status → Bool
lacks missing = true
lacks matched = false
lacks verified = false

abbrev pub unverified : Status → Bool
unverified missing = false
unverified matched = true
unverified verified = false

abbrev pub some_late : (now : ℕ) → Transaction → Bool
some_late now tx = any (λ t. is_late now (RiskTask.due_date t)) tx.tasks

abbrev pub some_missing : Transaction → Bool
some_missing tx = any (λ d. lacks (RiskDocument.status d)) tx.documents

abbrev pub some_unverified : Transaction → Bool
some_unverified tx = any (λ d. unverified (RiskDocument.status d)) tx.documents

-- A late task or a missing document with the closing within two weeks, a contingency within three
-- days, or the closing within seven.
abbrev pub is_urgent : (now : ℕ) → Transaction → Bool
is_urgent now tx =
    (some_late now tx && is_near now 14 tx.closing_date)
    || any (is_ahead now 3) (deadlines tx)
    || is_ahead now 7 tx.closing_date
    || (some_missing tx && is_near now 14 tx.closing_date)

-- A late task, a contingency within seven days, the closing within two weeks, or a document that is
-- missing or not verified.
abbrev pub is_risky : (now : ℕ) → Transaction → Bool
is_risky now tx =
    some_late now tx
    || any (is_ahead now 7) (deadlines tx)
    || is_ahead now 14 tx.closing_date
    || some_missing tx
    || some_unverified tx

high_if : (b : Bool) → is_high (severe_if b) ≡ b
high_if b = ground arith

late_agrees : (now : ℕ) (t : RiskTask) → is_overdue now t ≡ is_late now t.due_date
late_agrees now t = ground arith

near_agrees : (now d : ℕ) (o : Option ℕ) → is_within (closing_days now o) d ≡ is_near now d o
near_agrees now d none = refl
near_agrees now d (some date) = days_away-below now date d

both :
    (now date d : ℕ)
    → is_coming (days_away now date) d
      ≡ (ltb now (date + 86_400_000) && leb date (now + d * 86_400_000))
both now date d = ground (arith, days_away-below now date d, days_away-from now date)

expires_high : (now : ℕ) (o : Option ℕ) → expires_as is_high now o ≡ is_ahead now 3 o
expires_high now none = refl
expires_high now (some date) = ground (
  arith,
  both now date 7,
  days_away-below now date 3,
  high_if (leb_ℤ (days_away now date) (pos 3)),
)

closes_high : (now : ℕ) (o : Option ℕ) → closes_as is_high (closing_days now o) ≡ is_ahead now 7 o
closes_high now none = refl
closes_high now (some date) = ground (
  arith,
  both now date 14,
  days_away-below now date 7,
  high_if (leb_ℤ (days_away now date) (pos 7)),
)

expires_any : (now : ℕ) (o : Option ℕ) → expires_as any_severity now o ≡ is_ahead now 7 o
expires_any now none = refl
expires_any now (some date) = ground (arith, both now date 7)

closes_any :
    (now : ℕ) (o : Option ℕ) → closes_as any_severity (closing_days now o) ≡ is_ahead now 14 o
closes_any now none = refl
closes_any now (some date) = ground (arith, both now date 14)

missing_agrees : (d : RiskDocument) → is_missing d ≡ lacks d.status
missing_agrees d = ground arith

matched_agrees : (d : RiskDocument) → is_matched d ≡ unverified d.status
matched_agrees d = ground arith

tasks_agree : (now : ℕ) (tx : Transaction) → any (is_overdue now) tx.tasks ≡ some_late now tx
tasks_agree now tx = any_congr _ _ (late_agrees now) tx.tasks

missing_all : (tx : Transaction) → any is_missing tx.documents ≡ some_missing tx
missing_all tx = any_congr _ _ missing_agrees tx.documents

matched_all : (tx : Transaction) → any is_matched tx.documents ≡ some_unverified tx
matched_all tx = any_congr _ _ matched_agrees tx.documents

five :
    (a b c d e a' b' c' d' e' : Bool)
    → a ≡ a'
    → b ≡ b'
    → c ≡ c'
    → d ≡ d'
    → e ≡ e'
    → (a || (b || (c || (d || e)))) ≡ (a' || (b' || (c' || (d' || e'))))
five a b c d e a' b' c' d' e' ea eb ec ed ee = cc

with : (a a' b b' : Bool) → a ≡ a' → b ≡ b' → (a && b) ≡ (a' && b')
with a a' b b' ea eb = cc

urgent_lem : (now : ℕ) (tx : Transaction) → applies is_high now tx ≡ is_urgent now tx
urgent_lem now tx =
    let closing = is_near now 14 tx.closing_date in
    let near : is_high (severe_if (is_within (closing_days now tx.closing_date) 14)) ≡ closing =
      high_if (is_within (closing_days now tx.closing_date) 14)
      ∙ near_agrees now 14 tx.closing_date in
    let four : any (λ c. expires_as is_high now c.1) (contingencies tx)
        ≡ any (is_ahead now 3) (deadlines tx) =
      rw
        (
          expires_high now tx.inspection_contingency_date,
          expires_high now tx.financing_contingency_date,
          expires_high now tx.appraisal_contingency_date,
          expires_high now tx.title_contingency_date,
        )
        refl in
    five _ _ _ _ _ _ _ _ _ false (with _ _ _ _ (tasks_agree now tx) near) four
      (closes_high now tx.closing_date) (with _ _ _ _ (missing_all tx) near) (ground arith)
    ∙ ground arith

risky_lem : (now : ℕ) (tx : Transaction) → applies any_severity now tx ≡ is_risky now tx
risky_lem now tx =
    let four : any (λ c. expires_as any_severity now c.1) (contingencies tx)
        ≡ any (is_ahead now 7) (deadlines tx) =
      rw
        (
          expires_any now tx.inspection_contingency_date,
          expires_any now tx.financing_contingency_date,
          expires_any now tx.appraisal_contingency_date,
          expires_any now tx.title_contingency_date,
        )
        refl in
    five _ _ _ _ _ (some_late now tx && true) _ _ (some_missing tx && true)
      (some_unverified tx && true) (with _ _ _ _ (tasks_agree now tx) refl) four
      (closes_any now tx.closing_date) (with _ _ _ _ (missing_all tx) refl)
      (with _ _ _ _ (matched_all tx) refl)
    ∙ ground arith

-- The severity of a transaction by its facts: high when it is urgent, that is, when a task is late or
-- a document missing and the closing is at most two weeks away, a contingency at most three days, or
-- the closing at most seven; otherwise medium when any rule applies to it, and low when none does.
pub highest_severity-is_urgent :
    (now : ℕ) (tx : Transaction)
    → highest_severity (collect_risk_factors now tx)
      ≡ (if is_urgent now tx then high else if is_risky now tx then medium else low)
highest_severity-is_urgent now tx =
    highest_severity-applies now tx ∙ rw (urgent_lem now tx, risky_lem now tx) refl
