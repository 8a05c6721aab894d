-- ===== src/Risk/Examples.antt =====
-- A sale with an overdue task and a missing document, a week before its closing.
use frontstead_kit.Prelude.{
  ℕ, ◌*◌, ◌≡◌, refl, false, String, Option, none, some, List, [], ◌∷◌, if◌then◌else◌,
}
use frontstead_kit.Documents.{missing, matched}
use frontstead_kit.Risk.{
  day, high, medium, low, RiskFactor, Transaction, collect_risk_factors, highest_severity,
  contingency_factors, days_away,
}
use frontstead_kit.Risk.Urgent.{is_urgent, is_risky, highest_severity-is_urgent}
use frontstead_kit.Risk.Scan.{Summary, scan_for_agent}
use frontstead_kit.Risk.Bounds.{IsBounded, scan_for_agent-IsBounded}

abbrev sale : Transaction
sale = record {
  id = "t1";
  address = some "12 Main St, Austin";
  kind = "SALE";
  stage = "PENDING";
  closing_date = some (20 * day);
  inspection_contingency_date = none;
  financing_contingency_date = some (15 * day);
  appraisal_contingency_date = none;
  title_contingency_date = none;
  tasks = record { title = "Call"; due_date = some (10 * day) } ∷ [];
  documents =
      record { label = "Deed"; status = missing }
      ∷ record { label = "Title"; status = matched }
      ∷ [];
}

abbrev quiet : Transaction
quiet = record sale {
  id = "t2";
  closing_date = none;
  financing_contingency_date = none;
  tasks = [];
  documents = [];
}

abbrev format_date : ℕ → String
format_date n = "a day"

abbrev model : Transaction → List RiskFactor → Option Summary
model tx factors = none

severity_test : highest_severity (collect_risk_factors (13 * day) sale) ≡ high
unfolding highest_severity collect_risk_factors contingency_factors days_away
severity_test = refl

highest_severity-is_urgent_example :
    highest_severity (collect_risk_factors (13 * day) sale)
    ≡ (if is_urgent (13 * day) sale then high else if is_risky (13 * day) sale then medium else low)
highest_severity-is_urgent_example = highest_severity-is_urgent (13 * day) sale

scan_for_agent-IsBounded_example : IsBounded ("t9" ∷ []) 2 1 (
    scan_for_agent
      (13 * day)
      format_date
      model
      (λ id. false)
      "u1"
      (some 1)
      (some (sale ∷ quiet ∷ [], "t9" ∷ [])))
scan_for_agent-IsBounded_example =
    scan_for_agent-IsBounded (13 * day) format_date model (λ id. false) "u1" (some 1)
      (sale ∷ quiet ∷ []) ("t9" ∷ [])
