-- ===== src/Risk.antt =====
-- The risk scan of active transactions, apps/api/src/services/transactionRiskService.ts: the rules
-- (collectRiskFactors, highestSeverity) and the deterministic texts. Instants are in milliseconds;
-- `now` is the instant of the scan.
pub mod Scan
pub mod Rules
pub mod Bounds
mod Examples
pub mod Days
pub mod Urgent
use Prim.Native.String.{◌++◌}
use frontstead_kit.Prelude.{
  ℕ, zero, suc, ◌+◌, ◌-◌, ◌*◌, ◌/◌, String, Bool, true, false, ◌&&◌, Option, none, some, List, [],
  ◌∷◌, any, keep, map, length, take, leb, ltb, ◌==◌, if◌then◌else◌,
}
use mathlib.Core.List.{◌++◌ as append}
use frontstead_kit.Prelude.Int.{ℤ, pos, negsuc, leb_ℤ}
use frontstead_kit.Documents.{Status, missing, matched, verified}
use frontstead_kit.Db.Slugs.{decimal}

abbrev pub day : ℕ
day = 24 * 60 * 60 * 1000

pub data Severity : Type 0 where
  low medium high : Severity

pub data Rule : Type 0 where
  overdue_task contingency_expiring closing_date_near missing_document unverified_document : Rule

pub record RiskFactor : Type 0 where
  pub rule : Rule
  pub description : String
  pub severity : Severity
  pub item : Option String

abbrev pub rule_label : Rule → String
rule_label overdue_task = "Overdue task"
rule_label contingency_expiring = "Contingency expiring"
rule_label closing_date_near = "Closing date near"
rule_label missing_document = "Missing document"
rule_label unverified_document = "Document needs verification"

pub record RiskTask : Type 0 where
  pub title : String
  pub due_date : Option ℕ

pub record RiskDocument : Type 0 where
  pub label : String
  pub status : Status

-- The columns and relations that the scan reads.
pub record Transaction : Type 0 where
  pub id : String
  pub address : Option String
  pub kind : String
  pub stage : String
  pub closing_date : Option ℕ
  pub inspection_contingency_date : Option ℕ
  pub financing_contingency_date : Option ℕ
  pub appraisal_contingency_date : Option ℕ
  pub title_contingency_date : Option ℕ
  pub tasks : List RiskTask
  pub documents : List RiskDocument

abbrev pub negated : ℕ → ℤ
negated zero = pos 0
negated (suc n) = negsuc n

-- `Math.ceil((date - now) / DAY)`
unfoldable pub days_away : (now date : ℕ) → ℤ
days_away now date =
    if ltb now date then pos ((date - now + (day - 1)) / day) else negated ((now - date) / day)

abbrev pub closing_days : (now : ℕ) → Option ℕ → Option ℤ
closing_days now none = none
closing_days now (some date) = some (days_away now date)

-- `days !== null && days <= bound`
abbrev pub is_within : Option ℤ → ℕ → Bool
is_within none bound = false
is_within (some days) bound = leb_ℤ days (pos bound)

-- `days <= bound && days >= 0`
abbrev pub is_coming : ℤ → ℕ → Bool
is_coming days bound = leb_ℤ days (pos bound) && leb_ℤ (pos 0) days

abbrev pub severe_if : Bool → Severity
severe_if true = high
severe_if false = medium

abbrev pub plural : ℕ → String
plural n = if ltb 1 n then "s" else ""

abbrev pub days_text : ℤ → String
days_text (pos n) = decimal n ++ (if n == 1 then " day" else " days")
days_text (negsuc n) = "-" ++ decimal (suc n) ++ " days"

-- formatAge, of a date that is past.
abbrev pub format_age : (now date : ℕ) → String
format_age now date =
    let days = (now - date) / day in
    if days == 0 then "today" else if days == 1 then "yesterday" else decimal days ++ " days ago"

abbrev pub is_overdue : (now : ℕ) → RiskTask → Bool
is_overdue now t = elim t.due_date [ none ↦ false | some date ↦ ltb date now ]

abbrev pub due_text : (now : ℕ) → Option ℕ → String
due_text now none = ""
due_text now (some date) = format_age now date

abbrev pub overdue_factor : (now : ℕ) → Option ℤ → RiskTask → RiskFactor
overdue_factor now closing t = record {
  rule = overdue_task;
  description = "Task \"" ++ t.title ++ "\" was due " ++ due_text now t.due_date ++ ".";
  severity = severe_if (is_within closing 14);
  item = some t.title;
}

abbrev pub contingencies : Transaction → List (String × Option ℕ)
contingencies tx =
    ("Inspection contingency", tx.inspection_contingency_date)
    ∷ ("Financing contingency", tx.financing_contingency_date)
    ∷ ("Appraisal contingency", tx.appraisal_contingency_date)
    ∷ ("Title contingency", tx.title_contingency_date)
    ∷ []

abbrev pub contingency_factor : String → ℤ → RiskFactor
contingency_factor label days = record {
  rule = contingency_expiring;
  description = label ++ " expires in " ++ days_text days ++ ".";
  severity = severe_if (leb_ℤ days (pos 3));
  item = some label;
}

abbrev pub is_expiring : (now : ℕ) → Option ℕ → Bool
is_expiring now none = false
is_expiring now (some date) = is_coming (days_away now date) 7

unfoldable pub contingency_factors : (now : ℕ) → List (String × Option ℕ) → List RiskFactor
contingency_factors now [] = []
contingency_factors now ((label, none) ∷ rest) = contingency_factors now rest
contingency_factors now ((label, some date) ∷ rest) =
    let more = contingency_factors now rest in
    let days = days_away now date in
    if is_coming days 7 then contingency_factor label days ∷ more else more

abbrev pub is_zero : ℤ → Bool
is_zero (pos n) = n == 0
is_zero (negsuc n) = false

abbrev pub is_closing : Option ℤ → Bool
is_closing none = false
is_closing (some days) = is_coming days 14

abbrev pub closing_factor : ℤ → RiskFactor
closing_factor days = record {
  rule = closing_date_near;
  description = "Closing is " ++ (if is_zero days then "today" else "in " ++ days_text days) ++ ".";
  severity = severe_if (leb_ℤ days (pos 7));
  item = none;
}

abbrev pub closing_factors : Option ℤ → List RiskFactor
closing_factors none = []
closing_factors (some days) = if is_coming days 14 then closing_factor days ∷ [] else []

pub comma_joined : List String → String
comma_joined [] = ""
comma_joined (x ∷ []) = x
comma_joined (x ∷ y ∷ xs) = x ++ ", " ++ comma_joined (y ∷ xs)

abbrev pub labels : List RiskDocument → List String
labels docs = map (λ d. d.label) docs

abbrev pub listed : List RiskDocument → String
listed docs = comma_joined (labels (take 2 docs)) ++ (if ltb 2 (length docs) then "…" else "")

abbrev pub missing_factors : Option ℤ → List RiskDocument → List RiskFactor
missing_factors closing [] = []
missing_factors closing (d ∷ docs) =
    let n = length (d ∷ docs) in
    record {
      rule = missing_document;
      description =
          decimal n ++ " required document" ++ plural n ++ " missing: " ++ listed (d ∷ docs) ++ ".";
      severity = severe_if (is_within closing 14);
      item = some (comma_joined (labels (d ∷ docs)));
    }
    ∷ []

abbrev pub unverified_factors : List RiskDocument → List RiskFactor
unverified_factors [] = []
unverified_factors (d ∷ docs) =
    let n = length (d ∷ docs) in
    record {
      rule = unverified_document;
      description =
          decimal n
          ++ " document"
          ++ plural n
          ++ " matched but not yet verified: "
          ++ listed (d ∷ docs)
          ++ ".";
      severity = medium;
      item = some (comma_joined (labels (d ∷ docs)));
    }
    ∷ []

abbrev pub is_missing : RiskDocument → Bool
is_missing d = elim d.status [ missing ↦ true | matched ↦ false | verified ↦ false ]

abbrev pub is_matched : RiskDocument → Bool
is_matched d = elim d.status [ missing ↦ false | matched ↦ true | verified ↦ false ]

unfoldable pub collect_risk_factors : (now : ℕ) → Transaction → List RiskFactor
unfolding contingency_factors
collect_risk_factors now tx =
    let closing = closing_days now tx.closing_date in
    append (map (overdue_factor now closing) (keep (is_overdue now) tx.tasks)) (
      append (contingency_factors now (contingencies tx)) (
        append (closing_factors closing) (
          append (missing_factors closing (keep is_missing tx.documents))
            (unverified_factors (keep is_matched tx.documents)))))

abbrev pub is_high : Severity → Bool
is_high high = true
is_high medium = false
is_high low = false

abbrev pub is_medium : Severity → Bool
is_medium medium = true
is_medium high = false
is_medium low = false

unfoldable pub highest_severity : List RiskFactor → Severity
highest_severity factors =
    if any (λ f. is_high f.severity) factors
    then high
    else if any (λ f. is_medium f.severity) factors
    then medium
    else low
