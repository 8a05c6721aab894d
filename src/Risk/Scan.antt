-- ===== src/Risk/Scan.antt =====
-- The scan of an agent's transactions and the queueing of actions, scanForAgent, analyzeAndQueue and
-- the texts of apps/api/src/services/transactionRiskService.ts. The query of fetchActiveTransactions,
-- the language model, the formatting of a date and the database's refusal of a new row are
-- arguments.
use Prim.Native.String.{◌++◌}
use frontstead_kit.Prelude.{
  ℕ, ◌+◌, ◌-◌, String, Bool, Option, none, some, List, [], ◌∷◌, any, length, leb, str_eq, or_else,
  if◌then◌else◌,
}
use frontstead_kit.Db.Slugs.{decimal}
use frontstead_kit.Risk.{
  Severity, low, medium, high, Rule, overdue_task, contingency_expiring, closing_date_near,
  missing_document, unverified_document, RiskFactor, Transaction, collect_risk_factors,
  highest_severity, is_high, plural,
}

pub record ScanResult : Type 0 where
  pub created : ℕ
  pub skipped : ℕ
  pub errors : ℕ

abbrev pub joined_parts : Option String → String → Option String → String
joined_parts none count none = count
joined_parts none count (some top) = count ++ " " ++ top
joined_parts (some closing) count none = closing ++ " " ++ count
joined_parts (some closing) count (some top) = closing ++ " " ++ count ++ " " ++ top

abbrev pub top_description : List RiskFactor → Option String
top_description [] = none
top_description (f ∷ factors) = some f.description

abbrev pub closing_part : Option String → Option String
closing_part none = none
closing_part (some closing) = some ("Closing " ++ closing ++ ".")

-- buildDeterministicSummary
unfoldable pub build_deterministic_summary : List RiskFactor → Option String → String
build_deterministic_summary factors closing =
    let n = length factors in
    joined_parts (closing_part closing) (decimal n ++ " risk factor" ++ plural n ++ " detected.")
      (top_description factors)

-- A template's text of a value that may be null.
abbrev pub null_text : Option String → String
null_text none = "null"
null_text (some s) = s

abbrev pub next_step : Rule → String → String
next_step overdue_task item = "Complete or reschedule: \"" ++ item ++ "\"."
next_step contingency_expiring item = "Address " ++ item ++ " before it expires."
next_step closing_date_near item = "Confirm all items are ready for closing."
next_step missing_document item = "Collect missing document(s): " ++ item ++ "."
next_step unverified_document item = "Verify matched document(s): " ++ item ++ "."

-- buildDeterministicNextStep
abbrev pub build_deterministic_next_step : List RiskFactor → String
build_deterministic_next_step [] = "Review transaction status."
build_deterministic_next_step (f ∷ factors) = next_step f.rule (null_text f.item)

-- `split(',')[0]`
pub before_comma : String → String
before_comma String.[] = String.[]
before_comma (String.◌∷◌ c s) =
    let rest = before_comma s in
    if str_eq (String.◌∷◌ c String.[]) "," then String.[] else String.◌∷◌ c rest

-- An empty address is as good as none.
abbrev pub addr : Transaction → String
addr tx = elim tx.address [
  | none ↦ tx.kind
  | some address ↦ if str_eq address "" then tx.kind else before_comma address
]

abbrev pub suggested_task : Rule → String → String → String
suggested_task overdue_task item place = "Follow up on overdue task — " ++ place
suggested_task contingency_expiring item place = "Handle " ++ item ++ " — " ++ place
suggested_task closing_date_near item place = "Closing prep checklist — " ++ place
suggested_task missing_document item place = "Collect missing docs — " ++ place
suggested_task unverified_document item place = "Verify documents — " ++ place

-- buildSuggestedTask
abbrev pub build_suggested_task : List RiskFactor → Transaction → Option String
build_suggested_task [] tx = none
build_suggested_task (f ∷ factors) tx = some (suggested_task f.rule (null_text f.item) (addr tx))

-- The texts of a proposal; what the model leaves out is `none`.
pub record Summary : Type 0 where
  pub summary : Option String
  pub recommended_next_step : Option String
  pub suggested_task_title : Option String

pub record RiskAction : Type 0 where
  pub user_id : String
  pub label : String
  pub priority : ℕ
  pub source_id : String
  pub idempotency_key : String
  pub uses_model : Bool
  pub risk_factors : List RiskFactor
  pub overall_severity : Severity
  pub texts : Summary
  pub closing_date_formatted : Option String
  pub transaction_address : Option String

abbrev pub priority_of : Severity → ℕ
priority_of high = 3
priority_of medium = 2
priority_of low = 1

-- What analyzeAndQueue gives: an action, nothing, or a refusal by the database.
pub data Analysis : Type 0 where
  queued : RiskAction → Analysis
  passed : Analysis
  threw : Analysis

module _ (now : ℕ) (format_date : ℕ → String)
    (model : Transaction → List RiskFactor → Option Summary) (refuses : String → Bool) where
  abbrev pub format_closing : Option ℕ → Option String
  format_closing none = none
  format_closing (some date) = some (format_date date)

  abbrev pub deterministic : Transaction → List RiskFactor → Summary
  deterministic tx factors = record {
    summary = some (build_deterministic_summary factors (format_closing tx.closing_date));
    recommended_next_step = some (build_deterministic_next_step factors);
    suggested_task_title = build_suggested_task factors tx;
  }

  -- generateAISummary for a high severity, the deterministic texts for the others and when the model
  -- fails.
  abbrev pub texts_of : Severity → Transaction → List RiskFactor → Summary
  texts_of high tx factors = or_else (model tx factors) (deterministic tx factors)
  texts_of medium tx factors = deterministic tx factors
  texts_of low tx factors = deterministic tx factors

  abbrev pub action_of : String → Transaction → List RiskFactor → RiskAction
  action_of agent_id tx factors =
      let severity = highest_severity factors in
      record {
        user_id = agent_id;
        label =
            (if is_high severity then "⚠ " else "")
            ++ "Risk — "
            ++ or_else tx.address tx.kind
            ++ " ("
            ++ tx.stage
            ++ ")";
        priority = priority_of severity;
        source_id = tx.id;
        idempotency_key = "transaction_risk_v1:transaction:" ++ tx.id;
        uses_model = is_high severity;
        risk_factors = factors;
        overall_severity = severity;
        texts = texts_of severity tx factors;
        closing_date_formatted = format_closing tx.closing_date;
        transaction_address = tx.address;
      }

  abbrev pub queue_factors : String → Transaction → List String → List RiskFactor → Analysis
  queue_factors agent_id tx active_ids [] = passed
  queue_factors agent_id tx active_ids (f ∷ factors) =
      if any (str_eq tx.id) active_ids
      then passed
      else if refuses tx.id
      then threw
      else queued (action_of agent_id tx (f ∷ factors))

  unfoldable pub analyze_and_queue : String → Transaction → List String → Analysis
  analyze_and_queue agent_id tx active_ids =
      queue_factors agent_id tx active_ids (collect_risk_factors now tx)

  -- The counters and the actions after one analysis; `left` more actions may be created.
  abbrev pub count_analysis :
      Analysis → ℕ → ScanResult × List RiskAction → ℕ × (ScanResult × List RiskAction)
  count_analysis (queued a) left (r, actions) =
      (left - 1, (record r { created = r.created + 1 }, a ∷ actions))
  count_analysis passed left (r, actions) = (left, (record r { skipped = r.skipped + 1 }, actions))
  count_analysis threw left (r, actions) = (left, (record r { errors = r.errors + 1 }, actions))

  -- The loop, whose `processed >= maxItems` is `left` at 0.
  unfoldable pub scan_from :
      String
      → List String
      → List Transaction
      → ℕ
      → ScanResult × List RiskAction
      → ScanResult × List RiskAction
  unfolding analyze_and_queue
  scan_from agent_id active_ids [] left x = x
  scan_from agent_id active_ids (tx ∷ txs) left x =
      let (left', x') = count_analysis (analyze_and_queue agent_id tx active_ids) left x in
      let rest = scan_from agent_id active_ids txs left' x' in if leb left 0 then x else rest

  abbrev pub empty_result : ScanResult
  empty_result = record { created = 0; skipped = 0; errors = 0 }

  -- scanForAgent: the counters and the rows created; the queries give none where they throw.
  unfoldable pub scan_for_agent :
      String
      → (max_items : Option ℕ) → Option (List Transaction × List String)
      → ScanResult × List RiskAction
  unfolding scan_from
  scan_for_agent agent_id max_items none = (record empty_result { errors = 1 }, [])
  scan_for_agent agent_id max_items (some (txs, active_ids)) =
      scan_from agent_id active_ids txs (or_else max_items 15) (empty_result, [])
