-- ===== src/Milestones/Template.antt =====
-- The default template of a transaction, the blueprint of
-- apps/api/src/services/transactionCreationFlowService.ts as ensureDefaultTemplate creates it:
-- `new_id` is the identifier that the database gives to the definition of a key. The keys and sort
-- orders of tasks, events and documents, which only the preview shows, are left out.
use frontstead_kit.Prelude.{ℕ, String, Bool, true, false, List, [], ◌∷◌}

-- `offsetDays`, with its sign.
pub data Offset : Type 0 where
  later earlier : ℕ → Offset

pub record MilestoneDefinition : Type 0 where
  pub id : String
  pub key : String
  pub label : String
  pub sort_order : ℕ
  pub required : Bool

pub record TaskDefinition : Type 0 where
  pub title : String
  pub description : String
  pub anchor_milestone_id : String
  pub offset_days : Offset
  pub priority : String
  pub status : String

pub record EventDefinition : Type 0 where
  pub type : String
  pub title : String
  pub anchor_milestone_id : String
  pub offset_days : Offset
  pub duration_hours : ℕ
  pub is_all_day : Bool
  pub status : String

pub record DocumentDefinition : Type 0 where
  pub id : String
  pub label : String
  pub required : Bool

pub record TransactionTemplate : Type 0 where
  pub id : String
  pub milestones : List MilestoneDefinition
  pub task_definitions : List TaskDefinition
  pub event_definitions : List EventDefinition
  pub document_definitions : List DocumentDefinition

abbrev pub default_milestones : (String → String) → List MilestoneDefinition
default_milestones new_id =
    record {
      id = new_id "offer_accepted";
      key = "offer_accepted";
      label = "Offer Accepted";
      sort_order = 1;
      required = true;
    }
    ∷ record {
      id = new_id "inspection_deadline";
      key = "inspection_deadline";
      label = "Inspection Deadline";
      sort_order = 2;
      required = true;
    }
    ∷ record {
      id = new_id "appraisal_date";
      key = "appraisal_date";
      label = "Appraisal Date";
      sort_order = 3;
      required = true;
    }
    ∷ record {
      id = new_id "financing_deadline";
      key = "financing_deadline";
      label = "Financing Deadline";
      sort_order = 4;
      required = true;
    }
    ∷ record {
      id = new_id "closing_date";
      key = "closing_date";
      label = "Closing Date";
      sort_order = 5;
      required = true;
    }
    ∷ []

abbrev pub default_tasks : (String → String) → List TaskDefinition
default_tasks new_id =
    record {
      title = "Confirm escrow is opened";
      description = "Verify escrow account details and notify all parties.";
      anchor_milestone_id = new_id "offer_accepted";
      offset_days = later 1;
      priority = "HIGH";
      status = "TODO";
    }
    ∷ record {
      title = "Review inspection findings";
      description = "Compile findings and action requests before deadline.";
      anchor_milestone_id = new_id "inspection_deadline";
      offset_days = earlier 1;
      priority = "HIGH";
      status = "TODO";
    }
    ∷ record {
      title = "Prepare appraisal packet";
      description = "Ensure all property details and comps are ready.";
      anchor_milestone_id = new_id "appraisal_date";
      offset_days = earlier 2;
      priority = "MEDIUM";
      status = "TODO";
    }
    ∷ record {
      title = "Confirm lender readiness";
      description = "Check lender status and clear pending underwriting items.";
      anchor_milestone_id = new_id "financing_deadline";
      offset_days = earlier 1;
      priority = "HIGH";
      status = "TODO";
    }
    ∷ record {
      title = "Review closing statement";
      description = "Validate figures and approvals before closing day.";
      anchor_milestone_id = new_id "closing_date";
      offset_days = earlier 2;
      priority = "URGENT";
      status = "TODO";
    }
    ∷ []

abbrev pub default_events : (String → String) → List EventDefinition
default_events new_id =
    record {
      type = "INSPECTION";
      title = "Inspection walkthrough";
      anchor_milestone_id = new_id "inspection_deadline";
      offset_days = earlier 1;
      duration_hours = 1;
      is_all_day = false;
      status = "SCHEDULED";
    }
    ∷ record {
      type = "APPRAISAL";
      title = "Appraisal appointment";
      anchor_milestone_id = new_id "appraisal_date";
      offset_days = later 0;
      duration_hours = 1;
      is_all_day = false;
      status = "SCHEDULED";
    }
    ∷ record {
      type = "CLOSING";
      title = "Closing appointment";
      anchor_milestone_id = new_id "closing_date";
      offset_days = later 0;
      duration_hours = 2;
      is_all_day = false;
      status = "SCHEDULED";
    }
    ∷ []

abbrev pub default_documents : (String → String) → List DocumentDefinition
default_documents new_id =
    record { id = new_id "purchase_agreement"; label = "Purchase Agreement"; required = true }
    ∷ record { id = new_id "seller_disclosures"; label = "Seller Disclosures"; required = true }
    ∷ record { id = new_id "title_report"; label = "Title Report / Commitment"; required = true }
    ∷ record { id = new_id "closing_disclosure"; label = "Closing Disclosure"; required = true }
    ∷ record { id = new_id "inspection_report"; label = "Inspection Report"; required = false }
    ∷ record { id = new_id "appraisal"; label = "Appraisal"; required = false }
    ∷ record { id = new_id "amendment"; label = "Amendment / Addendum"; required = false }
    ∷ record {
      id = new_id "proof_of_funds";
      label = "Proof of Funds / Pre-Approval";
      required = false;
    }
    ∷ record { id = new_id "home_warranty"; label = "Home Warranty"; required = false }
    ∷ record {
      id = new_id "lead_paint_disclosure";
      label = "Lead Paint Disclosure";
      required = false;
    }
    ∷ []

abbrev pub default_template : (id : String) → (String → String) → TransactionTemplate
default_template id new_id = record {
  id = id;
  milestones = default_milestones new_id;
  task_definitions = default_tasks new_id;
  event_definitions = default_events new_id;
  document_definitions = default_documents new_id;
}
