-- ===== src/Llm/Domain.antt =====
-- llm/app/domain: the verdict of the model, the policy on it, and the profile of the contractor.
pub mod Policy
use profi_notifications.Prelude.{
  ℕ, Bool, true, false, ◌||◌, not, leb, List, Text, is_empty, Option, if◌then◌else◌,
}

-- The score lies between 0 and 100: that is checked where the answer of the model is read.
pub record Assessment : Type 0 where
  pub summary : Text
  pub suitability_score : ℕ
  pub unsupported_hits : List Text
  pub is_rejected_type : Bool
  pub matched_strong : List Text
  pub matched_working : List Text
  pub rationale : Text

pub data DecisionReason : Type 0 where
  above_threshold below_threshold unsupported_or_rejected : DecisionReason

pub record Decision : Type 0 where
  pub notify : Bool
  pub reason : DecisionReason

unfoldable pub decide : Assessment → ℕ → Decision
decide assessment threshold =
    if not (is_empty assessment.unsupported_hits) || assessment.is_rejected_type
    then record { notify = false; reason = unsupported_or_rejected }
    else if leb threshold assessment.suitability_score
    then record { notify = true; reason = above_threshold }
    else record { notify = false; reason = below_threshold }

pub record ContractorProfile : Type 0 where
  pub strong_skills : List Text
  pub working_skills : List Text
  pub unsupported_skills : List Text
  pub project_types : List Text
  pub infrastructure_experience : List Text
  pub integrations_experience : List Text
  pub preferred_projects : List Text
  pub rejected_projects : List Text
  pub minimum_budget : Option ℕ
  pub maximum_duration_months : Option ℕ
