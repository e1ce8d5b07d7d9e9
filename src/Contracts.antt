-- ===== src/Contracts.antt =====
-- crates/pip-contracts/src/lib.rs: what workers return, as data.
pub mod Validation
pub mod Binding
mod Filling
mod Tests
use agent_p1p.Prelude.{◌≡◌, ◌↔◌, arith, ℕ, String, Bool, true, false, ◌&&◌, Option, List, ◌==◌}

abbrev pub contract_version : ℕ
contract_version = 2

pub data ContractError : Type 0 where
  unsupported_contract_version invalid_identity workflow_version_mismatch role_mismatch
        unexpected_model invalid_commit invalid_digest invalid_timestamp_order empty_required_field
        invalid_outcome_evidence ci_head_mismatch approval_has_blocking_findings
        approval_has_open_confirmation binding_mismatch :
      ContractError

pub data WorkerRole : Type 0 where
  planner builder reviewer_general reviewer_secperf final_reviewer : WorkerRole

-- `derive(PartialEq)` compares the variants' numbers.
abbrev pub role_number : WorkerRole → ℕ
role_number planner = 0
role_number builder = 1
role_number reviewer_general = 2
role_number reviewer_secperf = 3
role_number final_reviewer = 4

abbrev pub same_role : WorkerRole → WorkerRole → Bool
same_role a b = role_number a == role_number b

pub same_role_iff : (a b : WorkerRole) → (same_role a b ≡ true) ↔ (a ≡ b)
same_role_iff planner b = (λ h. ground arith, λ h. ground arith)
same_role_iff builder b = (λ h. ground arith, λ h. ground arith)
same_role_iff reviewer_general b = (λ h. ground arith, λ h. ground arith)
same_role_iff reviewer_secperf b = (λ h. ground arith, λ h. ground arith)
same_role_iff final_reviewer b = (λ h. ground arith, λ h. ground arith)

pub data ReviewMode : Type 0 where
  required advisory shadow : ReviewMode

pub record CaseIdentity : Type 0 where
  pub repository_id : ℕ
  pub issue_number : ℕ
  pub workflow_version : ℕ

abbrev pub same_identity : CaseIdentity → CaseIdentity → Bool
same_identity a b =
    a.repository_id == b.repository_id
    && a.issue_number == b.issue_number
    && a.workflow_version == b.workflow_version

pub record WorkerBinding : Type 0 where
  pub case : CaseIdentity
  pub task_id : String
  pub role : WorkerRole
  pub reviewer_id : Option String
  pub review_mode : Option ReviewMode
  pub requested_model : String
  pub skills_repository_commit : String
  pub plan_version : ℕ
  pub pr_number : Option ℕ
  pub expected_head_sha : Option String

-- The evidence map is carried and not read.
pub record CommonResult (Value : Type 0) : Type 0 where
  pub contract_version : ℕ
  pub workflow_version : ℕ
  pub case : CaseIdentity
  pub task_id : String
  pub role : WorkerRole
  pub requested_model : String
  pub actual_model : String
  pub skills_repository_commit : String
  pub started_at_unix : ℕ
  pub completed_at_unix : ℕ
  pub evidence : List (String × Value)

pub data PlannerOutcome : Type 0 where
  proceed already_fixed not_reproducible duplicate root_cause_different_scope cross_repo_dependency
        waiting_for_issue_creator needs_human_scope_decision abandon blocked
        blocked_unexpected_model :
      PlannerOutcome

pub data SensitiveScope : Type 0 where
  cryptography mls_cgka key_handling trust_anchor membership_authorization admin_authorization
        push_payload_context :
      SensitiveScope

pub record PlannerResult (Value : Type 0) : Type 0 where
  pub common : CommonResult Value
  pub outcome : PlannerOutcome
  pub plan_version : ℕ
  pub planned_base_sha : String
  pub root_cause : String
  pub authorized_scope : String
  pub sensitive_scope : List SensitiveScope
  pub dependencies : List Value
  pub open_decisions : List String
  pub plan_artifact : String

pub data BuilderOutcome : Type 0 where
  review_ready return_to_planning blocked abandon blocked_unexpected_model : BuilderOutcome

pub record FindingResolution : Type 0 where
  pub finding_id : String
  pub resolution_commit : String
  pub resolved_head_sha : String
  pub resolution_summary : String
  pub tests : List String

pub record BuilderResult (Value : Type 0) : Type 0 where
  pub common : CommonResult Value
  pub outcome : BuilderOutcome
  pub plan_version : ℕ
  pub build_round : ℕ
  pub head_sha : Option String
  pub local_checks : List String
  pub finding_resolutions : List FindingResolution

pub data ReviewOutcome : Type 0 where
  approve request_changes blocked blocked_unexpected_model : ReviewOutcome

pub record BlockingFinding : Type 0 where
  pub id : String
  pub summary : String
  pub defect : String
  pub consequence : String
  pub corrective_direction : String
  pub required_evidence : List String

pub record Suggestion : Type 0 where
  pub summary : String
  pub rationale : String

pub data ConfirmationStatus : Type 0 where
  confirmed_resolved still_open : ConfirmationStatus

pub record FindingConfirmation : Type 0 where
  pub finding_id : String
  pub status : ConfirmationStatus
  pub reviewed_fix_sha : String
  pub evidence : List String

pub record ReviewResult (Value : Type 0) : Type 0 where
  pub common : CommonResult Value
  pub reviewer_id : String
  pub outcome : ReviewOutcome
  pub plan_version : ℕ
  pub review_round : ℕ
  pub pr_number : ℕ
  pub reviewed_head_sha : String
  pub blocking_findings : List BlockingFinding
  pub suggestions : List Suggestion
  pub finding_confirmations : List FindingConfirmation

pub data FinalOutcome : Type 0 where
  ready return_to_build return_to_review return_to_planning wait_for_issue_creator blocked abandon
        blocked_unexpected_model :
      FinalOutcome

pub record FinalResult (Value : Type 0) : Type 0 where
  pub common : CommonResult Value
  pub outcome : FinalOutcome
  pub plan_version : ℕ
  pub final_review_round : ℕ
  pub pr_number : ℕ
  pub reviewed_head_sha : String
  pub residual_uncertainties : List String
  pub decision_rationale : String

pub data WorkerResult (Value : Type 0) : Type 0 where
  of_planner : PlannerResult Value → WorkerResult Value
  of_builder : BuilderResult Value → WorkerResult Value
  of_review : ReviewResult Value → WorkerResult Value
  of_final : FinalResult Value → WorkerResult Value
