-- ===== src/Contracts/Tests.antt =====
-- Worker results of crates/pip-contracts/src/lib.rs on concrete values.
use agent_p1p.Prelude.{ℕ, String, ◌≡◌, ◌↔◌, refl, Bool, true, some, [], ◌∷◌, All, ok, err}
use agent_p1p.Contracts.{
  CaseIdentity, WorkerBinding, WorkerRole, planner, builder, reviewer_general, required,
  CommonResult, PlannerResult, proceed, BuilderResult, review_ready, ReviewResult, approve,
  still_open, confirmed_resolved, FindingConfirmation, of_planner, of_review, binding_mismatch,
  approval_has_open_confirmation,
}
use agent_p1p.Contracts.Validation.{validate, check_common, check_planner, check_review}
use agent_p1p.Contracts.Validation.Accepted.{
  IsHeader, role_fits, approval_is_clean, accepted_has-IsHeader,
}
use agent_p1p.Contracts.Binding.{IsBound, matches, validate_binding, validate_binding_iff}

abbrev sha : String
sha = "0123456789abcdef0123456789abcdef01234567"

abbrev case_one : CaseIdentity
case_one = record { repository_id = 1; issue_number = 7; workflow_version = 2 }

abbrev header : WorkerRole → CommonResult ℕ
header role = record {
  contract_version = 2;
  workflow_version = 2;
  case = case_one;
  task_id = "task-1";
  role = role;
  requested_model = "model-a";
  actual_model = "model-a";
  skills_repository_commit = sha;
  started_at_unix = 10;
  completed_at_unix = 20;
  evidence = [];
}

abbrev confirmation : FindingConfirmation
confirmation = record {
  finding_id = "F-1";
  status = confirmed_resolved;
  reviewed_fix_sha = sha;
  evidence = [];
}

abbrev review : ReviewResult ℕ
review = record {
  common = header reviewer_general;
  reviewer_id = "general";
  outcome = approve;
  plan_version = 1;
  review_round = 1;
  pr_number = 12;
  reviewed_head_sha = sha;
  blocking_findings = [];
  suggestions = [];
  finding_confirmations = confirmation ∷ [];
}

abbrev build : BuilderResult ℕ
build = record {
  common = header builder;
  outcome = review_ready;
  plan_version = 1;
  build_round = 1;
  head_sha = some sha;
  local_checks = [];
  finding_resolutions = [];
}

abbrev plan : PlannerResult ℕ
plan = record {
  common = header planner;
  outcome = proceed;
  plan_version = 1;
  planned_base_sha = sha;
  root_cause = "";
  authorized_scope = "the parser";
  sensitive_scope = [];
  dependencies = [];
  open_decisions = [];
  plan_artifact = "plan.md";
}

abbrev binding : WorkerBinding
binding = record {
  case = case_one;
  task_id = "task-1";
  role = reviewer_general;
  reviewer_id = some "general";
  review_mode = some required;
  requested_model = "model-a";
  skills_repository_commit = sha;
  plan_version = 1;
  pr_number = some 12;
  expected_head_sha = some sha;
}

abbrev any_value : ℕ → Bool
any_value _ = true

binding_tests :
    (validate_binding any_value (of_review review) binding ≡ ok tt)
    × (validate_binding any_value (of_review review) (record binding { pr_number = some 13 })
        ≡ err binding_mismatch)
    × (validate any_value (
          of_review (record review {
            finding_confirmations = record confirmation { status = still_open } ∷ [];
          }))
        ≡ err approval_has_open_confirmation)
unfolding validate_binding matches validate check_review check_common
binding_tests = (refl, refl, refl)

validate_binding_iff_example :
    (validate_binding any_value (of_review review) binding ≡ ok tt)
    ↔ ((validate any_value (of_review review) ≡ ok tt) × IsBound (of_review review) binding)
validate_binding_iff_example = validate_binding_iff any_value (of_review review) binding

approval_is_clean_example :
    (review.blocking_findings ≡ [])
    × All (λ c. c.status ≡ confirmed_resolved) review.finding_confirmations
unfolding validate check_review check_common
approval_is_clean_example = approval_is_clean any_value review refl refl

accepted_has-IsHeader_example :
    IsHeader planner (header planner) × (role_fits (of_planner plan) planner ≡ true)
unfolding validate check_planner check_common
accepted_has-IsHeader_example = accepted_has-IsHeader any_value (of_planner plan) refl
