-- ===== src/Contracts/Validation.antt =====
-- crates/pip-contracts/src/lib.rs: the `validate` methods of the worker results.
pub mod Accepted
use agent_p1p.Prelude.{
  String, Bool, true, false, not, ◌&&◌, ◌||◌, Option, none, some, ltb, ◌==◌, is_empty, any, Result,
  ok, err, ◌>>◌, fail_if,
}
use agent_p1p.Prelude.Text.{not_blank, is_hex}
use agent_p1p.Contracts.{
  contract_version, ContractError, unsupported_contract_version, invalid_identity,
  workflow_version_mismatch, role_mismatch, invalid_commit, invalid_timestamp_order,
  empty_required_field, invalid_outcome_evidence, approval_has_blocking_findings,
  approval_has_open_confirmation, WorkerRole, planner, builder, reviewer_general, reviewer_secperf,
  final_reviewer, same_role, CommonResult, PlannerOutcome, proceed, PlannerResult, BuilderOutcome,
  review_ready, FindingResolution, BuilderResult, ReviewOutcome, approve, ConfirmationStatus,
  confirmed_resolved, still_open, ReviewResult, FinalResult, WorkerResult, of_planner, of_builder,
  of_review, of_final,
}

abbrev pub Checked : Type 0
Checked = Result (Unit {0}) ContractError

abbrev pub is_proceed : PlannerOutcome → Bool
is_proceed proceed = true
is_proceed _ = false

abbrev pub is_review_ready : BuilderOutcome → Bool
is_review_ready review_ready = true
is_review_ready _ = false

abbrev pub is_approve : ReviewOutcome → Bool
is_approve approve = true
is_approve _ = false

abbrev pub is_confirmed : ConfirmationStatus → Bool
is_confirmed confirmed_resolved = true
is_confirmed still_open = false

-- The roles whose results are reviews.
abbrev pub is_reviewer : WorkerRole → Bool
is_reviewer reviewer_general = true
is_reviewer reviewer_secperf = true
is_reviewer _ = false

-- A resolution that lacks a commit, a head, its finding, a summary or a test.
unfoldable pub bad_resolution : FindingResolution → Bool
bad_resolution resolution =
    not (is_hex resolution.resolution_commit 40)
    || not (is_hex resolution.resolved_head_sha 40)
    || not (not_blank resolution.finding_id)
    || not (not_blank resolution.resolution_summary)
    || is_empty resolution.tests
    || any (λ item. not (not_blank item)) resolution.tests

-- A head stands in the result exactly of a build that is ready for review.
unfoldable pub check_head : Bool → Option String → Checked
check_head true none = err invalid_outcome_evidence
check_head true (some head) = fail_if (not (is_hex head 40)) invalid_outcome_evidence
check_head false none = ok tt
check_head false (some head) = err invalid_outcome_evidence

-- The values of `serde_json`, of which the checks ask only whether they are objects.
module _ {Value : Type 0} where
  unfoldable pub check_common : CommonResult Value → WorkerRole → Checked
  check_common r expected_role = do
    fail_if (not (r.contract_version == contract_version)) unsupported_contract_version
    fail_if
        (r.workflow_version == 0
          || r.case.repository_id == 0
          || r.case.issue_number == 0
          || r.case.workflow_version == 0)
        invalid_identity
    fail_if (not (r.case.workflow_version == r.workflow_version)) workflow_version_mismatch
    fail_if (not (same_role r.role expected_role)) role_mismatch
    fail_if
        (not (not_blank r.task_id)
          || not (not_blank r.requested_model)
          || not (not_blank r.actual_model))
        empty_required_field
    fail_if (not (is_hex r.skills_repository_commit 40)) invalid_commit
    fail_if (ltb r.completed_at_unix r.started_at_unix) invalid_timestamp_order

  unfoldable pub check_planner : (Value → Bool) → PlannerResult Value → Checked
  check_planner is_object r = do
    check_common r.common planner
    fail_if (r.plan_version == 0 || not (is_hex r.planned_base_sha 40)) invalid_identity
    fail_if (not (not_blank r.authorized_scope) || not (not_blank r.plan_artifact))
        empty_required_field
    fail_if (any (λ item. not (is_object item)) r.dependencies) invalid_outcome_evidence
    fail_if
        (is_proceed r.outcome && (not (is_empty r.dependencies) || not (is_empty r.open_decisions)))
        invalid_outcome_evidence

  unfoldable pub check_builder : BuilderResult Value → Checked
  check_builder r = do
    check_common r.common builder
    fail_if (r.plan_version == 0 || r.build_round == 0) invalid_identity
    fail_if (any bad_resolution r.finding_resolutions) invalid_outcome_evidence
    check_head (is_review_ready r.outcome) r.head_sha

  unfoldable pub check_review : ReviewResult Value → Checked
  check_review r = do
    fail_if (not (is_reviewer r.common.role)) role_mismatch
    check_common r.common r.common.role
    fail_if
        (r.plan_version == 0
          || r.review_round == 0
          || r.pr_number == 0
          || not (not_blank r.reviewer_id)
          || not (is_hex r.reviewed_head_sha 40))
        invalid_identity
    fail_if (is_approve r.outcome && not (is_empty r.blocking_findings))
        approval_has_blocking_findings
    fail_if
        (is_approve r.outcome
          && any (λ item. not (is_confirmed item.status)) r.finding_confirmations)
        approval_has_open_confirmation

  unfoldable pub check_final : FinalResult Value → Checked
  check_final r = do
    check_common r.common final_reviewer
    fail_if
        (r.plan_version == 0
          || r.final_review_round == 0
          || r.pr_number == 0
          || not (is_hex r.reviewed_head_sha 40))
        invalid_identity
    fail_if (not (not_blank r.decision_rationale)) empty_required_field

  unfoldable pub validate : (Value → Bool) → WorkerResult Value → Checked
  validate is_object (of_planner r) = check_planner is_object r
  validate is_object (of_builder r) = check_builder r
  validate is_object (of_review r) = check_review r
  validate is_object (of_final r) = check_final r

  abbrev pub common_of : WorkerResult Value → CommonResult Value
  common_of (of_planner r) = r.common
  common_of (of_builder r) = r.common
  common_of (of_review r) = r.common
  common_of (of_final r) = r.common
