-- ===== src/Core/StateMachine/Wire.antt =====
-- The wire names of crates/pip-core/src/state_machine.rs (`string_enum!`) and of the review roles
-- of crates/pip-core/src/exact_head.rs: printing and parsing.
pub mod RoundTrip
use text.Mathlib.Text.{◌==◌ as str_eq}
use text.Mathlib.TextEquality.{eq_iff}
use agent_p1p.Prelude.{
  String, ◌≡◌, refl, ◌↔◌, Bool, true, false, Option, none, some, List, [], ◌∷◌, All, arith,
  if◌then◌else◌, Result, ok, err, ok_or,
}
use agent_p1p.Core.StateMachine.{
  CaseState, Event, planning, waiting_human, ready_to_build, building, waiting_ci, reviewing,
  remediating, final_review, shadow_ready, ready_to_merge, merging, completed, escalated, abandoned,
  taken_over, plan_recorded, proceed, waiting_for_issue_creator, needs_human_scope_decision,
  root_cause_different_scope, cross_repo_dependency, already_fixed, not_reproducible, duplicate,
  abandon, human_narrowed_scope, human_approved_stale_base, human_clarified,
  human_feedback_received, builder_dispatched, native_review_retry_authorized,
  review_coordination_recovery_authorized, infrastructure_recovery_authorized,
  remediation_budget_extended, follow_up_recovery_authorized, publication_retry_authorized,
  build_recorded, review_ready, return_to_planning, human_reaffirmed_scope, ci_accepted, ci_failed,
  review_recorded, reviews_approved, reviews_published, final_preflight_accepted, request_changes,
  ready, return_to_build, return_to_review, wait_for_issue_creator, human_merged,
  prerequisite_resolved, blocked_unexpected_model, merge_started, merge_verified, human_took_over,
  authorization_removed, operational_bound_reached, human_resumed, human_abandoned,
}

pub record ParseDomainValueError : Type 0 where
  pub kind : String
  pub value : String

-- `match value { wire => Ok(variant), .. }`
find_wire {ℓ} : {A : Type ℓ} → String → List (String × A) → Option A
find_wire s [] = none
find_wire s ((wire, v) ∷ rest) = if str_eq s wire then some v else find_wire s rest

abbrev parse_wire {ℓ} :
    {A : Type ℓ} → String → List (String × A) → String → Result A ParseDomainValueError
parse_wire kind table value = ok_or (find_wire value table) (record { kind = kind; value = value })

abbrev state_wires : List (String × CaseState)
state_wires =
    ("PLANNING", planning)
    ∷ ("WAITING_HUMAN", waiting_human)
    ∷ ("READY_TO_BUILD", ready_to_build)
    ∷ ("BUILDING", building)
    ∷ ("WAITING_CI", waiting_ci)
    ∷ ("REVIEWING", reviewing)
    ∷ ("REMEDIATING", remediating)
    ∷ ("FINAL_REVIEW", final_review)
    ∷ ("SHADOW_READY", shadow_ready)
    ∷ ("READY_TO_MERGE", ready_to_merge)
    ∷ ("MERGING", merging)
    ∷ ("COMPLETED", completed)
    ∷ ("BLOCKED", CaseState.blocked)
    ∷ ("ESCALATED", escalated)
    ∷ ("ABANDONED", abandoned)
    ∷ ("TAKEN_OVER", taken_over)
    ∷ []

abbrev event_wires : List (String × Event)
event_wires =
    ("PLAN_RECORDED", plan_recorded)
    ∷ ("PROCEED", proceed)
    ∷ ("WAITING_FOR_ISSUE_CREATOR", waiting_for_issue_creator)
    ∷ ("NEEDS_HUMAN_SCOPE_DECISION", needs_human_scope_decision)
    ∷ ("ROOT_CAUSE_DIFFERENT_SCOPE", root_cause_different_scope)
    ∷ ("CROSS_REPO_DEPENDENCY", cross_repo_dependency)
    ∷ ("ALREADY_FIXED", already_fixed)
    ∷ ("NOT_REPRODUCIBLE", not_reproducible)
    ∷ ("DUPLICATE", duplicate)
    ∷ ("ABANDON", abandon)
    ∷ ("HUMAN_NARROWED_SCOPE", human_narrowed_scope)
    ∷ ("HUMAN_APPROVED_STALE_BASE", human_approved_stale_base)
    ∷ ("HUMAN_CLARIFIED", human_clarified)
    ∷ ("HUMAN_FEEDBACK_RECEIVED", human_feedback_received)
    ∷ ("BUILDER_DISPATCHED", builder_dispatched)
    ∷ ("NATIVE_REVIEW_RETRY_AUTHORIZED", native_review_retry_authorized)
    ∷ ("REVIEW_COORDINATION_RECOVERY_AUTHORIZED", review_coordination_recovery_authorized)
    ∷ ("INFRASTRUCTURE_RECOVERY_AUTHORIZED", infrastructure_recovery_authorized)
    ∷ ("REMEDIATION_BUDGET_EXTENDED", remediation_budget_extended)
    ∷ ("FOLLOW_UP_RECOVERY_AUTHORIZED", follow_up_recovery_authorized)
    ∷ ("PUBLICATION_RETRY_AUTHORIZED", publication_retry_authorized)
    ∷ ("BUILD_RECORDED", build_recorded)
    ∷ ("REVIEW_READY", review_ready)
    ∷ ("RETURN_TO_PLANNING", return_to_planning)
    ∷ ("BLOCKED", Event.blocked)
    ∷ ("HUMAN_REAFFIRMED_SCOPE", human_reaffirmed_scope)
    ∷ ("CI_ACCEPTED", ci_accepted)
    ∷ ("CI_FAILED", ci_failed)
    ∷ ("REVIEW_RECORDED", review_recorded)
    ∷ ("REVIEWS_APPROVED", reviews_approved)
    ∷ ("REVIEWS_PUBLISHED", reviews_published)
    ∷ ("FINAL_PREFLIGHT_ACCEPTED", final_preflight_accepted)
    ∷ ("REQUEST_CHANGES", request_changes)
    ∷ ("READY", ready)
    ∷ ("RETURN_TO_BUILD", return_to_build)
    ∷ ("RETURN_TO_REVIEW", return_to_review)
    ∷ ("WAIT_FOR_ISSUE_CREATOR", wait_for_issue_creator)
    ∷ ("HUMAN_MERGED", human_merged)
    ∷ ("PREREQUISITE_RESOLVED", prerequisite_resolved)
    ∷ ("BLOCKED_UNEXPECTED_MODEL", blocked_unexpected_model)
    ∷ ("MERGE_STARTED", merge_started)
    ∷ ("MERGE_VERIFIED", merge_verified)
    ∷ ("HUMAN_TOOK_OVER", human_took_over)
    ∷ ("AUTHORIZATION_REMOVED", authorization_removed)
    ∷ ("OPERATIONAL_BOUND_REACHED", operational_bound_reached)
    ∷ ("HUMAN_RESUMED", human_resumed)
    ∷ ("HUMAN_ABANDONED", human_abandoned)
    ∷ []

unfoldable pub state_name : CaseState → String
state_name planning = "PLANNING"
state_name waiting_human = "WAITING_HUMAN"
state_name ready_to_build = "READY_TO_BUILD"
state_name building = "BUILDING"
state_name waiting_ci = "WAITING_CI"
state_name reviewing = "REVIEWING"
state_name remediating = "REMEDIATING"
state_name final_review = "FINAL_REVIEW"
state_name shadow_ready = "SHADOW_READY"
state_name ready_to_merge = "READY_TO_MERGE"
state_name merging = "MERGING"
state_name completed = "COMPLETED"
state_name CaseState.blocked = "BLOCKED"
state_name escalated = "ESCALATED"
state_name abandoned = "ABANDONED"
state_name taken_over = "TAKEN_OVER"

unfoldable pub event_name : Event → String
event_name plan_recorded = "PLAN_RECORDED"
event_name proceed = "PROCEED"
event_name waiting_for_issue_creator = "WAITING_FOR_ISSUE_CREATOR"
event_name needs_human_scope_decision = "NEEDS_HUMAN_SCOPE_DECISION"
event_name root_cause_different_scope = "ROOT_CAUSE_DIFFERENT_SCOPE"
event_name cross_repo_dependency = "CROSS_REPO_DEPENDENCY"
event_name already_fixed = "ALREADY_FIXED"
event_name not_reproducible = "NOT_REPRODUCIBLE"
event_name duplicate = "DUPLICATE"
event_name abandon = "ABANDON"
event_name human_narrowed_scope = "HUMAN_NARROWED_SCOPE"
event_name human_approved_stale_base = "HUMAN_APPROVED_STALE_BASE"
event_name human_clarified = "HUMAN_CLARIFIED"
event_name human_feedback_received = "HUMAN_FEEDBACK_RECEIVED"
event_name builder_dispatched = "BUILDER_DISPATCHED"
event_name native_review_retry_authorized = "NATIVE_REVIEW_RETRY_AUTHORIZED"
event_name review_coordination_recovery_authorized = "REVIEW_COORDINATION_RECOVERY_AUTHORIZED"
event_name infrastructure_recovery_authorized = "INFRASTRUCTURE_RECOVERY_AUTHORIZED"
event_name remediation_budget_extended = "REMEDIATION_BUDGET_EXTENDED"
event_name follow_up_recovery_authorized = "FOLLOW_UP_RECOVERY_AUTHORIZED"
event_name publication_retry_authorized = "PUBLICATION_RETRY_AUTHORIZED"
event_name build_recorded = "BUILD_RECORDED"
event_name review_ready = "REVIEW_READY"
event_name return_to_planning = "RETURN_TO_PLANNING"
event_name Event.blocked = "BLOCKED"
event_name human_reaffirmed_scope = "HUMAN_REAFFIRMED_SCOPE"
event_name ci_accepted = "CI_ACCEPTED"
event_name ci_failed = "CI_FAILED"
event_name review_recorded = "REVIEW_RECORDED"
event_name reviews_approved = "REVIEWS_APPROVED"
event_name reviews_published = "REVIEWS_PUBLISHED"
event_name final_preflight_accepted = "FINAL_PREFLIGHT_ACCEPTED"
event_name request_changes = "REQUEST_CHANGES"
event_name ready = "READY"
event_name return_to_build = "RETURN_TO_BUILD"
event_name return_to_review = "RETURN_TO_REVIEW"
event_name wait_for_issue_creator = "WAIT_FOR_ISSUE_CREATOR"
event_name human_merged = "HUMAN_MERGED"
event_name prerequisite_resolved = "PREREQUISITE_RESOLVED"
event_name blocked_unexpected_model = "BLOCKED_UNEXPECTED_MODEL"
event_name merge_started = "MERGE_STARTED"
event_name merge_verified = "MERGE_VERIFIED"
event_name human_took_over = "HUMAN_TOOK_OVER"
event_name authorization_removed = "AUTHORIZATION_REMOVED"
event_name operational_bound_reached = "OPERATIONAL_BOUND_REACHED"
event_name human_resumed = "HUMAN_RESUMED"
event_name human_abandoned = "HUMAN_ABANDONED"

unfoldable pub parse_state : String → Result CaseState ParseDomainValueError
unfolding find_wire
parse_state = parse_wire "case state" state_wires

unfoldable pub parse_event : String → Result Event ParseDomainValueError
unfolding find_wire
parse_event = parse_wire "event" event_wires
