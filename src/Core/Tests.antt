-- ===== src/Core/Tests.antt =====
-- Identifiers, the join, the intake and the commands of crates/pip-core on concrete values.
use agent_p1p.Prelude.{
  ℕ, ◌+◌, ◌≤◌, String, ◌≡◌, ◌≢◌, ◌↔◌, refl, true, false, none, some, List, [], ◌∷◌, all, ok, err,
}
use agent_p1p.Prelude.Text.{bytes}
use agent_p1p.Core.Domain.{
  is_slug_byte, parse_repository_slug, parse_textual_id, checked_next, u64_max, CaseId, case_key,
  decimal,
}
use agent_p1p.Core.Domain.Syntax.{parse_textual_id_iff}
use agent_p1p.Core.StateMachine.{
  planning, proceed, ready_to_build, shadow, dispatch_builder, transition,
}
use agent_p1p.Core.ExactHead.{
  general, security_performance, HeadBinding, ExactHeadObservation, ReviewEvidence, FindingEvidence,
  ci_hollow, evaluate_exact_head,
}
use agent_p1p.Core.ExactHead.Join.{IsReady, ready_iff}
use agent_p1p.Core.ExactHead.Blockers.{blocks, reports, reports-evaluate_exact_head}
use agent_p1p.Core.Policy.{IntakePolicy, IssueObservation, evaluate_intake, eligible}
use agent_p1p.Core.Policy.Intake.{IsEligible, eligible_iff}
use agent_p1p.Core.Revision.{
  CasePolicy, CaseSnapshot, CaseCommand, CaseCommandDecision, context_of, evaluate_case_command,
}
use agent_p1p.Core.Revision.Commands.{IsCurrent, evaluate_iff}

slug_tests :
    (parse_repository_slug "marmot-protocol/mdk" ≡ ok "marmot-protocol/mdk")
    × (parse_textual_id "run ID" "run 1" ≡ err (record { kind = "run ID"; value = "run 1" }))
unfolding parse_repository_slug parse_textual_id
slug_tests = (refl, refl)

abbrev case_seven : CaseId
case_seven = record { repository = 1048576; issue = 7; workflow = 2 }

case_key_test : case_key case_seven ≡ "repo:1048576#7@2"
unfolding case_key decimal
case_key_test = refl

parse_textual_id_test : (parse_textual_id "run ID" "run-1" ≡ ok "run-1") ↔ (
    (◌≡◌ {A = String} "run-1" "run-1")
    × (bytes "run-1" ≢ [])
    × (all is_slug_byte (bytes "run-1") ≡ true))
parse_textual_id_test = parse_textual_id_iff "run ID" "run-1" "run-1"

abbrev head : List ℕ
head = bytes "0123456789abcdef0123456789abcdef01234567"

abbrev bound : HeadBinding
bound = record { case_id = case_seven; pr_number = 12; plan_version = 1; head_sha = head }

abbrev general_approval : ReviewEvidence
general_approval = record {
  binding = bound;
  role = general;
  approved = true;
  blocking_findings = [];
}

abbrev resolved : FindingEvidence
resolved = record {
  id = "finding-1";
  origin = general;
  reviewed_head_sha = bytes "old";
  resolution_head_sha = some head;
  mandatory = true;
  origin_confirmed = true;
}

abbrev approved : ExactHeadObservation
approved = record {
  expected = bound;
  builder = record { binding = bound; ci_head_sha = head; ci_green = true };
  ci = record {
    head_sha = head;
    completed = true;
    hollow = false;
    rate_limited = false;
    required_checks_green = true;
  };
  general_review = general_approval;
  secperf_review = record general_approval { role = security_performance };
  findings = resolved ∷ [];
  open_blocking_threads = 0;
  pip_owned = true;
  mergeable = true;
  authorization_valid = true;
}

ready_iff_example : ((evaluate_exact_head approved).ready ≡ true) ↔ IsReady approved
ready_iff_example = ready_iff approved

reports-evaluate_exact_head_example :
    reports ci_hollow (evaluate_exact_head approved).blockers ≡ blocks approved ci_hollow
reports-evaluate_exact_head_example = reports-evaluate_exact_head approved ci_hollow

abbrev intake : IntakePolicy
intake = record {
  revision = 4;
  intake_enabled = true;
  dispatch_enabled = true;
  global_paused = false;
  repository_paused = false;
  required_label = "pip";
  trusted_actor_ids = 31 ∷ 44 ∷ [];
  repository_active_limit = 2;
  global_active_limit = 5;
}

abbrev labelled_issue : IssueObservation
labelled_issue = record {
  is_open = true;
  is_pull_request = false;
  labels = "bug" ∷ "pip" ∷ [];
  latest_label_actor_id = some 44;
  excluded = false;
  held = false;
  already_owned = false;
  assigned_to_other = false;
  repository_active_cases = 1;
  global_active_cases = 4;
}

eligible_iff_example :
    (evaluate_intake intake labelled_issue ≡ eligible) ↔ IsEligible intake labelled_issue
eligible_iff_example = eligible_iff intake labelled_issue

abbrev core_policy : CasePolicy
core_policy = record { revision = 4; merge_mode = shadow; max_remediation_rounds = 3 }

abbrev planned : CaseSnapshot
planned = record {
  case_id = case_seven;
  state = planning;
  state_revision = 9;
  policy_revision = 4;
  remediation_round = 0;
}

abbrev proceed_now : CaseCommand
proceed_now = record {
  case_id = case_seven;
  event_id = "event-10";
  observed_at = 1_000;
  expected_state_revision = 9;
  accepted_policy_revision = 4;
  event = proceed;
  resume_target = none;
}

abbrev to_build : CaseCommandDecision
to_build = record {
  case_id = case_seven;
  event_id = "event-10";
  observed_at = 1_000;
  from_revision = 9;
  to_revision = 10;
  transition = record { next_state = ready_to_build; effects = dispatch_builder ∷ [] };
}

proceed_decided : evaluate_case_command planned proceed_now core_policy ≡ ok to_build
unfolding evaluate_case_command checked_next transition
proceed_decided = refl

evaluate_iff_example : (evaluate_case_command planned proceed_now core_policy ≡ ok to_build) ↔ (
    IsCurrent planned proceed_now core_policy
    × (transition planning proceed (context_of planned proceed_now core_policy)
        ≡ ok to_build.transition)
    × (case_seven ≡ case_seven)
    × (to_build.event_id ≡ proceed_now.event_id)
    × (to_build.observed_at ≡ proceed_now.observed_at)
    × (to_build.from_revision ≡ planned.state_revision)
    × (to_build.to_revision ≡ planned.state_revision + 1)
    × (planned.state_revision + 1 ≤ u64_max))
evaluate_iff_example = evaluate_iff planned proceed_now core_policy to_build
