-- ===== src/Controller/Ledger/Tests.antt =====
-- A batch of crates/pip-controller/src/ledger.rs on concrete values: CI fails, and the builder
-- comes back with a new head.
use agent_p1p.Prelude.Text.{bytes}
use agent_p1p.Core.StateMachine.{Effect, dispatch_planner}
use agent_p1p.Controller.Ledger.{effect_name, lower_effect_name}
use agent_p1p.Prelude.{map, leb, ◌&&◌, if◌then◌else◌}
use agent_p1p.Prelude.{
  ℕ, ◌+◌, ◌≤◌, ◌≡◌, ◌≢◌, ◌⊎◌, refl, arith, true, none, some, is_some, [], ◌∷◌, All, ok, err,
}
use agent_p1p.Core.Domain.{case_key, decimal, checked_next}
use agent_p1p.Core.StateMachine.{
  waiting_ci, ci_failed, remediating, review_ready, shadow, transition, dispatch_builder,
  observe_ci,
}
use agent_p1p.Core.StateMachine.Wire.{state_name}
use agent_p1p.Core.Revision.{CasePolicy, CaseCommandDecision, evaluate_case_command}
use agent_p1p.Core.ExactHead.{GitSha}
use agent_p1p.Controller.Ledger.{
  Json, WorkflowCommand, TransitionInput, StoredCase, invalid_command,
}
use agent_p1p.Controller.Ledger.Transition.{
  built, resume_target, next_plan_version, next_round, replace_head, next_head_binding,
  transition_input,
}
use agent_p1p.Controller.Ledger.Transition.Heads.{head_changes_by_build}
use agent_p1p.Controller.Ledger.Batch.{
  Store, applied, validate_consecutive, validate_workflow_shape, validate_workflow,
  effective_policy, after_previous, prepare_from, prepare_batch,
}
use agent_p1p.Controller.Ledger.Batch.Chains.{IsRun, AreNumbered, batch-IsRun}
use agent_p1p.Controller.Ledger.Batch.Budgets.{batch_is_accounted}

abbrev Command : Type 0
Command = WorkflowCommand ℕ ℕ ℕ ℕ

abbrev Input : Type 0
Input = TransitionInput ℕ ℕ ℕ ℕ

abbrev numbers : Json ℕ
numbers = record { is_object = λ _. true; text_at = λ _ _. none }

abbrev policy : CasePolicy
policy = record { revision = 3; merge_mode = shadow; max_remediation_rounds = 2 }

abbrev old_head : GitSha
old_head = 1 ∷ []

abbrev new_head : GitSha
new_head = 2 ∷ []

abbrev failed : Command
failed = record {
  case_id = record { repository = 1; issue = 7; workflow = 2 };
  event_id = "ev-1";
  observed_at = 100;
  expected_state = waiting_ci;
  expected_state_revision = 5;
  accepted_policy_revision = 3;
  remediation_round = 0;
  plan_version = some 1;
  pr_number = some 12;
  head_sha = some old_head;
  event = ci_failed;
  accepted_plan_version = none;
  next_pr_number = none;
  next_head_sha = none;
  event_payload = 0;
  run = none;
  evidence = [];
  findings = [];
}

abbrev repaired : Command
repaired = record failed {
  event_id = "ev-2";
  expected_state = remediating;
  expected_state_revision = 6;
  remediation_round = 1;
  event = review_ready;
  next_head_sha = some new_head;
}

abbrev decided_failed : CaseCommandDecision
decided_failed = record {
  case_id = failed.case_id;
  event_id = "ev-1";
  observed_at = 100;
  from_revision = 5;
  to_revision = 6;
  transition = record { next_state = remediating; effects = dispatch_builder ∷ [] };
}

abbrev decided_repaired : CaseCommandDecision
decided_repaired = record {
  case_id = failed.case_id;
  event_id = "ev-2";
  observed_at = 100;
  from_revision = 6;
  to_revision = 7;
  transition = record { next_state = waiting_ci; effects = observe_ci ∷ [] };
}

abbrev input_failed : Input
input_failed = built failed decided_failed 1 1 (some 12, some old_head)

abbrev input_repaired : Input
input_repaired = built repaired decided_repaired 1 1 (some 12, some new_head)

abbrev stored : StoredCase
stored = record {
  case_key = "repo:1#7@2";
  repository_id = 1;
  issue_number = 7;
  workflow_version = 2;
  state = "WAITING_CI";
  state_revision = 5;
  policy_revision = 3;
  remediation_round = 0;
  plan_version = 1;
  pr_number = some 12;
  head_sha = some old_head;
}

-- A store that holds one case and takes every batch.
abbrev ops : Store StoredCase ℕ Input
ops = record {
  case = λ ledger key. ok (some ledger);
  granted_remediation_rounds = λ ledger key. ok 0;
  apply_transition_batch = λ ledger ts. (ledger, ok applied);
}

input_failed_test : transition_input {StoreError = ℕ} numbers policy failed ≡ ok input_failed
unfolding transition_input resume_target evaluate_case_command transition checked_next
    next_plan_version next_round next_head_binding replace_head
input_failed_test = refl

input_repaired_test : transition_input {StoreError = ℕ} numbers policy repaired ≡ ok input_repaired
unfolding transition_input resume_target evaluate_case_command transition checked_next
    next_plan_version next_round next_head_binding replace_head
input_repaired_test = refl

batch_test :
    prepare_batch numbers ops stored policy (failed ∷ repaired ∷ [])
    ≡ ok (input_failed ∷ input_repaired ∷ [])
unfolding prepare_batch validate_workflow validate_workflow_shape effective_policy prepare_from
    after_previous validate_consecutive transition_input resume_target evaluate_case_command
    transition checked_next next_plan_version next_round next_head_binding replace_head state_name
    case_key decimal
batch_test = refl

broken_batch_test :
    prepare_batch numbers ops stored policy (failed ∷ failed ∷ [])
    ≡ err (invalid_command "workflow batch is not consecutive")
unfolding prepare_batch validate_workflow validate_workflow_shape effective_policy prepare_from
    after_previous validate_consecutive transition_input resume_target evaluate_case_command
    transition checked_next next_plan_version next_round next_head_binding replace_head state_name
    case_key decimal
broken_batch_test = refl

policy_test : effective_policy ops stored policy failed ≡ ok policy
unfolding effective_policy
policy_test = refl

batch-IsRun_example :
    (effective : CasePolicy) × (effective_policy ops stored policy failed ≡ ok effective)
    × IsRun effective waiting_ci (failed ∷ repaired ∷ []) (input_failed ∷ input_repaired ∷ [])
batch-IsRun_example =
    batch-IsRun numbers ops stored policy failed (repaired ∷ [])
      (input_failed ∷ input_repaired ∷ []) batch_test

batch_is_accounted_example :
    AreNumbered 5 (input_failed ∷ input_repaired ∷ [])
    × All (λ t. t.remediation_round ≤ 2) (input_failed ∷ input_repaired ∷ [])
batch_is_accounted_example =
    batch_is_accounted numbers ops stored policy policy failed (repaired ∷ [])
      (input_failed ∷ input_repaired ∷ []) batch_test policy_test (omega arith)

head_changes_by_build_example :
    ((input_repaired.pr_number ≡ repaired.pr_number)
      × (input_repaired.head_sha ≡ repaired.head_sha)
      × (repaired.event ≢ review_ready))
    ⊎ ((repaired.event ≡ review_ready)
        × (input_repaired.head_sha ≡ repaired.next_head_sha)
        × (is_some input_repaired.head_sha ≡ true)
        × (is_some input_repaired.pr_number ≡ true)
        × ((repaired.pr_number ≡ none) ⊎ (input_repaired.pr_number ≡ repaired.pr_number)))
head_changes_by_build_example =
    head_changes_by_build numbers policy repaired input_repaired input_repaired_test

-- `to_ascii_lowercase` on a byte.
abbrev lower_byte : ℕ → ℕ
lower_byte b = if leb b'A' b && leb b b'Z' then b + 32 else b

lower_effect_name_test :
    (e : Effect) → map lower_byte (bytes (effect_name e)) ≡ bytes (lower_effect_name e)
lower_effect_name_test dispatch_planner = refl
lower_effect_name_test _ = refl
