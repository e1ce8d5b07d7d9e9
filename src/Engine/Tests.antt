-- ===== src/Engine/Tests.antt =====
-- A command of crates/pip-controller/src/ledger.rs on a ledger of crates/pip-store/src/lib.rs: CI
-- fails, and the case is sent back to the builder.
use agent_p1p.Prelude.{ℕ, ◌≡◌, refl, true, none, some, [], ◌∷◌, ok, map}
use agent_p1p.Core.Domain.{case_key, decimal, checked_next}
use agent_p1p.Core.StateMachine.{
  waiting_ci, ci_failed, remediating, shadow, transition, dispatch_builder,
}
use agent_p1p.Core.StateMachine.Wire.{state_name, event_name}
use agent_p1p.Core.Revision.{CasePolicy, CaseCommandDecision, evaluate_case_command}
use agent_p1p.Controller.Ledger.{Json}
use agent_p1p.Controller.Ledger.Transition.{
  built, resume_target, next_plan_version, next_round, next_head_binding, replace_head,
  effect_inputs, transition_input,
}
use agent_p1p.Controller.Ledger.Batch.{
  applied, validate_consecutive, validate_workflow_shape, validate_workflow, effective_policy,
  after_previous, prepare_from, prepare_batch, apply_batch,
}
use agent_p1p.Store.{Handle, CaseRow}
use agent_p1p.Store.Statements.{
  insert_event, insert_run, insert_evidence, insert_findings, insert_effects, new_effect,
}
use agent_p1p.Store.Checks.{Transition, Codec, Guards, validate_common, admit}
use agent_p1p.Store.Control.{granted_remediation_rounds}
use agent_p1p.Store.Step.{
  event_row, moved, update_case, is_superseded, insert_results, replace_effects, apply_one,
}
use agent_p1p.Store.Apply.{
  validate_batch, apply_all, run_batch, apply_transition_batch, with_tables,
}
use agent_p1p.Store.Moves.{empty_handle}
use agent_p1p.Controller.Results.Commands.{Command}
use agent_p1p.Engine.{pip_store, IsRunOf, applied_batch_is_run}

abbrev pub codec : Codec ℕ
codec = record {
  is_object = λ _. true;
  hash_transition = λ input. input.event.event_id;
  hash_new_case = λ input. input.event.event_id;
}

abbrev pub guards : Guards ℕ
guards = record {
  infrastructure_recovery = λ _ _ _. ok tt;
  follow_up_recovery = λ _ _ _. ok tt;
  native_review_retry = λ _ _ _. ok tt;
  review_coordination_recovery = λ _ _ _. ok tt;
  reauthorization = λ _ _ _. ok 3;
  remediation_extension = λ _ _ _. ok 3;
  resume = λ _ _ _. ok 3;
}

abbrev pub numbers : Json ℕ
numbers = record { is_object = λ _. true; text_at = λ _ _. none }

abbrev pub policy : CasePolicy
policy = record { revision = 3; merge_mode = shadow; max_remediation_rounds = 2 }

abbrev failed : Command ℕ
failed = record {
  case_id = record { repository = 1; issue = 7; workflow = 2 };
  event_id = "ev-1";
  observed_at = 100;
  expected_state = waiting_ci;
  expected_state_revision = 5;
  accepted_policy_revision = 3;
  remediation_round = 0;
  plan_version = some 1;
  pr_number = some 12;
  head_sha = some (1 ∷ []);
  event = ci_failed;
  accepted_plan_version = none;
  next_pr_number = none;
  next_head_sha = none;
  event_payload = 0;
  run = none;
  evidence = [];
  findings = [];
}

abbrev decided : CaseCommandDecision
decided = record {
  case_id = failed.case_id;
  event_id = "ev-1";
  observed_at = 100;
  from_revision = 5;
  to_revision = 6;
  transition = record { next_state = remediating; effects = dispatch_builder ∷ [] };
}

abbrev lowered : Transition ℕ
lowered = built failed decided 1 1 (some 12, some (1 ∷ []))

abbrev pub waiting : CaseRow
waiting = record {
  case = record {
    case_key = "repo:1#7@2";
    repository_id = 1;
    issue_number = 7;
    workflow_version = 2;
    state = "WAITING_CI";
    state_revision = 5;
    policy_revision = 3;
    remediation_round = 0;
    plan_version = 1;
    pr_number = some 12;
    head_sha = some (1 ∷ []);
  };
  created_at = 10;
  updated_at = 90;
}

abbrev pub before : Handle ℕ
before = with_tables empty_handle (record empty_handle.tables { cases = waiting ∷ [] })

abbrev after : Handle ℕ
after = with_tables empty_handle (record empty_handle.tables {
  cases = moved lowered 6 3 waiting ∷ [];
  events = event_row waiting.case lowered "ev-1" 6 3 ∷ [];
  outbox = map (new_effect "repo:1#7@2" 6 100) lowered.effects;
})

apply_test :
    apply_batch numbers (pip_store codec guards (λ _. none)) before policy (failed ∷ [])
    ≡ (after, ok applied)
unfolding apply_batch prepare_batch validate_workflow validate_workflow_shape effective_policy
    prepare_from after_previous validate_consecutive transition_input resume_target
    evaluate_case_command transition checked_next next_plan_version next_round next_head_binding
    replace_head state_name case_key decimal granted_remediation_rounds apply_transition_batch
    validate_batch validate_common run_batch apply_all apply_one admit insert_event insert_results
    insert_run insert_evidence insert_findings update_case replace_effects is_superseded
    insert_effects event_name effect_inputs
apply_test = refl

applied_batch_is_run_example :
    (effective : CasePolicy) × (effective_policy
        (pip_store codec guards (λ _. none))
        before
        policy
        failed
      ≡ ok effective)
    × IsRunOf effective [] failed after.tables
applied_batch_is_run_example =
    applied_batch_is_run codec guards (λ _. none) numbers policy before after failed [] apply_test
