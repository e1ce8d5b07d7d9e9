-- ===== src/Engine/Ingest/Tests.antt =====
-- Worker results of crates/pip-controller/src/results.rs on a ledger: the first result of a builder,
-- and a review under a workflow policy.
use agent_p1p.Prelude.{
  ℕ, String, ◌≡◌, ◌==◌, ==_iff, true, false, refl, none, some, [], ◌∷◌, ok, err,
}
use agent_p1p.Core.Domain.{case_key, decimal, checked_next, parse_textual_id, parse_git_sha}
use agent_p1p.Core.ExactHead.{GitSha}
use agent_p1p.Core.StateMachine.{transition}
use agent_p1p.Core.StateMachine.Wire.{state_name, event_name, parse_state}
use agent_p1p.Core.Revision.{evaluate_case_command}
use agent_p1p.Contracts.{
  CaseIdentity, WorkerBinding, WorkerRole, builder, reviewer_general, reviewer_secperf, required,
  CommonResult, BuilderResult, review_ready, return_to_planning, ReviewResult, approve, of_builder,
  of_review,
}
use agent_p1p.Contracts.Validation.{validate, check_common, check_builder, check_review, check_head}
use agent_p1p.Contracts.Binding.{matches, validate_binding}
use agent_p1p.Controller.Ledger.{StoredCase, store}
use agent_p1p.Controller.Ledger.Transition.{
  resume_target, next_plan_version, next_round, next_head_binding, replace_head, effect_inputs,
  transition_input,
}
use agent_p1p.Controller.Ledger.Batch.{
  validate_consecutive, validate_workflow_shape, validate_workflow, effective_policy,
  after_previous, prepare_from, prepare_batch, prepare_one, apply_batch, apply,
}
use agent_p1p.Controller.Reviews.{
  collect_ids, gather, verdict, by_pair, by_policy, join_review, controller,
}
use agent_p1p.Controller.Results.{map_event}
use agent_p1p.Controller.Results.Commands.{
  Serde, validate_review_policy_binding, validate_case_binding, case_id, workflow, review_findings,
  result_workflow,
}
use agent_p1p.Controller.Scheduling.{RolePolicy, WorkflowPolicy, hermes}
use agent_p1p.Store.{Handle, CaseRow, read_only, database}
use agent_p1p.Store.Statements.{
  insert_event, insert_run, insert_evidence, insert_findings, insert_effects,
}
use agent_p1p.Store.Checks.{validate_common, admit}
use agent_p1p.Store.Control.{granted_remediation_rounds}
use agent_p1p.Store.Runs.{current_review_runs_for_case}
use agent_p1p.Store.Step.{update_case, is_superseded, insert_results, replace_effects, apply_one}
use agent_p1p.Store.Apply.{
  validate_batch, apply_all, run_batch, apply_transition_batch, with_tables,
}
use agent_p1p.Store.Moves.{empty_handle, here}
use agent_p1p.Engine.Tests.{codec, guards, numbers, policy}
use agent_p1p.Engine.Ingest.{
  World, applied, replayed, with_dispatch, alone, new_run, plan_ingest, ingest_worker_result,
}
use agent_p1p.Engine.Ingest.Refused.{ingested-IsWhole}
use agent_p1p.Engine.Ingest.Once.{ingested_once}
use agent_p1p.Engine.Ingest.Advances.{HasMoved, ingested_is_run}
use agent_p1p.Engine.Ingest.Reviewers.{IsConfigured, ingested_review-IsConfigured}

abbrev sha : String
sha = "1111111111111111111111111111111111111111"

abbrev head : GitSha
head =
    49 ∷ 49 ∷ 49 ∷ 49 ∷ 49 ∷ 49 ∷ 49 ∷ 49 ∷ 49 ∷ 49 ∷ 49 ∷ 49 ∷ 49 ∷ 49 ∷ 49 ∷ 49 ∷ 49 ∷ 49 ∷ 49
    ∷ 49 ∷ 49 ∷ 49 ∷ 49 ∷ 49 ∷ 49 ∷ 49 ∷ 49 ∷ 49 ∷ 49 ∷ 49 ∷ 49 ∷ 49 ∷ 49 ∷ 49 ∷ 49 ∷ 49 ∷ 49 ∷ 49
    ∷ 49 ∷ 49 ∷ []

abbrev serde : Serde ℕ
serde = record {
  to_value = λ _. ok 1;
  finding_value = λ _. ok 2;
  from_value = λ _. err "no result";
  object = λ _. 3;
  text = λ _. 4;
  same_value = ◌==◌;
  sha256 = λ bs. bs;
}

abbrev world : World ℕ
world = record {
  codec = codec;
  guards = guards;
  granted_rounds = λ _. none;
  json = numbers;
  serde = serde;
}

abbrev case_one : CaseIdentity
case_one = record { repository_id = 1; issue_number = 7; workflow_version = 2 }

abbrev common : WorkerRole → String → CommonResult ℕ
common role model = record {
  contract_version = 2;
  workflow_version = 2;
  case = case_one;
  task_id = "t";
  role = role;
  requested_model = model;
  actual_model = model;
  skills_repository_commit = sha;
  started_at_unix = 10;
  completed_at_unix = 20;
  evidence = [];
}

abbrev build : BuilderResult ℕ
build = record {
  common = common builder "cursor/grok";
  outcome = review_ready;
  plan_version = 1;
  build_round = 1;
  head_sha = some sha;
  local_checks = [];
  finding_resolutions = [];
}

abbrev task : WorkerBinding
task = record {
  case = case_one;
  task_id = "t";
  role = builder;
  reviewer_id = none;
  review_mode = none;
  requested_model = "cursor/grok";
  skills_repository_commit = sha;
  plan_version = 1;
  pr_number = none;
  expected_head_sha = none;
}

abbrev stored : StoredCase
stored = record {
  case_key = "repo:1#7@2";
  repository_id = 1;
  issue_number = 7;
  workflow_version = 2;
  state = "READY_TO_BUILD";
  state_revision = 5;
  policy_revision = 3;
  remediation_round = 0;
  plan_version = 1;
  pr_number = none;
  head_sha = none;
}

abbrev row : StoredCase → CaseRow
row case = record { case = case; created_at = 1; updated_at = 9 }

abbrev ledger : StoredCase → Handle ℕ
ledger case = with_tables empty_handle (record empty_handle.tables { cases = row case ∷ [] })

abbrev after : Handle ℕ
after = (ingest_worker_result world (ledger stored) policy none task (of_builder build)).0

build_test :
    ingest_worker_result world (ledger stored) policy none task (of_builder build)
    ≡ (after, ok (applied 2))
unfolding ingest_worker_result plan_ingest new_run with_dispatch alone validate_binding validate
    matches check_builder check_common check_head case_id validate_case_binding workflow
    result_workflow map_event parse_textual_id parse_state parse_git_sha apply_batch prepare_batch
    validate_workflow validate_workflow_shape effective_policy prepare_from after_previous
    validate_consecutive transition_input resume_target evaluate_case_command transition
    checked_next next_plan_version next_round next_head_binding replace_head state_name case_key
    decimal granted_remediation_rounds apply_transition_batch validate_batch validate_common
    run_batch apply_all apply_one admit insert_event insert_results insert_run insert_evidence
    insert_findings update_case replace_effects is_superseded insert_effects event_name
    effect_inputs current_review_runs_for_case
build_test = refl

ingested_is_run_example : HasMoved world (ledger stored) after policy none task (of_builder build) 2
ingested_is_run_example =
    ingested_is_run world (ledger stored) after policy none task (of_builder build) 2 build_test
      refl

same_number : (n : ℕ) → (n == n) ≡ true
same_number n = (==_iff n n).1 refl

-- The builder comes back with another outcome.
ingested_once_example :
    (ingest_worker_result world after policy none task (of_builder build) ≡ (after, ok replayed))
    × ((ingest_worker_result world after policy none task
          (of_builder (record build { outcome = return_to_planning; head_sha = none }))).0
        ≡ after)
ingested_once_example =
    ingested_once world (λ _. err read_only) same_number (ledger stored) after after policy policy
      none none task task (of_builder build)
      (of_builder (record build { outcome = return_to_planning; head_sha = none })) (applied 2)
      build_test refl here refl

-- Another task has a run of this name: the dispatch of the builder goes through, and the insertion of
-- the run of its result is refused.
abbrev clashing : Handle ℕ
clashing = with_tables (ledger stored) (record (ledger stored).tables {
  runs =
      record {
        run = record { run_id = "run-t"; task_id = "s"; role = "builder"; payload = 1 };
        case_key = "repo:1#8@2";
        event_id = "result-s";
        accepted_at = 3;
      }
      ∷ [];
})

clash_test :
    ingest_worker_result world clashing policy none task (of_builder build)
    ≡ (clashing, err (controller (store database)))
unfolding ingest_worker_result plan_ingest new_run with_dispatch alone validate_binding validate
    matches check_builder check_common check_head case_id validate_case_binding workflow
    result_workflow map_event parse_textual_id parse_state parse_git_sha apply_batch prepare_batch
    validate_workflow validate_workflow_shape effective_policy prepare_from after_previous
    validate_consecutive transition_input resume_target evaluate_case_command transition
    checked_next next_plan_version next_round next_head_binding replace_head state_name case_key
    decimal granted_remediation_rounds apply_transition_batch validate_batch validate_common
    run_batch apply_all apply_one admit insert_event insert_results insert_run insert_evidence
    insert_findings update_case replace_effects is_superseded insert_effects event_name
    effect_inputs current_review_runs_for_case
clash_test = refl

ingested-IsWhole_example : clashing ≡ clashing
ingested-IsWhole_example =
    ingested-IsWhole world clashing clashing policy none task (of_builder build) same_number
      (err (controller (store database))) clash_test refl

abbrev general : RolePolicy
general = record {
  role = reviewer_general;
  reviewer_id = some "general";
  review_mode = some required;
  profile = "p";
  execution = hermes;
  provider = "anthropic";
  model = "opus";
  max_runtime = "2h";
  priority = 1;
  skills = "workflow-contract" ∷ "reviewer-general" ∷ [];
}

abbrev reviewing : WorkflowPolicy
reviewing = record {
  board = "pip";
  workspace = "/work/";
  branch_prefix = "pip/";
  sensitive_scope_categories = [];
  max_provider_failures = 1;
  max_hermes_attempts = none;
  hermes_scratch_root = none;
  isolated_reviews = false;
  cargo_jobs = none;
  roles = general ∷ record general { role = reviewer_secperf; reviewer_id = some "secperf" } ∷ [];
}

abbrev review : ReviewResult ℕ
review = record {
  common = common reviewer_general "anthropic/opus";
  reviewer_id = "general";
  outcome = approve;
  plan_version = 1;
  review_round = 1;
  pr_number = 12;
  reviewed_head_sha = sha;
  blocking_findings = [];
  suggestions = [];
  finding_confirmations = [];
}

abbrev review_binding : WorkerBinding
review_binding = record task {
  role = reviewer_general;
  reviewer_id = some "general";
  review_mode = some required;
  requested_model = "anthropic/opus";
  pr_number = some 12;
  expected_head_sha = some sha;
}

abbrev in_review : StoredCase
in_review = record stored { state = "REVIEWING"; pr_number = some 12; head_sha = some head }

abbrev reviewed : Handle ℕ
reviewed =
    (ingest_worker_result world (ledger in_review) policy (some reviewing) review_binding
      (of_review review)).0

review_test :
    ingest_worker_result world
      (ledger in_review)
      policy
      (some reviewing)
      review_binding
      (of_review review)
    ≡ (reviewed, ok (applied 1))
unfolding ingest_worker_result plan_ingest new_run with_dispatch alone validate_binding validate
    matches check_builder check_common check_head case_id validate_case_binding workflow
    result_workflow map_event parse_textual_id parse_state parse_git_sha apply_batch prepare_batch
    validate_workflow validate_workflow_shape effective_policy prepare_from after_previous
    validate_consecutive transition_input resume_target evaluate_case_command transition
    checked_next next_plan_version next_round next_head_binding replace_head state_name case_key
    decimal granted_remediation_rounds apply_transition_batch validate_batch validate_common
    run_batch apply_all apply_one admit insert_event insert_results insert_run insert_evidence
    insert_findings update_case replace_effects is_superseded insert_effects event_name
    effect_inputs current_review_runs_for_case validate_review_policy_binding check_review
    review_findings collect_ids gather verdict by_pair by_policy join_review prepare_one apply
review_test = refl

ingested_review-IsConfigured_example :
    (configured : RolePolicy) × IsConfigured reviewing "general" reviewer_general "anthropic/opus"
      configured
ingested_review-IsConfigured_example =
    ingested_review-IsConfigured world (ledger in_review) reviewed policy reviewing review_binding
      review (applied 1) review_test
