-- ===== src/Controller/Scheduling/Tests.antt =====
-- crates/pip-controller/src/scheduling.rs on one policy: a planner, a builder, two reviewers and a final
-- reviewer.
use agent_p1p.Prelude.{
  ℕ, ◌≡◌, refl, String, true, false, none, some, List, [], ◌∷◌, map, ok, err, All,
}
use agent_p1p.Core.Domain.{decimal, case_key}
use agent_p1p.Core.ExactHead.{GitSha}
use agent_p1p.Core.StateMachine.{dispatch_reviewers}
use agent_p1p.Contracts.{
  planner, builder, reviewer_general, reviewer_secperf, final_reviewer, required,
}
use agent_p1p.Controller.Ledger.{StoredCase}
use agent_p1p.Store.Outbox.{ClaimedEffect, has_repeat}
use agent_p1p.Controller.Scheduling.{
  RolePolicy, WorkflowPolicy, Dispatched, hermes, direct, invalid_policy, stale_effect,
  valid_opaque, valid_text, valid_branch_prefix, valid_role_policy, valid_roles,
}
use agent_p1p.Controller.Scheduling.Policy.{
  new_policy, with_isolated_reviews, with_hermes_scratch_root, reviewers,
}
use agent_p1p.Controller.Scheduling.Tasks.{
  DispatchContext, WorkflowDispatch, Outside, projection_key, case_workspace,
}
use agent_p1p.Controller.Scheduling.Dispatch.{dispatch}
use agent_p1p.Controller.Scheduling.Effects.{
  require_review_binding, review_task, review_tasks, tasks_of, schedule_effect, read_case_id,
  read_effect, check_head, context_of, schedule_claimed_dispatch,
}
use agent_p1p.Controller.Scheduling.Accepted.{IsBuilt, made, isolated}
use agent_p1p.Controller.Scheduling.Fanout.{AreTasksOf, reviewers_are_dispatched}
use agent_p1p.Controller.Scheduling.Total.{Returns, IsReady, schedule_effect-Returns}
use agent_p1p.Controller.Scheduling.Executors.{IsExecutable, schedule_effect-IsExecutable}
use agent_p1p.Controller.Scheduling.Claims.{IsBoundTo, schedule_claimed_dispatch-IsBoundTo}

abbrev outside : Outside ℕ
outside = record {
  is_object = λ _. true;
  evidence_focus = λ _ _. 0;
  text_sha256 = λ _. "0123456789abcdef";
  value_sha256 = λ _. "fedcba9876543210";
  parent = λ _. "/work";
  file_name = λ _. "repo-1-issue-7-workflow-1";
  join = λ a b. a;
}

abbrev planning : RolePolicy
planning = record {
  role = planner;
  reviewer_id = none;
  review_mode = none;
  profile = "p";
  execution = hermes;
  provider = "anthropic";
  model = "opus";
  max_runtime = "2h";
  priority = 1;
  skills = "workflow-contract" ∷ "planner" ∷ [];
}

abbrev building : RolePolicy
building = record planning {
  role = builder;
  execution = direct;
  provider = "cursor";
  skills = "workflow-contract" ∷ "builder-grok" ∷ [];
}

abbrev judging : RolePolicy
judging = record planning {
  role = final_reviewer;
  skills = "final-reviewer" ∷ "workflow-contract" ∷ [];
}

abbrev general : RolePolicy
general = record planning {
  role = reviewer_general;
  reviewer_id = some "general";
  review_mode = some required;
  skills = "workflow-contract" ∷ "reviewer-general" ∷ [];
}

abbrev secperf : RolePolicy
secperf = record planning {
  role = reviewer_secperf;
  reviewer_id = some "secperf";
  review_mode = some required;
  skills = "workflow-contract" ∷ "reviewer-secperf" ∷ [];
}

abbrev roles : List RolePolicy
roles = planning ∷ building ∷ general ∷ secperf ∷ judging ∷ []

abbrev policy : WorkflowPolicy
policy = record {
  board = "pip";
  workspace = "/work/";
  branch_prefix = "pip/";
  sensitive_scope_categories = [];
  max_provider_failures = 1;
  max_hermes_attempts = none;
  hermes_scratch_root = none;
  isolated_reviews = false;
  cargo_jobs = none;
  roles = roles;
}

new_test : new_policy "pip" "/work/" "pip/" roles ≡ ok policy
unfolding new_policy valid_text valid_branch_prefix valid_roles valid_role_policy
new_test = refl

-- Two reviewers of one id are refused.
same_reviewer_test :
    new_policy "pip" "/work/" "pip/" (
      planning
      ∷ building
      ∷ general
      ∷ record secperf { reviewer_id = some "general" }
      ∷ judging
      ∷ [])
    ≡ err invalid_policy
unfolding new_policy valid_text valid_branch_prefix valid_roles valid_role_policy
same_reviewer_test = refl

-- A scratch root inside the workspace is refused.
scratch_inside_test : with_hermes_scratch_root policy "/work/scratch" ≡ err invalid_policy
unfolding with_hermes_scratch_root valid_text
scratch_inside_test = refl

scratch_test :
    with_hermes_scratch_root policy "/scratch"
    ≡ ok (record policy { hermes_scratch_root = some "/scratch" })
unfolding with_hermes_scratch_root valid_text
scratch_test = refl

policy-IsBuilt : IsBuilt (with_isolated_reviews policy)
policy-IsBuilt = isolated (made "pip" "/work/" "pip/" roles new_test)

abbrev head : GitSha
head =
    49 ∷ 49 ∷ 49 ∷ 49 ∷ 49 ∷ 49 ∷ 49 ∷ 49 ∷ 49 ∷ 49 ∷ 49 ∷ 49 ∷ 49 ∷ 49 ∷ 49 ∷ 49 ∷ 49 ∷ 49 ∷ 49
    ∷ 49 ∷ 49 ∷ 49 ∷ 49 ∷ 49 ∷ 49 ∷ 49 ∷ 49 ∷ 49 ∷ 49 ∷ 49 ∷ 49 ∷ 49 ∷ 49 ∷ 49 ∷ 49 ∷ 49 ∷ 49 ∷ 49
    ∷ 49 ∷ 49 ∷ []

abbrev case : StoredCase
case = record {
  case_key = "repo:1#7@1";
  repository_id = 1;
  issue_number = 7;
  workflow_version = 1;
  state = "REVIEWING";
  state_revision = 6;
  policy_revision = 1;
  remediation_round = 0;
  plan_version = 1;
  pr_number = some 12;
  head_sha = some head;
}

abbrev context : DispatchContext ℕ
context = context_of case (record { repository = 1; issue = 7; workflow = 1 }) 6 head 5

abbrev claim : ClaimedEffect
claim = record {
  effect_id = "e";
  case_key = "repo:1#7@1";
  state_revision = 6;
  effect_type = "DISPATCH_REVIEWERS";
  payload = record {
    case_key = "repo:1#7@1";
    state_revision = 6;
    effect = "DISPATCH_REVIEWERS";
    remediation_round = 0;
    plan_version = 1;
    pr_number = some 12;
    head_sha = some head;
  };
  lease_owner = "w";
  lease_until = 100;
}

opaque_test : valid_opaque "e" 512 ≡ true
unfolding valid_opaque
opaque_test = refl

is_ready : IsReady outside context (with_isolated_reviews policy)
is_ready = record {
  plan = 1;
  pr = 12;
  head = head;
  has_plan = refl;
  has_pr = refl;
  has_head = refl;
  has_bundle = refl;
  unscratched = refl;
}

schedule_effect-Returns_example :
    Returns (schedule_effect outside "e" context (with_isolated_reviews policy) dispatch_reviewers)
schedule_effect-Returns_example =
    schedule_effect-Returns outside context (with_isolated_reviews policy) is_ready "e"
      dispatch_reviewers policy-IsBuilt opaque_test

abbrev value_of : Dispatched (List (WorkflowDispatch ℕ)) → List (WorkflowDispatch ℕ)
value_of (ok tasks) = tasks
value_of (err _) = []

abbrev tasks : List (WorkflowDispatch ℕ)
tasks =
    value_of (schedule_effect outside "e" context (with_isolated_reviews policy) dispatch_reviewers)

schedule_test :
    schedule_effect outside "e" context (with_isolated_reviews policy) dispatch_reviewers ≡ ok tasks
unfolding schedule_effect tasks_of review_tasks review_task dispatch require_review_binding
    valid_opaque
schedule_test = refl

effects_test :
    map {B = String × String × String}
      (λ t. (t.worker_effect_id, t.worker_projection_key, t.workspace))
      tasks
    ≡ ("e:general:worker", "repo:1#7@1:general:round:1:revision:6:worker", "/work/source")
      ∷ ("e:secperf:worker", "repo:1#7@1:secperf:round:1:revision:6:worker", "/work/source")
      ∷ []
unfolding schedule_effect tasks_of review_tasks review_task dispatch require_review_binding
    valid_opaque projection_key case_workspace case_key decimal
effects_test = refl

claim_test :
    schedule_claimed_dispatch outside (λ _. ok 5) claim case (with_isolated_reviews policy) head
    ≡ ok tasks
unfolding schedule_claimed_dispatch read_case_id read_effect check_head schedule_effect tasks_of
    review_tasks review_task dispatch require_review_binding valid_opaque case_key decimal
claim_test = refl

stale_test :
    schedule_claimed_dispatch outside
      (λ _. ok 5)
      (record claim { state_revision = 5 })
      case
      policy
      head
    ≡ err stale_effect
unfolding schedule_claimed_dispatch
stale_test = refl

reviewers_are_dispatched_example :
    AreTasksOf "e" context (reviewers policy) tasks
    × (has_repeat (map (λ t. t.worker_effect_id) tasks) ≡ false)
reviewers_are_dispatched_example =
    reviewers_are_dispatched outside "e" context (with_isolated_reviews policy) tasks policy-IsBuilt
      schedule_test

schedule_effect-IsExecutable_example : All IsExecutable tasks
schedule_effect-IsExecutable_example =
    schedule_effect-IsExecutable outside "e" context (with_isolated_reviews policy)
      dispatch_reviewers tasks policy-IsBuilt schedule_test

schedule_claimed_dispatch-IsBoundTo_example :
    (claim.case_key ≡ case.case_key)
    × (claim.state_revision ≡ case.state_revision)
    × All (IsBoundTo claim case) tasks
schedule_claimed_dispatch-IsBoundTo_example =
    schedule_claimed_dispatch-IsBoundTo outside (λ _. ok 5) claim case
      (with_isolated_reviews policy) head tasks claim_test
