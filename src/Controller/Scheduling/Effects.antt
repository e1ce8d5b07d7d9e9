-- ===== src/Controller/Scheduling/Effects.antt =====
-- crates/pip-controller/src/scheduling.rs: `schedule_effect` and `schedule_claimed_dispatch`, which make
-- the tasks of an effect. The evidence bundle of a case is a parameter.
use text.Mathlib.Text.{◌==◌ as str_eq}
use agent_p1p.Prelude.{
  ℕ, String, not, ◌&&◌, ◌||◌, Option, none, some, List, [], ◌∷◌, ◌==◌, if◌then◌else◌, all, length,
  ok, err, ◌>>=◌, ◌>>◌, fail_if, ok_or,
}
use agent_p1p.Prelude.Text.{concat}
use agent_p1p.Core.Domain.{CaseId, case_key, is_lower_hex, non_zero}
use agent_p1p.Core.ExactHead.{GitSha}
use agent_p1p.Core.StateMachine.{
  Effect, dispatch_planner, dispatch_builder, dispatch_reviewers, dispatch_final_reviewer,
}
use agent_p1p.Contracts.{planner, builder, final_reviewer}
use agent_p1p.Controller.Ledger.{StoredCase}
use agent_p1p.Controller.Scheduling.{
  RolePolicy, WorkflowPolicy, Dispatched, invalid_policy, invalid_effect_id, missing_plan,
  missing_pull_request, missing_exact_head, invalid_stored_case, stale_effect, unsupported_effect,
  valid_opaque,
}
use agent_p1p.Controller.Scheduling.Policy.{role_of, reviewers}
use agent_p1p.Controller.Scheduling.Tasks.{DispatchContext, WorkflowDispatch, Outside}
use agent_p1p.Controller.Scheduling.Dispatch.{dispatch}
use agent_p1p.Store.Outbox.{ClaimedEffect}

-- `and_then(NonZeroU64::new)`
abbrev pub non_zero_option : Option ℕ → Option ℕ
non_zero_option none = none
non_zero_option (some n) = non_zero n

-- `GitSha::from_str`, where a head is stored
unfoldable pub check_head : Option GitSha → Dispatched (Unit {0})
check_head none = ok tt
check_head (some sha) = fail_if (not (length sha == 40 && all is_lower_hex sha)) invalid_stored_case

-- `match claimed.effect_type.as_str()`
unfoldable pub read_effect : String → Dispatched Effect
read_effect kind =
    if str_eq kind "DISPATCH_PLANNER"
    then ok dispatch_planner
    else if str_eq kind "DISPATCH_BUILDER"
    then ok dispatch_builder
    else if str_eq kind "DISPATCH_REVIEWERS"
    then ok dispatch_reviewers
    else if str_eq kind "DISPATCH_FINAL_REVIEWER"
    then ok dispatch_final_reviewer
    else err unsupported_effect

unfoldable pub read_case_id : StoredCase → Dispatched CaseId
read_case_id case = do
  repository ← ok_or (non_zero case.repository_id) invalid_stored_case
  issue ← ok_or (non_zero case.issue_number) invalid_stored_case
  workflow ← ok_or (non_zero case.workflow_version) invalid_stored_case
  ok (record { repository = repository; issue = issue; workflow = workflow })

-- `format!("{effect_id}:{reviewer_id}")`
abbrev pub review_effect_id : String → String → String
review_effect_id effect_id reviewer_id = concat (effect_id ∷ ":" ∷ reviewer_id ∷ [])

module _ {Value : Type 0} where
  unfoldable pub require_review_binding : DispatchContext Value → Dispatched (Unit {0})
  require_review_binding context = do
    _ ← ok_or context.plan_version missing_plan
    _ ← ok_or context.pr_number missing_pull_request
    _ ← ok_or context.head_sha missing_exact_head
    ok tt

  module _ (outside : Outside Value) (effect_id : String) (context : DispatchContext Value)
      (policy : WorkflowPolicy) where
    -- The task of the one worker of a role.
    abbrev pub single : Dispatched RolePolicy → Dispatched (List (WorkflowDispatch Value))
    single found = do
      binding ← found
      task ← dispatch outside effect_id effect_id binding context policy
      ok (task ∷ [])

    unfoldable pub review_task : RolePolicy → Dispatched (WorkflowDispatch Value)
    review_task binding = do
      reviewer_id ← ok_or binding.reviewer_id invalid_policy
      dispatch outside (review_effect_id effect_id reviewer_id) effect_id binding context policy

    -- `map(..).collect()`
    unfoldable pub review_tasks : List RolePolicy → Dispatched (List (WorkflowDispatch Value))
    review_tasks [] = ok []
    review_tasks (binding ∷ bindings) = do
      task ← review_task binding
      tasks ← review_tasks bindings
      ok (task ∷ tasks)

    unfoldable pub tasks_of : Effect → Dispatched (List (WorkflowDispatch Value))
    tasks_of dispatch_planner = single (role_of policy planner)
    tasks_of dispatch_builder =
        ok_or context.plan_version missing_plan >>= λ _. single (role_of policy builder)
    tasks_of dispatch_reviewers = require_review_binding context >> review_tasks (reviewers policy)
    tasks_of dispatch_final_reviewer =
        require_review_binding context >> single (role_of policy final_reviewer)
    tasks_of _ = ok []

    unfoldable pub schedule_effect : Effect → Dispatched (List (WorkflowDispatch Value))
    schedule_effect effect = do
      fail_if (not (valid_opaque effect_id 512)) invalid_effect_id
      tasks_of effect

  abbrev pub context_of : StoredCase → CaseId → ℕ → GitSha → Value → DispatchContext Value
  context_of case case_id state_revision commit bundle = record {
    case_id = case_id;
    state_revision = state_revision;
    plan_version = non_zero case.plan_version;
    remediation_round = case.remediation_round;
    pr_number = non_zero_option case.pr_number;
    head_sha = case.head_sha;
    skills_repository_commit = commit;
    immutable_evidence_bundle = bundle;
  }

  unfoldable pub schedule_claimed_dispatch :
      Outside Value
      → (StoredCase → Dispatched Value)
      → ClaimedEffect
      → StoredCase
      → WorkflowPolicy
      → GitSha
      → Dispatched (List (WorkflowDispatch Value))
  schedule_claimed_dispatch outside bundle_of claimed case policy commit = do
    fail_if
        (not (str_eq claimed.case_key case.case_key)
          || not (claimed.state_revision == case.state_revision))
        stale_effect
    case_id ← read_case_id case
    fail_if (not (str_eq (case_key case_id) case.case_key)) invalid_stored_case
    effect ← read_effect claimed.effect_type
    state_revision ← ok_or (non_zero case.state_revision) invalid_stored_case
    check_head case.head_sha
    bundle ← bundle_of case
    schedule_effect outside claimed.effect_id (context_of case case_id state_revision commit bundle)
        policy effect
