-- ===== src/Controller/Scheduling/Made.antt =====
-- crates/pip-controller/src/scheduling.rs: what every task of a schedule is made of.
use agent_p1p.Prelude.{
  ◌≡◌, subst, String, not, List, [], ◌∷◌, ◌++◌, ok, >>=-eq-ok, >>-eq-ok, ok_injective, ok_or,
  fail_if, All,
}
use agent_p1p.Core.StateMachine.{
  Effect, dispatch_planner, dispatch_builder, dispatch_reviewers, dispatch_final_reviewer,
}
use agent_p1p.Contracts.{WorkerRole, planner, builder, final_reviewer}
use agent_p1p.Controller.Scheduling.{
  RolePolicy, WorkflowPolicy, invalid_policy, invalid_effect_id, missing_plan, valid_opaque,
}
use agent_p1p.Controller.Scheduling.Policy.{role_of, reviewers}
use agent_p1p.Controller.Scheduling.Tasks.{DispatchContext, Body, WorkflowDispatch, Outside}
use agent_p1p.Controller.Scheduling.Dispatch.{dispatch, binding_fields, task_of}
use agent_p1p.Controller.Scheduling.Effects.{
  review_effect_id, single, review_task, review_tasks, require_review_binding, tasks_of,
  schedule_effect,
}
use agent_p1p.Controller.Scheduling.Fanout.{dispatch_lem}

module _ {Value : Type 0} (outside : Outside Value) (source : String)
    (context : DispatchContext Value) (policy : WorkflowPolicy) (Q : RolePolicy → Type 0) where
  -- A task is made for the effect, of a binding that has the property.
  pub record IsMade (task : WorkflowDispatch Value) : Type 0 where
    pub effect_id : String
    pub binding : RolePolicy
    pub workspace : String
    pub rest : Body Value
    pub holds : Q binding
    pub is :
        task
        ≡ task_of effect_id source binding context policy workspace
            (binding_fields context binding ++ rest)

  dispatch-IsMade :
      (effect_id : String) (binding : RolePolicy) (task : WorkflowDispatch Value)
      → Q binding
      → dispatch outside effect_id source binding context policy ≡ ok task
      → IsMade task
  dispatch-IsMade effect_id binding task holds h =
      let (workspace, rest, is) =
        dispatch_lem outside effect_id source binding context policy task h in
      record {
        effect_id = effect_id;
        binding = binding;
        workspace = workspace;
        rest = rest;
        holds = holds;
        is = is;
      }

  single-IsMade :
      (role : WorkerRole) (tasks : List (WorkflowDispatch Value))
      → ((binding : RolePolicy) → role_of policy role ≡ ok binding → Q binding)
      → single outside source context policy (role_of policy role) ≡ ok tasks
      → All IsMade tasks
  single-IsMade role tasks holds h =
      let (binding, found, h1) = >>=-eq-ok (role_of policy role) _ h in
      let (task, made, h2) =
        >>=-eq-ok (dispatch outside source source binding context policy) _ h1 in
      subst (All IsMade) (ok_injective h2)
        (dispatch-IsMade source binding task (holds binding found) made, tt)

  review_tasks-IsMade :
      (bindings : List RolePolicy) (tasks : List (WorkflowDispatch Value))
      → All Q bindings
      → review_tasks outside source context policy bindings ≡ ok tasks
      → All IsMade tasks
  unfolding review_tasks review_task
  review_tasks-IsMade [] tasks all_hold h = subst (All IsMade) (ok_injective h) tt
  review_tasks-IsMade (binding ∷ bindings) tasks (holds, others) h =
      let (task, first, h1) = >>=-eq-ok (review_task outside source context policy binding) _ h in
      let (id, _, made) = >>=-eq-ok (ok_or binding.reviewer_id invalid_policy) _ first in
      let (more, rest, h2) = >>=-eq-ok (review_tasks outside source context policy bindings) _ h1 in
      subst (All IsMade) (ok_injective h2) (
        dispatch-IsMade (review_effect_id source id) binding task holds made,
        review_tasks-IsMade bindings more others rest,
      )

  module _
      (found_holds : (role : WorkerRole) (binding : RolePolicy)
        → role_of policy role ≡ ok binding
        → Q binding)
      (reviewers_hold : All Q (reviewers policy)) where
    tasks_of-IsMade :
        (effect : Effect) (tasks : List (WorkflowDispatch Value))
        → tasks_of outside source context policy effect ≡ ok tasks
        → All IsMade tasks
    unfolding tasks_of
    tasks_of-IsMade dispatch_planner tasks h = single-IsMade planner tasks (found_holds planner) h
    tasks_of-IsMade dispatch_builder tasks h =
        let (_, _, h1) = >>=-eq-ok (ok_or context.plan_version missing_plan) _ h in
        single-IsMade builder tasks (found_holds builder) h1
    tasks_of-IsMade dispatch_reviewers tasks h =
        let (_, h1) = >>-eq-ok (require_review_binding context) _ h in
        review_tasks-IsMade (reviewers policy) tasks reviewers_hold h1
    tasks_of-IsMade dispatch_final_reviewer tasks h =
        let (_, h1) = >>-eq-ok (require_review_binding context) _ h in
        single-IsMade final_reviewer tasks (found_holds final_reviewer) h1
    tasks_of-IsMade _ tasks h = subst (All IsMade) (ok_injective h) tt

    pub schedule_effect-IsMade :
        (effect : Effect) (tasks : List (WorkflowDispatch Value))
        → schedule_effect outside source context policy effect ≡ ok tasks
        → All IsMade tasks
    unfolding schedule_effect
    schedule_effect-IsMade effect tasks h =
        let (_, h1) = >>-eq-ok (fail_if (not (valid_opaque source 512)) invalid_effect_id) _ h in
        tasks_of-IsMade effect tasks h1
