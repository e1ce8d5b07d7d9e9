-- ===== src/Controller/Scheduling/Total.antt =====
-- crates/pip-controller/src/scheduling.rs: a policy that was built schedules every effect of a case that
-- has what a review needs.
use agent_p1p.Prelude.{
  ℕ, ◌≡◌, refl, arith, String, true, not, Option, none, some, List, [], ◌∷◌, all, ok, ◌>>=◌, ◌>>◌,
  ok_or, fail_if, Bool-cases, Option-cases, inl, inr,
}
use agent_p1p.Core.ExactHead.{GitSha}
use agent_p1p.Core.StateMachine.{
  Effect, dispatch_planner, dispatch_builder, dispatch_reviewers, dispatch_final_reviewer,
}
use agent_p1p.Contracts.{planner, builder, final_reviewer}
use agent_p1p.Controller.Scheduling.{
  RolePolicy, WorkflowPolicy, ExecutionKind, hermes, direct, Dispatched, invalid_policy,
  missing_plan, invalid_effect_id, invalid_evidence_bundle, DispatchError, valid_role_policy,
  is_reviewer, valid_opaque, reviewers_of,
}
use agent_p1p.Controller.Scheduling.Policy.{role_of}
use agent_p1p.Controller.Scheduling.Tasks.{DispatchContext, Outside, projection_key}
use agent_p1p.Controller.Scheduling.Dispatch.{
  dispatch, take_snapshot, is_isolated, review_fields, storage_fields, worker_workspace,
}
use agent_p1p.Controller.Scheduling.Effects.{
  review_effect_id, single, review_task, review_tasks, require_review_binding, tasks_of,
  schedule_effect,
}
use agent_p1p.Controller.Scheduling.Accepted.{
  IsSound, IsBuilt, IsBuilt-IsSound, valid_role_policy_lem, role_of-IsSound, one-planner,
  one-builder, one-final_reviewer,
}

-- The call returns a value.
abbrev pub Returns : {A : Type 0} → Dispatched A → Type 0
Returns {A} call = (value : A) × (call ≡ ok value)

Returns-bind :
    {A B : Type 0} (first : Dispatched A) (next : A → Dispatched B)
    → Returns first
    → ((a : A) → Returns (next a))
    → Returns (first >>= next)
Returns-bind first next (a, e) rest = let (b, e') = rest a in (b, rw e e')

Returns-then :
    {B : Type 0} (first : Dispatched (Unit {0})) (next : Dispatched B)
    → first ≡ ok tt
    → Returns next
    → Returns (first >> next)
Returns-then first next e (b, e') = (b, rw e e')

Returns-ok_or :
    {A : Type 0} (o : Option A) (e : DispatchError) (a : A) → o ≡ some a → Returns (ok_or o e)
Returns-ok_or o e a is = (a, rw is refl)

module _ {Value : Type 0} (outside : Outside Value) (context : DispatchContext Value)
    (policy : WorkflowPolicy) where
  -- What every effect may ask of the case and of the policy.
  pub record IsReady : Type 0 where
    pub plan : ℕ
    pub pr : ℕ
    pub head : GitSha
    pub has_plan : context.plan_version ≡ some plan
    pub has_pr : context.pr_number ≡ some pr
    pub has_head : context.head_sha ≡ some head
    pub has_bundle : outside.is_object context.immutable_evidence_bundle ≡ true
    pub unscratched : policy.hermes_scratch_root ≡ none

  module _ (ready : IsReady) where
    take_snapshot-Returns :
        (binding : RolePolicy) → Returns (take_snapshot outside context binding policy)
    take_snapshot-Returns binding = elim (Bool-cases (is_isolated outside policy binding.role)) [
      | inl apart ↦ rw apart (
          Returns-bind (ok_or context.head_sha invalid_policy) _
            (Returns-ok_or context.head_sha invalid_policy ready.head ready.has_head)
            (λ head. (_, refl)))
      | inr shared ↦ rw shared (none, refl)
    ]

    review_fields-Returns :
        (binding : RolePolicy)
        → valid_role_policy binding ≡ true
        → Returns (review_fields context binding)
    review_fields-Returns binding valid =
        let (_, bound) = valid_role_policy_lem binding valid in
        elim (Bool-cases (is_reviewer binding.role)) [
          | inl reviews ↦ elim (Option-cases binding.review_mode) [
            | inl no_mode ↦ absurd (ground arith)
            | inr (mode, has_mode) ↦ rw reviews (
                Returns-bind (ok_or binding.review_mode invalid_policy) _
                  (Returns-ok_or binding.review_mode invalid_policy mode has_mode) (λ m. (_, refl)))
          ]
          | inr plain ↦ rw plain ([], refl)
        ]

    storage_fields-Returns :
        (execution : ExecutionKind) (key workspace : String)
        → Returns
            (storage_fields outside context execution policy.hermes_scratch_root key workspace)
    storage_fields-Returns direct key workspace = ([], refl)
    storage_fields-Returns hermes key workspace = ([], rw ready.unscratched refl)

    dispatch-Returns :
        (effect_id source : String) (binding : RolePolicy)
        → valid_role_policy binding ≡ true
        → Returns (dispatch outside effect_id source binding context policy)
    unfolding dispatch
    dispatch-Returns effect_id source binding valid =
        Returns-then
          (fail_if (not (outside.is_object context.immutable_evidence_bundle))
            invalid_evidence_bundle)
          _ (rw ready.has_bundle refl)
          (Returns-bind (take_snapshot outside context binding policy) _
            (take_snapshot-Returns binding)
            λ taken.
              Returns-bind (review_fields context binding) _ (review_fields-Returns binding valid)
                λ reviewed.
                  Returns-bind _ _
                    (storage_fields-Returns binding.execution (projection_key context binding)
                      (worker_workspace outside policy context taken))
                    λ stored. (_, refl))

    single-Returns :
        (effect_id : String) (found : Dispatched RolePolicy) (binding : RolePolicy)
        → found ≡ ok binding
        → valid_role_policy binding ≡ true
        → Returns (single outside effect_id context policy found)
    single-Returns effect_id found binding is valid = rw is (
        Returns-bind (dispatch outside effect_id effect_id binding context policy) _
          (dispatch-Returns effect_id effect_id binding valid) (λ task. (_, refl)))

    review_task-Returns :
        (effect_id : String) (binding : RolePolicy)
        → valid_role_policy binding ≡ true
        → is_reviewer binding.role ≡ true
        → Returns (review_task outside effect_id context policy binding)
    unfolding review_task
    review_task-Returns effect_id binding valid reviews =
        let (_, bound) = valid_role_policy_lem binding valid in
        elim (Option-cases binding.reviewer_id) [
          | inl no_id ↦ absurd (ground arith)
          | inr (id, has_id) ↦
              Returns-bind (ok_or binding.reviewer_id invalid_policy) _
                (Returns-ok_or binding.reviewer_id invalid_policy id has_id)
                (λ k. dispatch-Returns (review_effect_id effect_id k) effect_id binding valid)
        ]

    review_tasks-Returns :
        (effect_id : String) (roles : List RolePolicy)
        → all valid_role_policy roles ≡ true
        → Returns (review_tasks outside effect_id context policy (reviewers_of roles))
    unfolding review_tasks
    review_tasks-Returns effect_id [] valid = ([], refl)
    review_tasks-Returns effect_id (binding ∷ roles) valid =
        let rest = review_tasks-Returns effect_id roles (ground arith) in
        elim (Bool-cases (is_reviewer binding.role)) [
          | inl reviews ↦ rw reviews (
              Returns-bind (review_task outside effect_id context policy binding) _
                (review_task-Returns effect_id binding (ground arith) reviews)
                λ task. Returns-bind _ _ rest (λ tasks. (_, refl)))
          | inr plain ↦ rw plain rest
        ]

    require_review_binding-eq-ok : require_review_binding context ≡ ok tt
    unfolding require_review_binding
    require_review_binding-eq-ok = rw (ready.has_plan, ready.has_pr, ready.has_head) refl

    tasks_of-Returns :
        (effect_id : String) (effect : Effect)
        → IsSound policy
        → Returns (tasks_of outside effect_id context policy effect)
    unfolding tasks_of
    tasks_of-Returns effect_id dispatch_planner sound =
        let (b, found, _, valid) =
          role_of-IsSound policy planner sound refl (one-planner policy sound) in
        single-Returns effect_id (role_of policy planner) b found valid
    tasks_of-Returns effect_id dispatch_builder sound =
        let (b, found, _, valid) =
          role_of-IsSound policy builder sound refl (one-builder policy sound) in
        Returns-bind (ok_or context.plan_version missing_plan) _
          (Returns-ok_or context.plan_version missing_plan ready.plan ready.has_plan)
          (λ _. single-Returns effect_id (role_of policy builder) b found valid)
    tasks_of-Returns effect_id dispatch_reviewers sound =
        Returns-then (require_review_binding context) _ require_review_binding-eq-ok
          (review_tasks-Returns effect_id policy.roles sound.1)
    tasks_of-Returns effect_id dispatch_final_reviewer sound =
        let (b, found, _, valid) =
          role_of-IsSound policy final_reviewer sound refl (one-final_reviewer policy sound) in
        Returns-then (require_review_binding context) _ require_review_binding-eq-ok
          (single-Returns effect_id (role_of policy final_reviewer) b found valid)
    tasks_of-Returns effect_id _ sound = ([], refl)

    -- A policy that was built, without a scratch root for Hermes, schedules every effect, without an
    -- error, for a valid effect id and a case with a plan, a pull request, a head and an evidence
    -- bundle that is an object.
    pub schedule_effect-Returns :
        (effect_id : String) (effect : Effect)
        → IsBuilt policy
        → valid_opaque effect_id 512 ≡ true
        → Returns (schedule_effect outside effect_id context policy effect)
    unfolding schedule_effect
    schedule_effect-Returns effect_id effect built named =
        Returns-then (fail_if (not (valid_opaque effect_id 512)) invalid_effect_id) _
          (rw named refl) (tasks_of-Returns effect_id effect (IsBuilt-IsSound built))
