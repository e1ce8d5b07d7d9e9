-- ===== src/Controller/Scheduling/Fanout.antt =====
-- crates/pip-controller/src/scheduling.rs: one task for each reviewer, under names of their own.
use text.Mathlib.Text.{◌==◌ as str_eq}
use text.Mathlib.TextEquality.{eq_iff}
use text.Mathlib.TextLemmas.{append_cancel_left, append_cancel_right}
use agent_p1p.Prelude.{
  ◌≡◌, refl, sym, subst, ap, arith, String, false, not, some, List, [], ◌∷◌, ◌++◌, any, map, ok,
  >>=-eq-ok, >>-eq-ok, ok_injective, ok_or-eq-ok, ok_or, fail_if, Bool-cases, inl, inr,
}
use agent_p1p.Prelude.Text.{concat}
use agent_p1p.Core.StateMachine.{dispatch_reviewers}
use agent_p1p.Store.Outbox.{has_repeat}
use agent_p1p.Controller.Scheduling.{
  RolePolicy, WorkflowPolicy, invalid_policy, invalid_effect_id, invalid_evidence_bundle,
  valid_opaque, reviewer_ids,
}
use agent_p1p.Controller.Scheduling.Policy.{reviewers}
use agent_p1p.Controller.Scheduling.Tasks.{
  DispatchContext, Body, WorkflowDispatch, Outside, projection_key,
}
use agent_p1p.Controller.Scheduling.Dispatch.{
  dispatch, take_snapshot, review_fields, storage_fields, worker_workspace, binding_fields,
  stage_fields, common_fields, task_of,
}
use agent_p1p.Controller.Scheduling.Effects.{
  review_effect_id, review_task, review_tasks, require_review_binding, tasks_of, schedule_effect,
}
use agent_p1p.Controller.Scheduling.Accepted.{IsBuilt, IsBuilt-IsSound, reviewers-IsSound}

-- The effect of the task of a reviewer.
abbrev pub worker_effect_of : String → String → String
worker_effect_of effect_id reviewer_id =
    concat (review_effect_id effect_id reviewer_id ∷ ":worker" ∷ [])

worker_effect_of-injective : (e a b : String) → worker_effect_of e a ≡ worker_effect_of e b → a ≡ b
worker_effect_of-injective e a b h =
    let names = append_cancel_right (review_effect_id e a) (review_effect_id e b) _ h in
    let tails = append_cancel_left ":" _ _ (append_cancel_left e _ _ names) in
    append_cancel_right a b "" tails

worker_effect_of-differ :
    (e a b : String)
    → str_eq a b ≡ false
    → str_eq (worker_effect_of e a) (worker_effect_of e b) ≡ false
worker_effect_of-differ e a b h =
    elim (Bool-cases (str_eq (worker_effect_of e a) (worker_effect_of e b))) [
      | inl same ↦
          let is = (eq_iff a b).1 (
            worker_effect_of-injective e a b
              ((eq_iff (worker_effect_of e a) (worker_effect_of e b)).0 same)) in
          cc
      | inr other ↦ other
    ]

any-worker_effect_of :
    (e x : String) (xs : List String)
    → any (str_eq x) xs ≡ false
    → any (str_eq (worker_effect_of e x)) (map (worker_effect_of e) xs) ≡ false
any-worker_effect_of e x [] h = refl
any-worker_effect_of e x (y ∷ xs) h =
    let one = worker_effect_of-differ e x y (ground arith) in
    let rest = any-worker_effect_of e x xs (ground arith) in rw (one, rest) refl

-- Different reviewers have different effects.
has_repeat-worker_effect_of :
    (e : String) (ids : List String)
    → has_repeat ids ≡ false
    → has_repeat (map (worker_effect_of e) ids) ≡ false
has_repeat-worker_effect_of e [] h = refl
has_repeat-worker_effect_of e (x ∷ xs) h =
    let first = any-worker_effect_of e x xs (ground arith) in
    let rest = has_repeat-worker_effect_of e xs (ground arith) in rw (first, rest) refl

module _ {Value : Type 0} (effect_id : String) (context : DispatchContext Value) where
  -- The task of a reviewer: of its role and binding, for the effect, under the key of its own.
  pub record IsTaskOf (binding : RolePolicy) (task : WorkflowDispatch Value) : Type 0 where
    pub role_is : task.role ≡ binding.role
    pub execution_is : task.execution ≡ binding.execution
    pub provider_is : task.provider ≡ binding.provider
    pub model_is : task.model ≡ binding.model
    pub source_is : task.source_effect_id ≡ effect_id
    pub key_is : task.worker_projection_key ≡ projection_key context binding

  abbrev pub AreTasksOf : List RolePolicy → List (WorkflowDispatch Value) → Type 0
  AreTasksOf [] [] = Unit {0}
  AreTasksOf [] (task ∷ tasks) = ⊥
  AreTasksOf (binding ∷ bindings) [] = ⊥
  AreTasksOf (binding ∷ bindings) (task ∷ tasks) = IsTaskOf binding task × AreTasksOf bindings tasks

module _ {Value : Type 0} (outside : Outside Value) where
  -- A task names its binding, and its body begins with the case.
  pub dispatch_lem :
      (effect_id source : String) (binding : RolePolicy) (context : DispatchContext Value)
      (policy : WorkflowPolicy) (task : WorkflowDispatch Value)
      → dispatch outside effect_id source binding context policy ≡ ok task
      → (workspace : String) × (rest : Body Value) × (task
          ≡ task_of effect_id source binding context policy workspace
              (binding_fields context binding ++ rest))
  unfolding dispatch
  dispatch_lem effect_id source binding context policy task h =
      let (_, h1) =
        >>-eq-ok
          (fail_if (not (outside.is_object context.immutable_evidence_bundle))
            invalid_evidence_bundle)
          _ h in
      let (taken, _, h2) = >>=-eq-ok (take_snapshot outside context binding policy) _ h1 in
      let (reviewed, _, h3) = >>=-eq-ok (review_fields context binding) _ h2 in
      let (stored, _, h4) =
        >>=-eq-ok
          (storage_fields outside context binding.execution policy.hermes_scratch_root
            (projection_key context binding) (worker_workspace outside policy context taken))
          _ h3 in
      (
        worker_workspace outside policy context taken,
        reviewed
            ++ stage_fields context binding policy
            ++ common_fields outside context binding policy taken
            ++ stored,
        sym (ok_injective h4),
      )

  module _ (effect_id : String) (context : DispatchContext Value) (policy : WorkflowPolicy) where
    review_task_lem :
        (binding : RolePolicy) (task : WorkflowDispatch Value)
        → review_task outside effect_id context policy binding ≡ ok task
        → IsTaskOf effect_id context binding task
          × ((id : String) × (binding.reviewer_id ≡ some id)
              × (task.worker_effect_id ≡ worker_effect_of effect_id id))
    unfolding review_task
    review_task_lem binding task h =
        let (id, named, h1) = >>=-eq-ok (ok_or binding.reviewer_id invalid_policy) _ h in
        let (workspace, rest, is) =
          dispatch_lem (review_effect_id effect_id id) effect_id binding context policy task h1 in
        (
          record {
            role_is = ap (λ t. t.role) is;
            execution_is = ap (λ t. t.execution) is;
            provider_is = ap (λ t. t.provider) is;
            model_is = ap (λ t. t.model) is;
            source_is = ap (λ t. t.source_effect_id) is;
            key_is = ap (λ t. t.worker_projection_key) is;
          },
          (
            id,
            ok_or-eq-ok binding.reviewer_id invalid_policy named,
            ap (λ t. t.worker_effect_id) is,
          ),
        )

    review_tasks_lem :
        (bindings : List RolePolicy) (tasks : List (WorkflowDispatch Value))
        → review_tasks outside effect_id context policy bindings ≡ ok tasks
        → AreTasksOf effect_id context bindings tasks
          × (map (λ t. t.worker_effect_id) tasks
              ≡ map (worker_effect_of effect_id) (reviewer_ids bindings))
    unfolding review_tasks
    review_tasks_lem [] tasks h =
        subst (λ ts. AreTasksOf effect_id context [] ts × (map (λ t. t.worker_effect_id) ts ≡ []))
          (ok_injective h) (tt, refl)
    review_tasks_lem (binding ∷ bindings) tasks h =
        let (task, first, h1) =
          >>=-eq-ok (review_task outside effect_id context policy binding) _ h in
        let (others, more, h2) =
          >>=-eq-ok (review_tasks outside effect_id context policy bindings) _ h1 in
        let (is, (id, named, effect_is)) = review_task_lem binding task first in
        let (rest, effects) = review_tasks_lem bindings others more in
        subst
          (λ ts.
            AreTasksOf effect_id context (binding ∷ bindings) ts
            × (map (λ t. t.worker_effect_id) ts
                ≡ map (worker_effect_of effect_id) (reviewer_ids (binding ∷ bindings))))
          (ok_injective h2) ((is, rest), rw (named, effect_is, effects) refl)

    -- Where the reviewers of a policy that was built are dispatched, each reviewer gets one task, in
    -- their order: with its role, executor, provider, model and projection key, for the effect that
    -- was scheduled. No two of the tasks share an effect id.
    pub reviewers_are_dispatched :
        (tasks : List (WorkflowDispatch Value))
        → IsBuilt policy
        → schedule_effect outside effect_id context policy dispatch_reviewers ≡ ok tasks
        → AreTasksOf effect_id context (reviewers policy) tasks
          × (has_repeat (map (λ t. t.worker_effect_id) tasks) ≡ false)
    unfolding schedule_effect tasks_of
    reviewers_are_dispatched tasks built h =
        let (_, h1) = >>-eq-ok (fail_if (not (valid_opaque effect_id 512)) invalid_effect_id) _ h in
        let (_, h2) = >>-eq-ok (require_review_binding context) _ h1 in
        let (are, effects) = review_tasks_lem (reviewers policy) tasks h2 in
        let (unique, _) = reviewers-IsSound policy (IsBuilt-IsSound built) in
        (
          are,
          subst (λ es. has_repeat es ≡ false) (sym effects)
              (has_repeat-worker_effect_of effect_id (reviewer_ids (reviewers policy)) unique),
        )
