-- ===== src/Controller/Scheduling/Executors.antt =====
-- crates/pip-controller/src/scheduling.rs: which executor takes the tasks of a schedule.
use text.Mathlib.Text.{◌==◌ as str_eq}
use agent_p1p.Prelude.{
  ◌≡◌, sym, ◌∙◌, subst, ap, arith, String, Bool, true, false, not, ◌&&◌, ◌||◌, List, [], ◌∷◌, all,
  ok, All, is_ok, is_none, Bool-cases, inl, inr, some, ok_or-eq-ok, some_injective, if-true,
  if-false,
}
use agent_p1p.Core.StateMachine.{Effect}
use agent_p1p.Contracts.{
  WorkerRole, planner, builder, reviewer_general, reviewer_secperf, final_reviewer,
}
use agent_p1p.Controller.Scheduling.{
  RolePolicy, WorkflowPolicy, ExecutionKind, hermes, direct, invalid_policy, valid_role_policy,
  execution_valid, reviewers_of, is_reviewer, has_role,
}
use agent_p1p.Controller.Scheduling.Policy.{find_binding}
use agent_p1p.Controller.Scheduling.Tasks.{
  DispatchContext, WorkflowDispatch, Outside, is_builder, is_planner, is_final_reviewer,
}
use agent_p1p.Controller.Scheduling.Dispatch.{hermes_task, direct_task}
use agent_p1p.Controller.Scheduling.Effects.{schedule_effect}
use agent_p1p.Controller.Scheduling.Accepted.{IsBuilt, IsBuilt-IsSound, valid_role_policy_lem}
use agent_p1p.Controller.Scheduling.Made.{IsMade, schedule_effect-IsMade}

abbrev IsValid : RolePolicy → Type 0
IsValid binding = valid_role_policy binding ≡ true

find_binding-IsValid :
    (chosen : RolePolicy → Bool) (roles : List RolePolicy) (binding : RolePolicy)
    → all valid_role_policy roles ≡ true
    → find_binding chosen roles ≡ some binding
    → IsValid binding
find_binding-IsValid chosen [] binding valid h = cc
find_binding-IsValid chosen (first ∷ roles) binding valid h = elim (Bool-cases (chosen first)) [
  | inl this ↦ subst IsValid (some_injective (sym (if-true _ _ this) ∙ h)) (ground arith)
  | inr other ↦
      find_binding-IsValid chosen roles binding (ground arith) (sym (if-false _ _ other) ∙ h)
]

reviewers-IsValid :
    (roles : List RolePolicy)
    → all valid_role_policy roles ≡ true
    → All IsValid (reviewers_of roles)
reviewers-IsValid [] valid = tt
reviewers-IsValid (binding ∷ roles) valid =
    let rest = reviewers-IsValid roles (ground arith) in
    elim (Bool-cases (is_reviewer binding.role)) [
      | inl reviews ↦ rw reviews (ground arith, rest)
      | inr plain ↦ rw plain rest
    ]

-- Cursor is run directly and by nobody else; the builder is Cursor, planner and final reviewer are
-- not.
abbrev pub IsExecutable : {Value : Type 0} → WorkflowDispatch Value → Type 0
IsExecutable task =
    (is_ok (direct_task task) ≡ str_eq task.provider "cursor")
    × (is_ok (hermes_task task) ≡ not (str_eq task.provider "cursor"))
    × ((is_builder task.role && not (str_eq task.provider "cursor")) ≡ false)
    × (((is_planner task.role || is_final_reviewer task.role) && str_eq task.provider "cursor")
        ≡ false)

valid-IsExecutable :
    {Value : Type 0} (task : WorkflowDispatch Value) (role : WorkerRole) (kind : ExecutionKind)
    → task.role ≡ role
    → task.execution ≡ kind
    → execution_valid role kind task.provider ≡ true
    → IsExecutable task
unfolding hermes_task direct_task
valid-IsExecutable task planner hermes e k h =
    rw (e, k) (ground arith, ground arith, ground arith, ground arith)
valid-IsExecutable task builder direct e k h =
    rw (e, k) (ground arith, ground arith, ground arith, ground arith)
valid-IsExecutable task reviewer_general hermes e k h =
    rw (e, k) (ground arith, ground arith, ground arith, ground arith)
valid-IsExecutable task reviewer_general direct e k h =
    rw (e, k) (ground arith, ground arith, ground arith, ground arith)
valid-IsExecutable task reviewer_secperf hermes e k h =
    rw (e, k) (ground arith, ground arith, ground arith, ground arith)
valid-IsExecutable task reviewer_secperf direct e k h =
    rw (e, k) (ground arith, ground arith, ground arith, ground arith)
valid-IsExecutable task final_reviewer hermes e k h =
    rw (e, k) (ground arith, ground arith, ground arith, ground arith)
valid-IsExecutable task planner direct e k h = absurd (ground arith)
valid-IsExecutable task builder hermes e k h = absurd (ground arith)
valid-IsExecutable task final_reviewer direct e k h = absurd (ground arith)

module _ {Value : Type 0} (outside : Outside Value) (source : String)
    (context : DispatchContext Value) (policy : WorkflowPolicy) where
  made-IsExecutable :
      (tasks : List (WorkflowDispatch Value))
      → All (IsMade outside source context policy IsValid) tasks
      → All IsExecutable tasks
  made-IsExecutable [] made = tt
  made-IsExecutable (task ∷ tasks) (made, rest) =
      let (valid, _) = valid_role_policy_lem made.binding made.holds in
      (
        valid-IsExecutable task made.binding.role made.binding.execution (ap (λ t. t.role) made.is)
            (ap (λ t. t.execution) made.is)
            (subst (λ p. execution_valid made.binding.role made.binding.execution p ≡ true)
              (sym (ap (λ t. t.provider) made.is)) valid),
        made-IsExecutable tasks rest,
      )

  -- Of every task that is scheduled under a policy that was built: the direct executor takes it
  -- exactly if its provider is Cursor, and Hermes takes it otherwise. A builder's provider is Cursor;
  -- the provider of a planner and of a final reviewer is not.
  pub schedule_effect-IsExecutable :
      (effect : Effect) (tasks : List (WorkflowDispatch Value))
      → IsBuilt policy
      → schedule_effect outside source context policy effect ≡ ok tasks
      → All IsExecutable tasks
  schedule_effect-IsExecutable effect tasks built h =
      let (_, valid) = IsBuilt-IsSound built in
      made-IsExecutable tasks (
        schedule_effect-IsMade outside source context policy IsValid
          (λ role binding found.
            find_binding-IsValid (λ b. has_role role b && is_none b.reviewer_id) policy.roles
              binding valid (ok_or-eq-ok _ invalid_policy found))
          (reviewers-IsValid policy.roles valid) effect tasks h)
