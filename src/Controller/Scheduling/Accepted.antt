-- ===== src/Controller/Scheduling/Accepted.antt =====
-- crates/pip-controller/src/scheduling.rs: what holds of a policy that was accepted.
use agent_p1p.Prelude.{
  ℕ, ◌≤◌, ◌≡◌, refl, sym, ◌∙◌, subst, ap, arith, String, true, false, ◌&&◌, Option, none, some,
  List, [], ◌∷◌, ==_iff, is_none, all, filter, length, ok, Bool-cases, inl, inr,
}
use agent_p1p.Contracts.{WorkerRole, planner, builder, final_reviewer, same_role_iff}
use agent_p1p.Store.Outbox.{has_repeat}
use agent_p1p.Controller.Scheduling.{
  RolePolicy, WorkflowPolicy, valid_role_policy, valid_roles, is_reviewer, has_role, one_of_role,
  reviewer_ids, distinct, reviewers_of, execution_valid, review_binding_valid, is_some_id,
}
use agent_p1p.Controller.Scheduling.Policy.{
  new_policy, with_isolated_reviews, with_cargo_jobs, with_max_provider_failures,
  with_max_hermes_attempts, with_hermes_scratch_root, with_sensitive_scope_categories, find_binding,
  role_of, reviewers,
}

-- A policy that the constructors and builders made.
pub data IsBuilt : WorkflowPolicy → Type 0 where
  made :
      {policy : WorkflowPolicy} (board workspace prefix : String) (roles : List RolePolicy)
      → new_policy board workspace prefix roles ≡ ok policy
      → IsBuilt policy
  isolated : {policy : WorkflowPolicy} → IsBuilt policy → IsBuilt (with_isolated_reviews policy)
  with_jobs :
      {policy policy' : WorkflowPolicy} (jobs : ℕ)
      → IsBuilt policy
      → with_cargo_jobs policy jobs ≡ ok policy'
      → IsBuilt policy'
  with_failures :
      {policy policy' : WorkflowPolicy} (failures : ℕ)
      → IsBuilt policy
      → with_max_provider_failures policy failures ≡ ok policy'
      → IsBuilt policy'
  with_attempts :
      {policy policy' : WorkflowPolicy} (attempts : ℕ)
      → IsBuilt policy
      → with_max_hermes_attempts policy attempts ≡ ok policy'
      → IsBuilt policy'
  with_scratch :
      {policy policy' : WorkflowPolicy} (root : String)
      → IsBuilt policy
      → with_hermes_scratch_root policy root ≡ ok policy'
      → IsBuilt policy'
  with_categories :
      {policy policy' : WorkflowPolicy} (categories : List String)
      → IsBuilt policy
      → with_sensitive_scope_categories policy categories ≡ ok policy'
      → IsBuilt policy'

abbrev pub IsSound : WorkflowPolicy → Type 0
IsSound policy = (valid_roles policy.roles ≡ true) × (all valid_role_policy policy.roles ≡ true)

pub IsBuilt-IsSound : {policy : WorkflowPolicy} → IsBuilt policy → IsSound policy
unfolding new_policy with_cargo_jobs with_max_provider_failures with_max_hermes_attempts
    with_hermes_scratch_root with_sensitive_scope_categories
IsBuilt-IsSound (made board workspace prefix roles h) = (ground arith, ground arith)
IsBuilt-IsSound (isolated built) = IsBuilt-IsSound built
IsBuilt-IsSound (with_jobs jobs built h) = let s = IsBuilt-IsSound built in ground arith
IsBuilt-IsSound (with_failures failures built h) = let s = IsBuilt-IsSound built in ground arith
IsBuilt-IsSound (with_attempts attempts built h) = let s = IsBuilt-IsSound built in ground arith
IsBuilt-IsSound (with_scratch root built h) = let s = IsBuilt-IsSound built in ground arith
IsBuilt-IsSound (with_categories categories built h) = let s = IsBuilt-IsSound built in ground arith

-- What a binding of a sound policy keeps to.
pub valid_role_policy_lem :
    (binding : RolePolicy)
    → valid_role_policy binding ≡ true
    → (execution_valid binding.role binding.execution binding.provider ≡ true)
      × (review_binding_valid binding ≡ true)
unfolding valid_role_policy
valid_role_policy_lem binding h = ground arith

-- A role that stands once in the policy is found, where it is no reviewer.
found_role :
    (roles : List RolePolicy) (role : WorkerRole)
    → is_reviewer role ≡ false
    → all valid_role_policy roles ≡ true
    → 1 ≤ length (filter (has_role role) roles)
    → (binding : RolePolicy) × (find_binding (λ b. has_role role b && is_none b.reviewer_id) roles
        ≡ some binding)
      × (binding.role ≡ role)
      × (valid_role_policy binding ≡ true)
found_role [] role plain valid some_of = absurd (omega arith)
found_role (first ∷ roles) role plain valid some_of = elim (Bool-cases (has_role role first)) [
  | inl this ↦
      let is : first.role ≡ role = (same_role_iff first.role role).0 this in
      let (_, bound) = valid_role_policy_lem first (ground arith) in
      let unnamed : is_none first.reviewer_id ≡ true =
        let plain' : is_reviewer first.role ≡ false =
          subst (λ r. is_reviewer r ≡ false) (sym is) plain in
        ground arith in
      (first, rw (this, unnamed) refl, is, ground arith)
  | inr other ↦
      let (binding, found, is, good) = found_role roles role plain (ground arith) (ground arith) in
      (binding, rw other found, is, good)
]

valid_roles_lem :
    (roles : List RolePolicy)
    → valid_roles roles ≡ true
    → (one_of_role roles planner ≡ true)
      × (one_of_role roles builder ≡ true)
      × (one_of_role roles final_reviewer ≡ true)
      × (length (distinct (reviewer_ids roles)) ≡ length (reviewers_of roles))
unfolding valid_roles
valid_roles_lem roles h = (ground arith, ground arith, ground arith, (==_iff _ _).0 (ground arith))

-- The worker that a stage without reviewers asks for.
pub role_of-IsSound :
    (policy : WorkflowPolicy) (role : WorkerRole)
    → IsSound policy
    → is_reviewer role ≡ false
    → one_of_role policy.roles role ≡ true
    → (binding : RolePolicy) × (role_of policy role ≡ ok binding)
      × (binding.role ≡ role)
      × (valid_role_policy binding ≡ true)
role_of-IsSound policy role (_, valid) plain one =
    let one' = (==_iff _ _).0 one in
    let (binding, found, is, good) = found_role policy.roles role plain valid (omega arith) in
    (binding, rw found refl, is, good)

pub one-planner :
    (policy : WorkflowPolicy) → IsSound policy → one_of_role policy.roles planner ≡ true
one-planner policy (roles, _) = (valid_roles_lem policy.roles roles).0

pub one-builder :
    (policy : WorkflowPolicy) → IsSound policy → one_of_role policy.roles builder ≡ true
one-builder policy (roles, _) = (valid_roles_lem policy.roles roles).1

pub one-final_reviewer :
    (policy : WorkflowPolicy) → IsSound policy → one_of_role policy.roles final_reviewer ≡ true
one-final_reviewer policy (roles, _) = (valid_roles_lem policy.roles roles).2

-- Exactly the reviewers have an id.
reviewer_is_named :
    (binding : RolePolicy)
    → valid_role_policy binding ≡ true
    → is_reviewer binding.role ≡ true
    → (id : String) × (binding.reviewer_id ≡ some id)
reviewer_is_named binding valid reviews =
    let (_, bound) = valid_role_policy_lem binding valid in named binding.reviewer_id (ground arith)
  where
    named : (o : Option String) → is_some_id o ≡ true → (id : String) × (o ≡ some id)
    named none h = cc
    named (some id) h = (id, refl)

reviewer_ids-reviewers_of :
    (roles : List RolePolicy)
    → all valid_role_policy roles ≡ true
    → (reviewer_ids (reviewers_of roles) ≡ reviewer_ids roles)
      × (length (reviewer_ids roles) ≡ length (reviewers_of roles))
reviewer_ids-reviewers_of [] valid = (refl, refl)
reviewer_ids-reviewers_of (binding ∷ roles) valid =
    let (same, count_is) = reviewer_ids-reviewers_of roles (ground arith) in
    elim (Bool-cases (is_reviewer binding.role)) [
      | inl reviews ↦
          let (id, named) = reviewer_is_named binding (ground arith) reviews in
          (rw (reviews, named, same) refl, rw (reviews, named, count_is) refl)
      | inr plain ↦
          let (_, bound) = valid_role_policy_lem binding (ground arith) in
          let unnamed : binding.reviewer_id ≡ none = ground arith in
          (rw (plain, unnamed, same) refl, rw (plain, unnamed, count_is) refl)
    ]

length-distinct : (xs : List String) → length (distinct xs) ≤ length xs
length-distinct [] = omega arith
length-distinct (x ∷ xs) = ground (arith, length-distinct xs)

distinct-has_repeat : (xs : List String) → length (distinct xs) ≡ length xs → has_repeat xs ≡ false
distinct-has_repeat [] h = refl
distinct-has_repeat (x ∷ xs) h = ground (arith, length-distinct xs, distinct-has_repeat xs)

-- The reviewers of a sound policy have an id each, all different.
pub reviewers-IsSound :
    (policy : WorkflowPolicy)
    → IsSound policy
    → (has_repeat (reviewer_ids (reviewers policy)) ≡ false)
      × (length (reviewer_ids (reviewers policy)) ≡ length (reviewers policy))
reviewers-IsSound policy (roles, valid) =
    let (_, _, _, lengths) = valid_roles_lem policy.roles roles in
    let (same, count_is) = reviewer_ids-reviewers_of policy.roles valid in
    (
      subst (λ ids. has_repeat ids ≡ false) (sym same)
          (distinct-has_repeat (reviewer_ids policy.roles) (lengths ∙ sym count_is)),
      ap length same ∙ count_is,
    )
