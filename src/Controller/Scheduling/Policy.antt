-- ===== src/Controller/Scheduling/Policy.antt =====
-- crates/pip-controller/src/scheduling.rs: `WorkflowPolicy` and its builders.
use text.Mathlib.Text.{◌==◌ as str_eq}
use agent_p1p.Prelude.{
  ℕ, String, Bool, true, false, not, ◌&&◌, ◌||◌, Option, none, some, List, [], ◌∷◌, leb, ◌==◌,
  if◌then◌else◌, is_none, is_empty, any, filter, length, list_eq, ok, ◌>>◌, fail_if, ok_or, all,
}
use agent_p1p.Prelude.Text.{bytes}
use agent_p1p.Core.Domain.{split}
use agent_p1p.Contracts.{WorkerRole}
use agent_p1p.Controller.Scheduling.{
  RolePolicy, WorkflowPolicy, Dispatched, invalid_policy, valid_id, valid_text, valid_branch_prefix,
  valid_role_policy, valid_roles, distinct, has_role, is_required, reviewers_of, starts_with_slash,
  ends_with_slash,
}

-- `WorkflowPolicy::new`
unfoldable pub new_policy : String → String → String → List RolePolicy → Dispatched WorkflowPolicy
new_policy board workspace branch_prefix roles = do
  fail_if
      (not (valid_id board)
        || not (starts_with_slash (bytes workspace))
        || not (valid_text workspace 4096)
        || not (valid_branch_prefix branch_prefix)
        || not (valid_roles roles)
        || not (all valid_role_policy roles))
      invalid_policy
  ok (record {
    board = board;
    workspace = workspace;
    branch_prefix = branch_prefix;
    sensitive_scope_categories = [];
    max_provider_failures = 1;
    max_hermes_attempts = none;
    hermes_scratch_root = none;
    isolated_reviews = false;
    cargo_jobs = none;
    roles = roles;
  })

abbrev pub with_isolated_reviews : WorkflowPolicy → WorkflowPolicy
with_isolated_reviews policy = record policy { isolated_reviews = true }

unfoldable pub with_cargo_jobs : WorkflowPolicy → ℕ → Dispatched WorkflowPolicy
with_cargo_jobs policy jobs = do
  fail_if (not (leb 1 jobs && leb jobs 8)) invalid_policy
  ok (record policy { cargo_jobs = some jobs })

unfoldable pub with_max_provider_failures : WorkflowPolicy → ℕ → Dispatched WorkflowPolicy
with_max_provider_failures policy failures = do
  fail_if (failures == 0) invalid_policy
  ok (record policy { max_provider_failures = failures })

unfoldable pub with_max_hermes_attempts : WorkflowPolicy → ℕ → Dispatched WorkflowPolicy
with_max_hermes_attempts policy attempts = do
  fail_if (attempts == 0) invalid_policy
  ok (record policy { max_hermes_attempts = some attempts })

-- `Path::components` of an absolute path, less its root: the parts that are neither empty nor `.`.
abbrev pub components : List ℕ → List (List ℕ)
components path =
    filter (λ part. not (is_empty part) && not (list_eq ◌==◌ part (b'.' ∷ []))) (split b'/' path)

abbrev pub is_prefix : List (List ℕ) → List (List ℕ) → Bool
is_prefix [] ys = true
is_prefix (x ∷ xs) [] = false
is_prefix (x ∷ xs) (y ∷ ys) = list_eq ◌==◌ x y && is_prefix xs ys

-- `Component::ParentDir`; a leading `.` stands in no absolute path.
abbrev pub is_parent : List ℕ → Bool
is_parent part = list_eq ◌==◌ part (b'.' ∷ b'.' ∷ [])

unfoldable pub with_hermes_scratch_root : WorkflowPolicy → String → Dispatched WorkflowPolicy
with_hermes_scratch_root policy root = do
  fail_if
      (not (starts_with_slash (bytes root))
        || ends_with_slash (bytes root)
        || not (valid_text root 4096)
        || any is_parent (components (bytes root))
        || is_prefix (components (bytes policy.workspace)) (components (bytes root))
        || is_prefix (components (bytes root)) (components (bytes policy.workspace)))
      invalid_policy
  ok (record policy { hermes_scratch_root = some root })

unfoldable pub with_sensitive_scope_categories :
    WorkflowPolicy → List String → Dispatched WorkflowPolicy
with_sensitive_scope_categories policy categories = do
  fail_if
      (is_empty categories
        || not (length (distinct categories) == length categories)
        || any (λ category. not (valid_text category 128)) categories)
      invalid_policy
  ok (record policy { sensitive_scope_categories = categories })

-- `iter().find(..)`
abbrev pub find_binding : (RolePolicy → Bool) → List RolePolicy → Option RolePolicy
find_binding chosen [] = none
find_binding chosen (role ∷ roles) = if chosen role then some role else find_binding chosen roles

-- `WorkflowPolicy::role`
abbrev pub role_of : WorkflowPolicy → WorkerRole → Dispatched RolePolicy
role_of policy role =
    ok_or
      (find_binding (λ binding. has_role role binding && is_none binding.reviewer_id) policy.roles)
      invalid_policy

abbrev pub reviewers : WorkflowPolicy → List RolePolicy
reviewers policy = reviewers_of policy.roles

abbrev pub required_reviewers : WorkflowPolicy → List RolePolicy
required_reviewers policy = filter (λ binding. is_required binding.review_mode) (reviewers policy)

abbrev pub is_named : String → Option String → Bool
is_named id none = false
is_named id (some name) = str_eq name id

-- `WorkflowPolicy::reviewer`
abbrev pub reviewer : WorkflowPolicy → String → Dispatched RolePolicy
reviewer policy id =
    ok_or (find_binding (λ binding. is_named id binding.reviewer_id) (reviewers policy))
      invalid_policy
