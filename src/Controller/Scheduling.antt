-- ===== src/Controller/Scheduling.antt =====
-- crates/pip-controller/src/scheduling.rs: `RolePolicy`, `WorkflowPolicy::new` and the other ways to
-- build a policy, with the checks of their texts.
pub mod Policy
pub mod Tasks
pub mod Dispatch
pub mod Effects
pub mod Accepted
pub mod Fanout
pub mod Total
pub mod Made
pub mod Executors
pub mod Claims
mod Tests
use text.Mathlib.Text.{◌==◌ as str_eq}
use Prim.Native.String
use Prim.Native.Char.{code}
use agent_p1p.Prelude.{
  ℕ, ◌+◌, String, Bool, true, false, not, ◌&&◌, ◌||◌, Option, none, some, List, [], ◌∷◌, leb, ltb,
  ◌==◌, if◌then◌else◌, is_some, is_none, is_empty, any, all, filter, length, list_eq, Result, ok,
  err, ◌>>=◌, ◌>>◌, fail_if, ok_or,
}
use agent_p1p.Prelude.Text.{bytes, code_points, not_blank, is_whitespace}
use agent_p1p.Core.Domain.{valid_slug, split}
use agent_p1p.Contracts.{
  WorkerRole, planner, builder, reviewer_general, reviewer_secperf, final_reviewer, same_role,
  ReviewMode, required, advisory, shadow,
}

pub data ExecutionKind : Type 0 where
  hermes direct : ExecutionKind

abbrev pub is_direct : ExecutionKind → Bool
is_direct hermes = false
is_direct direct = true

pub record RolePolicy : Type 0 where
  pub role : WorkerRole
  pub reviewer_id : Option String
  pub review_mode : Option ReviewMode
  pub profile : String
  pub execution : ExecutionKind
  pub provider : String
  pub model : String
  pub max_runtime : String
  pub priority : ℕ
  pub skills : List String

pub record WorkflowPolicy : Type 0 where
  pub board : String
  pub workspace : String
  pub branch_prefix : String
  pub sensitive_scope_categories : List String
  pub max_provider_failures : ℕ
  pub max_hermes_attempts : Option ℕ
  pub hermes_scratch_root : Option String
  pub isolated_reviews : Bool
  pub cargo_jobs : Option ℕ
  pub roles : List RolePolicy

pub data DispatchError : Type 0 where
  invalid_policy invalid_effect_id missing_plan missing_pull_request missing_exact_head
        wrong_executor invalid_stored_case invalid_evidence_bundle :
      DispatchError
  evidence_bundle_too_large : ℕ → ℕ → DispatchError  -- bytes, limit
  stale_effect unsupported_effect : DispatchError

abbrev pub Dispatched : Type 0 → Type 0
Dispatched A = Result A DispatchError

-- `char::is_control`: the code points with the general category Cc.
abbrev pub is_control : ℕ → Bool
is_control c = leb c 31 || (leb 127 c && leb c 159)

-- `valid_id` asks of the bytes what `valid_slug` of crates/pip-core/src/domain.rs asks.
abbrev pub valid_id : String → Bool
valid_id value = valid_slug (bytes value)

unfoldable pub valid_opaque : String → ℕ → Bool
valid_opaque value max_len =
    not (is_empty (bytes value))
    && leb (length (bytes value)) max_len
    && all (λ c. not (is_control c) && not (is_whitespace c)) (code_points value)

unfoldable pub valid_text : String → ℕ → Bool
valid_text value max_len =
    not_blank value
    && leb (length (bytes value)) max_len
    && all (λ c. not (is_control c)) (code_points value)

-- `trim_end_matches('/')`
abbrev pub trim_slashes : List ℕ → List ℕ
trim_slashes [] = []
trim_slashes (b ∷ bs) = elim (trim_slashes bs) [
  | [] ↦ if b == b'/' then [] else b ∷ []
  | c ∷ cs ↦ b ∷ c ∷ cs
]

-- `ends_with('/')`
abbrev pub ends_with_slash : List ℕ → Bool
ends_with_slash [] = false
ends_with_slash (b ∷ []) = b == b'/'
ends_with_slash (b ∷ c ∷ cs) = ends_with_slash (c ∷ cs)

abbrev pub starts_with_slash : List ℕ → Bool
starts_with_slash [] = false
starts_with_slash (b ∷ bs) = b == b'/'

unfoldable pub valid_branch_prefix : String → Bool
valid_branch_prefix value =
    ends_with_slash (bytes value)
    && leb (length (bytes value)) 128
    && all valid_slug (split b'/' (trim_slashes (bytes value)))

abbrev pub is_reviewer : WorkerRole → Bool
is_reviewer reviewer_general = true
is_reviewer reviewer_secperf = true
is_reviewer _ = false

abbrev pub role_name : WorkerRole → String
role_name planner = "planner"
role_name builder = "builder"
role_name reviewer_general = "reviewer-general"
role_name reviewer_secperf = "reviewer-secperf"
role_name final_reviewer = "final-reviewer"

-- `role_skill_name` has the same texts.
abbrev pub role_skill_name : WorkerRole → String
role_skill_name planner = "planner"
role_skill_name builder = "builder"
role_skill_name reviewer_general = "reviewer-general"
role_skill_name reviewer_secperf = "reviewer-secperf"
role_skill_name final_reviewer = "final-reviewer"

abbrev pub is_required : Option ReviewMode → Bool
is_required (some required) = true
is_required _ = false

-- The builder is Cursor, run directly; planner and final reviewer are not Cursor, and run by Hermes;
-- a reviewer is Cursor exactly where it runs directly.
abbrev pub execution_valid : WorkerRole → ExecutionKind → String → Bool
execution_valid builder execution provider = is_direct execution && str_eq provider "cursor"
execution_valid planner execution provider =
    not (is_direct execution) && not (str_eq provider "cursor")
execution_valid final_reviewer execution provider =
    not (is_direct execution) && not (str_eq provider "cursor")
execution_valid reviewer_general direct provider = str_eq provider "cursor"
execution_valid reviewer_general hermes provider = not (str_eq provider "cursor")
execution_valid reviewer_secperf direct provider = str_eq provider "cursor"
execution_valid reviewer_secperf hermes provider = not (str_eq provider "cursor")

-- `Option::is_some_and(valid_id)`
abbrev pub is_some_id : Option String → Bool
is_some_id none = false
is_some_id (some id) = valid_id id

abbrev pub review_binding_valid : RolePolicy → Bool
review_binding_valid role =
    if is_reviewer role.role
    then is_some_id role.reviewer_id
      && is_some role.review_mode
      && (is_required role.review_mode || is_direct role.execution)
    else is_none role.reviewer_id && is_none role.review_mode

-- `to_ascii_lowercase`, of a code point
abbrev pub lower : ℕ → ℕ
lower c = if leb b'A' c && leb c b'Z' then c + 32 else c

abbrev pub lower_is : String → String → Bool
lower_is value name = list_eq ◌==◌ (lowered (code_points value)) (code_points name)
  where
    lowered : List ℕ → List ℕ
    lowered [] = []
    lowered (c ∷ cs) = lower c ∷ lowered cs

unfoldable pub valid_role_policy : RolePolicy → Bool
valid_role_policy role =
    execution_valid role.role role.execution role.provider
    && review_binding_valid role
    && valid_id role.profile
    && valid_id role.provider
    && valid_id role.model
    && not (
        lower_is role.model "auto" || lower_is role.model "default" || lower_is role.model "latest")
    && valid_id role.max_runtime
    && length role.skills == 2
    && all valid_id role.skills
    && any (λ skill. str_eq skill "workflow-contract") role.skills
    && any
        (λ skill.
          str_eq skill (role_skill_name role.role)
          || (same_role role.role builder && str_eq skill "builder-grok"))
        role.skills

-- `filter_map(|role| role.reviewer_id.as_deref())`
abbrev pub reviewer_ids : List RolePolicy → List String
reviewer_ids [] = []
reviewer_ids (role ∷ roles) = elim role.reviewer_id [
  | none ↦ reviewer_ids roles
  | some id ↦ id ∷ reviewer_ids roles
]

-- The elements of the `BTreeSet`.
abbrev pub distinct : List String → List String
distinct [] = []
distinct (x ∷ xs) = if any (str_eq x) xs then distinct xs else x ∷ distinct xs

abbrev pub has_role : WorkerRole → RolePolicy → Bool
has_role role binding = same_role binding.role role

abbrev pub one_of_role : List RolePolicy → WorkerRole → Bool
one_of_role roles role = length (filter (has_role role) roles) == 1

abbrev pub required_lane : List RolePolicy → WorkerRole → Bool
required_lane roles role =
    any (λ binding. has_role role binding && is_required binding.review_mode) roles

abbrev pub reviewers_of : List RolePolicy → List RolePolicy
reviewers_of = filter (λ binding. is_reviewer binding.role)

unfoldable pub valid_roles : List RolePolicy → Bool
valid_roles roles =
    all (one_of_role roles) (planner ∷ builder ∷ final_reviewer ∷ [])
    && leb 2 (length (reviewers_of roles))
    && length (distinct (reviewer_ids roles)) == length (reviewers_of roles)
    && all (required_lane roles) (reviewer_general ∷ reviewer_secperf ∷ [])
