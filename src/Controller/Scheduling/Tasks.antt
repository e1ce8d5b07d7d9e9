-- ===== src/Controller/Scheduling/Tasks.antt =====
-- crates/pip-controller/src/scheduling.rs: what a dispatch is made of and made from, and the names in
-- it. A body is the list of the fields that are inserted; SHA-256, the paths of the standard library
-- and the index of the evidence are parameters.
use Prim.Native.Char.{code}
use agent_p1p.Prelude.{
  ℕ, ◌+◌, ◌%◌, ◌^◌, String, Bool, true, false, Option, none, some, List, [], ◌∷◌, zero, suc, ltb,
  ◌==◌, if◌then◌else◌,
}
use agent_p1p.Prelude.Text.{concat}
use agent_p1p.Core.Domain.{CaseId, case_key, decimal, u32_max}
use agent_p1p.Core.ExactHead.{GitSha}
use agent_p1p.Contracts.{
  WorkerRole, planner, builder, final_reviewer, ReviewMode, required, advisory, shadow,
}
use agent_p1p.Controller.Scheduling.{
  ExecutionKind, hermes, direct, RolePolicy, WorkflowPolicy, role_name,
}

pub record DispatchContext (Value : Type 0) : Type 0 where
  pub case_id : CaseId
  pub state_revision : ℕ
  pub plan_version : Option ℕ
  pub remediation_round : ℕ
  pub pr_number : Option ℕ
  pub head_sha : Option GitSha
  pub skills_repository_commit : GitSha
  pub immutable_evidence_bundle : Value

pub record ReviewSnapshot : Type 0 where
  pub source : String
  pub root : String
  pub head_sha : GitSha
  pub projection_key : String

pub record StoragePlan : Type 0 where
  pub root : String
  pub source : String
  pub cargo_target : String
  pub cargo_home : String
  pub temporary : String
  pub results : String

-- What is inserted into a body.
pub data BodyValue (Value : Type 0) : Type 0 where
  number : ℕ → BodyValue Value
  string_value : String → BodyValue Value
  texts : List String → BodyValue Value
  sha : GitSha → BodyValue Value
  object : Value → BodyValue Value
  snapshot : ReviewSnapshot → BodyValue Value
  evidence_ref : String → String → BodyValue Value  -- path and sha256
  storage : StoragePlan → BodyValue Value

abbrev pub Body : Type 0 → Type 0
Body Value = List (String × BodyValue Value)

pub record WorkflowDispatch (Value : Type 0) : Type 0 where
  pub role : WorkerRole
  pub worker_projection_key : String
  pub worker_body : Body Value
  pub worker_effect_id : String
  pub worker_title : String
  pub source_effect_id : String
  pub profile : String
  pub workspace : String
  pub direct_workspace : String
  pub execution : ExecutionKind
  pub skills : List String
  pub provider : String
  pub model : String
  pub max_runtime : String
  pub max_retries : ℕ
  pub priority : ℕ
  pub board : String

-- The code outside: a digest in hexadecimal, and `parent`, `file_name` and `join` of `std::path`.
pub record Outside (Value : Type 0) : Type 0 where
  pub is_object : Value → Bool
  pub evidence_focus : DispatchContext Value → RolePolicy → Value
  pub text_sha256 : String → String
  pub value_sha256 : Value → String
  pub parent : String → String
  pub file_name : String → String
  pub join : String → String → String

-- `trim_end_matches('/')`
abbrev pub trim_end_slashes : String → String
trim_end_slashes String.[] = ""
trim_end_slashes (String.◌∷◌ c s) = elim (trim_end_slashes s) [
  | String.[] ↦ if code c == b'/' then "" else String.◌∷◌ c ""
  | String.◌∷◌ d t ↦ String.◌∷◌ c (String.◌∷◌ d t)
]

-- `[..n]`, of a text in ASCII
abbrev pub first_chars : ℕ → String → String
first_chars zero s = ""
first_chars (suc n) String.[] = ""
first_chars (suc n) (String.◌∷◌ c s) = String.◌∷◌ c (first_chars n s)

-- `map_or(1, |version| version.get() + 1)`, which wraps in a release build.
abbrev pub next_plan_version : Option ℕ → ℕ
next_plan_version none = 1
next_plan_version (some version) = (version + 1) % 2 ^ 32

-- `saturating_add(1)` on `u32`
abbrev pub review_round : ℕ → ℕ
review_round round = if ltb round u32_max then round + 1 else u32_max

abbrev pub is_planner : WorkerRole → Bool
is_planner planner = true
is_planner _ = false

abbrev pub is_builder : WorkerRole → Bool
is_builder builder = true
is_builder _ = false

abbrev pub is_final_reviewer : WorkerRole → Bool
is_final_reviewer final_reviewer = true
is_final_reviewer _ = false

abbrev pub mode_name : ReviewMode → String
mode_name required = "required"
mode_name advisory = "advisory"
mode_name shadow = "shadow"

abbrev pub execution_name : ExecutionKind → String
execution_name hermes = "hermes"
execution_name direct = "direct"

abbrev pub or_text : Option String → String → String
or_text none default = default
or_text (some value) default = value

abbrev pub or_number : Option ℕ → ℕ → ℕ
or_number none default = default
or_number (some value) default = value

-- A field that is inserted under a test.
abbrev pub field_if : {Value : Type 0} → Bool → String → BodyValue Value → Body Value
field_if test key value = if test then (key, value) ∷ [] else []

abbrev pub worker_name : RolePolicy → String
worker_name binding = or_text binding.reviewer_id (role_name binding.role)

unfoldable pub case_workspace : WorkflowPolicy → CaseId → String
case_workspace policy case_id = concat (
    trim_end_slashes policy.workspace
    ∷ "/repo-"
    ∷ decimal case_id.repository
    ∷ "-issue-"
    ∷ decimal case_id.issue
    ∷ "-workflow-"
    ∷ decimal case_id.workflow
    ∷ [])

unfoldable pub assigned_branch : WorkflowPolicy → CaseId → String
assigned_branch policy case_id = concat (
    policy.branch_prefix
    ∷ "repo-"
    ∷ decimal case_id.repository
    ∷ "/issue-"
    ∷ decimal case_id.issue
    ∷ "/workflow-"
    ∷ decimal case_id.workflow
    ∷ [])

module _ {Value : Type 0} where
  abbrev pub worker_round : DispatchContext Value → WorkerRole → ℕ
  worker_round context planner = next_plan_version context.plan_version
  worker_round context _ = review_round context.remediation_round

  unfoldable pub projection_key : DispatchContext Value → RolePolicy → String
  projection_key context binding = concat (
      case_key context.case_id
      ∷ ":"
      ∷ worker_name binding
      ∷ ":round:"
      ∷ decimal (worker_round context binding.role)
      ∷ ":revision:"
      ∷ decimal context.state_revision
      ∷ ":worker"
      ∷ [])
