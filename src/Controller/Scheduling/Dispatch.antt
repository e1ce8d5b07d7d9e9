-- ===== src/Controller/Scheduling/Dispatch.antt =====
-- crates/pip-controller/src/scheduling.rs: `dispatch`, which makes the task of one worker, and the
-- task that each executor takes of it.
use agent_p1p.Prelude.{
  ℕ, String, Bool, true, not, ◌&&◌, Option, none, some, List, [], ◌∷◌, ◌++◌, ltb, if◌then◌else◌,
  is_empty, length, ok, err, ◌>>=◌, ◌>>◌, fail_if, ok_or,
}
use agent_p1p.Prelude.Text.{bytes, concat}
use agent_p1p.Core.Domain.{case_key}
use agent_p1p.Contracts.{WorkerRole}
use agent_p1p.Controller.Scheduling.{
  ExecutionKind, hermes, direct, is_direct, RolePolicy, WorkflowPolicy, Dispatched, invalid_policy,
  invalid_evidence_bundle, wrong_executor, is_reviewer, role_name,
}
use agent_p1p.Controller.Scheduling.Tasks.{
  DispatchContext, ReviewSnapshot, StoragePlan, BodyValue, number, string_value, texts, sha, object,
  snapshot, evidence_ref, storage, Body, WorkflowDispatch, Outside, first_chars, next_plan_version,
  review_round, is_planner, is_builder, is_final_reviewer, mode_name, execution_name, or_number,
  field_if, worker_round, worker_name, projection_key, case_workspace, assigned_branch,
}

pub record DirectTaskSpec (Value : Type 0) : Type 0 where
  pub schema_version : ℕ
  pub source_effect_id : String
  pub task_id : String
  pub title : String
  pub body : Body Value
  pub role : WorkerRole
  pub profile : String
  pub workspace : String
  pub skills : List String
  pub provider : String
  pub model : String
  pub max_runtime : String
  pub priority : ℕ

-- `TaskCreateSpec` of crates/pip-hermes/src/projection.rs
pub record TaskCreateSpec (Value : Type 0) : Type 0 where
  pub board : String
  pub effect_id : String
  pub projection_key : String
  pub title : String
  pub body : Body Value
  pub assignee : String
  pub workspace : String
  pub skills : List String
  pub provider : String
  pub model : String
  pub max_runtime : String
  pub max_retries : ℕ
  pub priority : ℕ
  pub parent_task_ids : List String

module _ {Value : Type 0} where
  unfoldable pub hermes_task : WorkflowDispatch Value → Dispatched (TaskCreateSpec Value)
  hermes_task task =
      if is_direct task.execution
      then err wrong_executor
      else ok (record {
        board = task.board;
        effect_id = task.worker_effect_id;
        projection_key = task.worker_projection_key;
        title = task.worker_title;
        body = task.worker_body;
        assignee = task.profile;
        workspace = concat ("dir:" ∷ task.workspace ∷ []);
        skills = task.skills;
        provider = task.provider;
        model = task.model;
        max_runtime = task.max_runtime;
        max_retries = task.max_retries;
        priority = task.priority;
        parent_task_ids = [];
      })

  unfoldable pub direct_task : WorkflowDispatch Value → Dispatched (DirectTaskSpec Value)
  direct_task task =
      if not (is_direct task.execution)
      then err wrong_executor
      else ok (record {
        schema_version = 1;
        source_effect_id = task.source_effect_id;
        task_id = task.worker_projection_key;
        title = task.worker_title;
        body = task.worker_body;
        role = task.role;
        profile = task.profile;
        workspace = task.direct_workspace;
        skills = task.skills;
        provider = task.provider;
        model = task.model;
        max_runtime = task.max_runtime;
        priority = task.priority;
      })

  -- The plan version that the result is to have.
  abbrev pub result_plan_version : DispatchContext Value → RolePolicy → ℕ
  result_plan_version context binding =
      if is_planner binding.role
      then next_plan_version context.plan_version
      else or_number context.plan_version 0

  abbrev pub option_field {ℓ} :
      {A : Type ℓ} → String → (A → BodyValue Value) → Option A → Body Value
  option_field key value none = []
  option_field key value (some a) = (key, value a) ∷ []

  abbrev pub binding_fields : DispatchContext Value → RolePolicy → Body Value
  binding_fields context binding =
      ("case_key", string_value (case_key context.case_id))
        ∷ ("repository_id", number context.case_id.repository)
        ∷ ("issue_number", number context.case_id.issue)
        ∷ ("workflow_version", number context.case_id.workflow)
        ∷ ("state_revision", number context.state_revision)
        ∷ ("role", string_value (role_name binding.role))
        ∷ ("remediation_round", number context.remediation_round)
        ∷ field_if (ltb 0 (result_plan_version context binding)) "plan_version"
            (number (result_plan_version context binding))
      ++ option_field "pr_number" number context.pr_number
      ++ option_field "expected_head_sha" sha context.head_sha

  abbrev pub review_fields : DispatchContext Value → RolePolicy → Dispatched (Body Value)
  review_fields context binding =
      if is_reviewer binding.role
      then (ok_or binding.review_mode invalid_policy >>= λ mode. ok (
          ("review_round", number (review_round context.remediation_round))
          ∷ ("reviewer_id", string_value (worker_name binding))
          ∷ ("review_mode", string_value (mode_name mode))
          ∷ []))
      else ok []

  abbrev pub stage_fields : DispatchContext Value → RolePolicy → WorkflowPolicy → Body Value
  stage_fields context binding policy =
      field_if (is_final_reviewer binding.role) "final_review_round"
        (number (review_round context.remediation_round))
      ++ field_if (is_planner binding.role && not (is_empty policy.sensitive_scope_categories))
          "sensitive_scope_categories" (texts policy.sensitive_scope_categories)
      ++ field_if (is_builder binding.role) "build_round"
          (number (worker_round context binding.role))
      ++ field_if (is_builder binding.role) "assigned_branch"
          (string_value (assigned_branch policy context.case_id))
      ++ field_if (is_builder binding.role) "assigned_worktree"
          (string_value (case_workspace policy context.case_id))

  abbrev pub task_of :
      String
      → String
      → RolePolicy
      → DispatchContext Value
      → WorkflowPolicy
      → String
      → Body Value
      → WorkflowDispatch Value
  task_of effect_id source_effect_id binding context policy workspace body = record {
    role = binding.role;
    worker_projection_key = projection_key context binding;
    worker_body = body;
    worker_effect_id = concat (effect_id ∷ ":worker" ∷ []);
    worker_title = concat ("Run " ∷ worker_name binding ∷ " for " ∷ case_key context.case_id ∷ []);
    source_effect_id = source_effect_id;
    profile = binding.profile;
    workspace = workspace;
    direct_workspace = workspace;
    execution = binding.execution;
    skills = binding.skills;
    provider = binding.provider;
    model = binding.model;
    max_runtime = binding.max_runtime;
    max_retries = or_number policy.max_hermes_attempts policy.max_provider_failures;
    priority = binding.priority;
    board = policy.board;
  }

  module _ (outside : Outside Value) where
    -- `review_snapshot`, in a workspace that has a parent and a name.
    abbrev pub review_snapshot : String → String → List ℕ → ReviewSnapshot
    review_snapshot source key head = record {
      source = source;
      root =
          outside.join
            (outside.join (outside.join (outside.parent source) ".reviews")
              (outside.file_name source))
            (outside.text_sha256 key);
      head_sha = head;
      projection_key = key;
    }

    abbrev pub is_isolated : WorkflowPolicy → WorkerRole → Bool
    is_isolated policy role =
        policy.isolated_reviews && (if is_reviewer role then true else is_final_reviewer role)

    abbrev pub take_snapshot :
        DispatchContext Value → RolePolicy → WorkflowPolicy → Dispatched (Option ReviewSnapshot)
    take_snapshot context binding policy =
        if is_isolated policy binding.role
        then (ok_or context.head_sha invalid_policy >>= λ head. ok (
            some (
              review_snapshot (case_workspace policy context.case_id)
                (projection_key context binding) head)))
        else ok none

    abbrev pub worker_workspace :
        WorkflowPolicy → DispatchContext Value → Option ReviewSnapshot → String
    worker_workspace policy context none = case_workspace policy context.case_id
    worker_workspace policy context (some taken) = concat (taken.root ∷ "/source" ∷ [])

    abbrev pub common_fields :
        DispatchContext Value → RolePolicy → WorkflowPolicy → Option ReviewSnapshot → Body Value
    common_fields context binding policy taken =
        ("execution", string_value (execution_name binding.execution))
          ∷ ("provider", string_value binding.provider)
          ∷ ("model", string_value binding.model)
          ∷ ("requested_model", string_value (concat (binding.provider ∷ "/" ∷ binding.model ∷ [])))
          ∷ ("skills_repository_commit", sha context.skills_repository_commit)
          ∷ ("immutable_evidence_bundle", object context.immutable_evidence_bundle)
          ∷ ("evidence_focus", object (outside.evidence_focus context binding))
          ∷ option_field "cargo_jobs" number policy.cargo_jobs
        ++ option_field "review_snapshot" snapshot taken

    abbrev pub scratch_root : String → String → String
    scratch_root root key = concat (root ∷ "/" ∷ first_chars 16 (outside.text_sha256 key) ∷ [])

    abbrev pub storage_plan : String → String → StoragePlan
    storage_plan root source = record {
      root = root;
      source = source;
      cargo_target = concat (root ∷ "/disposable/target" ∷ []);
      cargo_home = concat (root ∷ "/disposable/cargo-home" ∷ []);
      temporary = concat (root ∷ "/t" ∷ []);
      results = concat (root ∷ "/results" ∷ []);
    }

    abbrev pub storage_at :
        DispatchContext Value → String → String → String → Dispatched (Body Value)
    storage_at context key workspace root = do
      fail_if (ltb 56 (length (bytes (concat (root ∷ "/t" ∷ []))))) invalid_policy
      ok (
          ("projection_key", string_value key)
          ∷ (
            "immutable_evidence_ref",
            evidence_ref (concat (root ∷ "/immutable-evidence.json" ∷ []))
                (outside.value_sha256 context.immutable_evidence_bundle),
          )
          ∷ ("storage", storage (storage_plan root workspace))
          ∷ [])

    -- Hermes workers get storage of their own, where the policy has a root for it.
    abbrev pub storage_fields :
        DispatchContext Value
        → ExecutionKind
        → Option String
        → String
        → String
        → Dispatched (Body Value)
    storage_fields context direct root key workspace = ok []
    storage_fields context hermes none key workspace = ok []
    storage_fields context hermes (some root) key workspace =
        storage_at context key workspace (scratch_root root key)

    unfoldable pub dispatch :
        String
        → String
        → RolePolicy
        → DispatchContext Value
        → WorkflowPolicy
        → Dispatched (WorkflowDispatch Value)
    dispatch effect_id source_effect_id binding context policy = do
      fail_if (not (outside.is_object context.immutable_evidence_bundle)) invalid_evidence_bundle
      taken ← take_snapshot context binding policy
      reviewed ← review_fields context binding
      stored ←
          storage_fields context binding.execution policy.hermes_scratch_root
            (projection_key context binding) (worker_workspace policy context taken)
      ok (
          task_of effect_id source_effect_id binding context policy
            (worker_workspace policy context taken)
            (binding_fields context binding
              ++ (reviewed
                  ++ stage_fields context binding policy
                  ++ common_fields context binding policy taken
                  ++ stored)))
