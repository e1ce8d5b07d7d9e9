-- ===== src/Controller/Ledger.antt =====
-- crates/pip-controller/src/ledger.rs: workflow commands made into transitions of the ledger.
-- Of `serde_json` and of the store's rows for runs, evidence and findings nothing is read here but
-- what `Json` offers: they are parameters. A SHA is its bytes, as in crates/pip-core.
pub mod Transition
pub mod Batch
mod Tests
use Prim.Native.String
use text.Mathlib.Text.{◌==◌ as str_eq}
use agent_p1p.Prelude.{
  ℕ, ◌+◌, String, Bool, true, false, not, ◌&&◌, ◌||◌, Option, none, some, List, [], ◌∷◌, ◌++◌, leb,
  ◌==◌, if◌then◌else◌, is_some, is_none, option_eq, same_bool, Result, ok, err, ◌>>=◌, ◌>>◌,
  fail_if, ok_or, map_err,
}
use agent_p1p.Core.Domain.{CaseId, case_key, decimal, u32_max, checked_add_u32, checked_add_u64}
use agent_p1p.Core.StateMachine.{
  CaseState, remediating, Event, proceed, review_ready, human_resumed, Effect, dispatch_planner,
  publish_plan, dispatch_builder, publish_draft_pull_request, observe_ci, dispatch_reviewers,
  publish_reviews, observe_final_preflight, dispatch_final_reviewer, hold_for_human,
  notify_shadow_ready, begin_merge, execute_merge, record_completion, record_abandonment,
  record_block, record_takeover, escalate,
}
use agent_p1p.Core.StateMachine.Wire.{state_name, event_name, parse_state}
use agent_p1p.Core.ExactHead.{GitSha, same_sha}
use agent_p1p.Core.Revision.{
  CasePolicy, CaseSnapshot, CaseCommand, CaseCommandDecision, CommandError, evaluate_case_command,
}

-- `Value::is_object`, and `value[key].as_str()`.
pub record Json (Value : Type 0) : Type 0 where
  pub is_object : Value → Bool
  pub text_at : Value → String → Option String

pub record WorkflowCommand (Value Run Evidence Finding : Type 0) : Type 0 where
  pub case_id : CaseId
  pub event_id : String
  pub observed_at : ℕ
  pub expected_state : CaseState
  pub expected_state_revision : ℕ
  pub accepted_policy_revision : ℕ
  pub remediation_round : ℕ  -- u32
  pub plan_version : Option ℕ
  pub pr_number : Option ℕ
  pub head_sha : Option GitSha
  pub event : Event
  pub accepted_plan_version : Option ℕ
  pub next_pr_number : Option ℕ
  pub next_head_sha : Option GitSha
  pub event_payload : Value
  pub run : Option Run
  pub evidence : List Evidence
  pub findings : List Finding

pub data ControllerError (StoreError : Type 0) : Type 0 where
  invalid_command : String → ControllerError StoreError
  core : CommandError → ControllerError StoreError
  store : StoreError → ControllerError StoreError

pub record EventInput (Value : Type 0) : Type 0 where
  pub event_id : String
  pub event_type : String
  pub payload : Value

-- The fields of the `json!` object.
pub record EffectPayload : Type 0 where
  pub case_key : String
  pub state_revision : ℕ
  pub effect : String
  pub remediation_round : ℕ
  pub plan_version : ℕ
  pub pr_number : Option ℕ
  pub head_sha : Option GitSha

pub record EffectInput : Type 0 where
  pub effect_id : String
  pub effect_type : String
  pub payload : EffectPayload

pub record TransitionInput (Value Run Evidence Finding : Type 0) : Type 0 where
  pub case_key : String
  pub expected_revision : ℕ
  pub next_state : String
  pub remediation_round : ℕ
  pub plan_version : ℕ
  pub pr_number : Option ℕ
  pub head_sha : Option GitSha
  pub observed_at : ℕ
  pub event : EventInput Value
  pub run : Option Run
  pub evidence : List Evidence
  pub findings : List Finding
  pub effects : List EffectInput

pub record StoredCase : Type 0 where
  pub case_key : String
  pub repository_id : ℕ
  pub issue_number : ℕ
  pub workflow_version : ℕ
  pub state : String
  pub state_revision : ℕ
  pub policy_revision : ℕ
  pub remediation_round : ℕ
  pub plan_version : ℕ
  pub pr_number : Option ℕ
  pub head_sha : Option GitSha

abbrev pub Prepared : Type 0 → Type 0 → Type 0
Prepared StoreError A = Result A (ControllerError StoreError)

abbrev pub is_remediating : CaseState → Bool
is_remediating remediating = true
is_remediating _ = false

abbrev pub is_proceed : Event → Bool
is_proceed proceed = true
is_proceed _ = false

abbrev pub is_review_ready : Event → Bool
is_review_ready review_ready = true
is_review_ready _ = false

abbrev pub is_human_resumed : Event → Bool
is_human_resumed human_resumed = true
is_human_resumed _ = false

-- `map_or(0, PlanVersion::get)`
abbrev pub plan_number : Option ℕ → ℕ
plan_number none = 0
plan_number (some n) = n

-- `Option::or`
abbrev pub or_else : Option ℕ → Option ℕ → Option ℕ
or_else none b = b
or_else (some a) _ = some a

-- `saturating_add` on `u32`
abbrev pub saturating_add_u32 : ℕ → ℕ → ℕ
saturating_add_u32 a b = if leb (a + b) u32_max then a + b else u32_max

abbrev pub effect_name : Effect → String
effect_name dispatch_planner = "DISPATCH_PLANNER"
effect_name publish_plan = "PUBLISH_PLAN"
effect_name dispatch_builder = "DISPATCH_BUILDER"
effect_name publish_draft_pull_request = "PUBLISH_DRAFT_PULL_REQUEST"
effect_name observe_ci = "OBSERVE_CI"
effect_name dispatch_reviewers = "DISPATCH_REVIEWERS"
effect_name publish_reviews = "PUBLISH_REVIEWS"
effect_name observe_final_preflight = "OBSERVE_FINAL_PREFLIGHT"
effect_name dispatch_final_reviewer = "DISPATCH_FINAL_REVIEWER"
effect_name hold_for_human = "HOLD_FOR_HUMAN"
effect_name notify_shadow_ready = "NOTIFY_SHADOW_READY"
effect_name begin_merge = "BEGIN_MERGE"
effect_name execute_merge = "EXECUTE_MERGE"
effect_name record_completion = "RECORD_COMPLETION"
effect_name record_abandonment = "RECORD_ABANDONMENT"
effect_name record_block = "RECORD_BLOCK"
effect_name record_takeover = "RECORD_TAKEOVER"
effect_name escalate = "ESCALATE"

-- `effect_name(*effect).to_ascii_lowercase()`, written out.
abbrev pub lower_effect_name : Effect → String
lower_effect_name dispatch_planner = "dispatch_planner"
lower_effect_name publish_plan = "publish_plan"
lower_effect_name dispatch_builder = "dispatch_builder"
lower_effect_name publish_draft_pull_request = "publish_draft_pull_request"
lower_effect_name observe_ci = "observe_ci"
lower_effect_name dispatch_reviewers = "dispatch_reviewers"
lower_effect_name publish_reviews = "publish_reviews"
lower_effect_name observe_final_preflight = "observe_final_preflight"
lower_effect_name dispatch_final_reviewer = "dispatch_final_reviewer"
lower_effect_name hold_for_human = "hold_for_human"
lower_effect_name notify_shadow_ready = "notify_shadow_ready"
lower_effect_name begin_merge = "begin_merge"
lower_effect_name execute_merge = "execute_merge"
lower_effect_name record_completion = "record_completion"
lower_effect_name record_abandonment = "record_abandonment"
lower_effect_name record_block = "record_block"
lower_effect_name record_takeover = "record_takeover"
lower_effect_name escalate = "escalate"
