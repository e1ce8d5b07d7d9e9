-- ===== src/Controller/Ledger/Transition.antt =====
-- crates/pip-controller/src/ledger.rs: `transition_input`, one command's transition of the ledger.
pub mod Rounds
pub mod Heads
use Prim.Native.String
use text.Mathlib.Text.{◌==◌ as str_eq}
use agent_p1p.Prelude.{
  ℕ, ◌+◌, String, Bool, true, false, not, ◌&&◌, ◌||◌, Option, none, some, List, [], ◌∷◌, ◌++◌, leb,
  ◌==◌, if◌then◌else◌, is_some, is_none, option_eq, same_bool, Result, ok, err, ◌>>=◌, ◌>>◌,
  fail_if, ok_or, map_err,
}
use agent_p1p.Core.Domain.{CaseId, case_key, decimal, u32_max, checked_add_u32, checked_add_u64}
use agent_p1p.Core.StateMachine.{CaseState, Event, Effect, TransitionDecision}
use agent_p1p.Core.StateMachine.Wire.{state_name, event_name, parse_state}
use agent_p1p.Core.ExactHead.{GitSha, same_sha}
use agent_p1p.Core.Revision.{
  CasePolicy, CaseSnapshot, CaseCommand, CaseCommandDecision, CommandError, evaluate_case_command,
}
use agent_p1p.Controller.Ledger.{
  Json, WorkflowCommand, ControllerError, invalid_command, core, store, EventInput, EffectPayload,
  EffectInput, TransitionInput, StoredCase, Prepared, is_remediating, is_proceed, is_review_ready,
  is_human_resumed, plan_number, or_else, saturating_add_u32, effect_name, lower_effect_name,
}

-- The effects of a transition, numbered from this index; the payload is theirs but for its name.
unfoldable pub effect_inputs : String → EffectPayload → ℕ → List Effect → List EffectInput
effect_inputs event_id payload index [] = []
effect_inputs event_id payload index (effect ∷ rest) =
    (record {
      effect_id = String.◌++◌ "effect-" (
          String.◌++◌ event_id (
            String.◌++◌ "-"
              (String.◌++◌ (lower_effect_name effect) (String.◌++◌ "-" (decimal (index + 1))))));
      effect_type = effect_name effect;
      payload = record payload { effect = effect_name effect };
    })
    ∷ effect_inputs event_id payload (index + 1) rest

-- `state.parse().ok()`
abbrev pub parsed : Option String → Option CaseState
parsed none = none
parsed (some text) = elim (parse_state text) [ ok state ↦ some state | err _ ↦ none ]

module _ {Value Run Evidence Finding : Type 0} where
  abbrev pub snapshot_of : WorkflowCommand Value Run Evidence Finding → CaseSnapshot
  snapshot_of w = record {
    case_id = w.case_id;
    state = w.expected_state;
    state_revision = w.expected_state_revision;
    policy_revision = w.accepted_policy_revision;
    remediation_round = w.remediation_round;
  }

  abbrev pub command_of :
      WorkflowCommand Value Run Evidence Finding → Option CaseState → CaseCommand
  command_of w target = record {
    case_id = w.case_id;
    event_id = w.event_id;
    observed_at = w.observed_at;
    expected_state_revision = w.expected_state_revision;
    accepted_policy_revision = w.accepted_policy_revision;
    event = w.event;
    resume_target = target;
  }

  -- The `TransitionInput` that is returned.
  abbrev pub built :
      WorkflowCommand Value Run Evidence Finding
      → CaseCommandDecision
      → ℕ
      → ℕ
      → Option ℕ × Option GitSha
      → TransitionInput Value Run Evidence Finding
  built w evaluated plan round binding = record {
    case_key = case_key w.case_id;
    expected_revision = w.expected_state_revision;
    next_state = state_name evaluated.transition.next_state;
    remediation_round = round;
    plan_version = plan;
    pr_number = binding.0;
    head_sha = binding.1;
    observed_at = w.observed_at;
    event = record {
      event_id = w.event_id;
      event_type = event_name w.event;
      payload = w.event_payload;
    };
    run = w.run;
    evidence = w.evidence;
    findings = w.findings;
    effects =
        effect_inputs w.event_id
          (record {
            case_key = case_key w.case_id;
            state_revision = evaluated.to_revision;
            effect = "";
            remediation_round = round;
            plan_version = plan;
            pr_number = binding.0;
            head_sha = binding.1;
          })
          0 evaluated.transition.effects;
  }

module _ {Value Run Evidence Finding StoreError : Type 0} where
  unfoldable pub next_plan_version :
      WorkflowCommand Value Run Evidence Finding → Prepared StoreError ℕ
  next_plan_version w = elim w.accepted_plan_version [
    | some accepted ↦
        if accepted == saturating_add_u32 (plan_number w.plan_version) 1
        then ok accepted
        else err (invalid_command "accepted plan version is not the next version")
    | none ↦
        if is_proceed w.event
        then err (invalid_command "planner proceed requires an accepted plan version")
        else ok (plan_number w.plan_version)
  ]

  -- The head of a build that is ready for review.
  unfoldable pub replace_head :
      WorkflowCommand Value Run Evidence Finding → Prepared StoreError (Option ℕ × Option GitSha)
  replace_head w = do
    head ←
        ok_or w.next_head_sha
          (invalid_command "review-ready builder result requires a new exact head")
    pr ←
        ok_or (or_else w.next_pr_number w.pr_number)
          (invalid_command "review-ready builder result requires a pull request")
    fail_if (is_some w.pr_number && not (option_eq ◌==◌ w.pr_number (some pr)))
        (invalid_command "builder cannot replace the case pull request")
    ok (some pr, some head)

  unfoldable pub next_head_binding :
      WorkflowCommand Value Run Evidence Finding → Prepared StoreError (Option ℕ × Option GitSha)
  next_head_binding w =
      if is_review_ready w.event
      then replace_head w
      else if is_some w.next_pr_number || is_some w.next_head_sha
      then err (invalid_command "only review-ready builder evidence may change the exact head")
      else ok (w.pr_number, w.head_sha)

  unfoldable pub resume_target :
      Json Value
      → WorkflowCommand Value Run Evidence Finding
      → Prepared StoreError (Option CaseState)
  resume_target json w = if not (is_human_resumed w.event) then ok none else do
    state ←
        ok_or (parsed (json.text_at w.event_payload "resume_target"))
          (invalid_command "a resume names its target state")
    ok (some state)

  unfoldable pub next_round :
      WorkflowCommand Value Run Evidence Finding → CaseState → Prepared StoreError ℕ
  next_round w next_state =
      if is_remediating next_state
        && not (is_remediating w.expected_state)
        && not (is_human_resumed w.event)
      then ok_or (checked_add_u32 w.remediation_round 1)
          (invalid_command "remediation round exhausted")
      else ok w.remediation_round

  unfoldable pub transition_input :
      Json Value
      → CasePolicy
      → WorkflowCommand Value Run Evidence Finding
      → Prepared StoreError (TransitionInput Value Run Evidence Finding)
  transition_input json policy w = do
    target ← resume_target json w
    evaluated ← map_err core (evaluate_case_command (snapshot_of w) (command_of w target) policy)
    plan ← next_plan_version w
    round ← next_round w evaluated.transition.next_state
    binding ← next_head_binding w
    ok (built w evaluated plan round binding)
