-- ===== src/Core/Revision.antt =====
-- crates/pip-core/src/revision.rs: a command evaluated against a snapshot of its case.
pub mod Commands
use agent_p1p.Prelude.{
  ℕ, String, Option, if◌then◌else◌, not, ◌==◌, Result, ok, err, ◌>>=◌, ◌>>◌, fail_if, ok_or,
  map_err,
}
use agent_p1p.Core.Domain.{CaseId, same_case, checked_next}
use agent_p1p.Core.StateMachine.{
  CaseState, Event, MergeMode, TransitionContext, TransitionDecision, TransitionError, transition,
}

pub record CasePolicy : Type 0 where
  pub revision : ℕ
  pub merge_mode : MergeMode
  pub max_remediation_rounds : ℕ  -- NonZeroU32

pub record CaseSnapshot : Type 0 where
  pub case_id : CaseId
  pub state : CaseState
  pub state_revision : ℕ  -- NonZeroU64
  pub policy_revision : ℕ
  pub remediation_round : ℕ  -- u32

pub record CaseCommand : Type 0 where
  pub case_id : CaseId
  pub event_id : String
  pub observed_at : ℕ
  pub expected_state_revision : ℕ
  pub accepted_policy_revision : ℕ
  pub event : Event
  pub resume_target : Option CaseState

pub record CaseCommandDecision : Type 0 where
  pub case_id : CaseId
  pub event_id : String
  pub observed_at : ℕ
  pub from_revision : ℕ
  pub to_revision : ℕ
  pub transition : TransitionDecision

pub data CommandError : Type 0 where
  case_mismatch : CommandError
  stale_state_revision : ℕ → ℕ → CommandError
  command_policy_revision_mismatch policy_revision_unavailable state_revision_exhausted :
      CommandError
  invalid_command_transition : TransitionError → CommandError

-- The context in which the policy lets the command act on the snapshot.
abbrev pub context_of : CaseSnapshot → CaseCommand → CasePolicy → TransitionContext
context_of snapshot command policy = record {
  remediation_round = snapshot.remediation_round;
  max_remediation_rounds = policy.max_remediation_rounds;
  merge_mode = policy.merge_mode;
  resume_target = command.resume_target;
}

unfoldable pub evaluate_case_command :
    CaseSnapshot → CaseCommand → CasePolicy → Result CaseCommandDecision CommandError
evaluate_case_command snapshot command policy = do
  fail_if (not (same_case command.case_id snapshot.case_id)) case_mismatch
  fail_if (not (command.expected_state_revision == snapshot.state_revision))
      (stale_state_revision command.expected_state_revision snapshot.state_revision)
  fail_if (not (command.accepted_policy_revision == snapshot.policy_revision))
      command_policy_revision_mismatch
  fail_if (not (policy.revision == snapshot.policy_revision)) policy_revision_unavailable
  to_revision ← ok_or (checked_next snapshot.state_revision) state_revision_exhausted
  decided ←
      map_err invalid_command_transition
        (transition snapshot.state command.event (context_of snapshot command policy))
  ok (record {
    case_id = snapshot.case_id;
    event_id = command.event_id;
    observed_at = command.observed_at;
    from_revision = snapshot.state_revision;
    to_revision = to_revision;
    transition = decided;
  })
