-- ===== src/Core/Revision/Commands.antt =====
-- When crates/pip-core/src/revision.rs accepts a command, and what it then decides.
use agent_p1p.Prelude.{◌+◌, ◌≤◌, ◌≡◌, ◌↔◌, true, arith, ok}
use agent_p1p.Core.Domain.{CaseId, same_case, u64_max}
use agent_p1p.Core.Domain.Identity.{checked_next_iff}
use agent_p1p.Core.StateMachine.{transition}
use agent_p1p.Core.Revision.{
  CasePolicy, CaseSnapshot, CaseCommand, CaseCommandDecision, context_of, evaluate_case_command,
}

same_case_iff : (a b : CaseId) → (same_case a b ≡ true) ↔ (a ≡ b)
same_case_iff a b = (λ h. ground arith, λ h. ground arith)

-- The command speaks of this case as it stands, under the policy that the case accepted.
pub record IsCurrent (s : CaseSnapshot) (c : CaseCommand) (p : CasePolicy) : Type 0 where
  pub same : c.case_id ≡ s.case_id
  pub fresh : c.expected_state_revision ≡ s.state_revision
  pub accepted : c.accepted_policy_revision ≡ s.policy_revision
  pub available : p.revision ≡ s.policy_revision

-- A command is decided exactly if it is current, a revision is left, and the transition is
-- defined; the decision carries the command's identity and the transition, and advances the
-- revision of the snapshot by one.
pub evaluate_iff :
    (s : CaseSnapshot) (c : CaseCommand) (p : CasePolicy) (d : CaseCommandDecision)
    → (evaluate_case_command s c p ≡ ok d) ↔ (
        IsCurrent s c p
        × (transition s.state c.event (context_of s c p) ≡ ok d.transition)
        × (d.case_id ≡ s.case_id)
        × (d.event_id ≡ c.event_id)
        × (d.observed_at ≡ c.observed_at)
        × (d.from_revision ≡ s.state_revision)
        × (d.to_revision ≡ s.state_revision + 1)
        × (s.state_revision + 1 ≤ u64_max))
unfolding evaluate_case_command
evaluate_iff s c p d = (
  λ h.
      ground
        (arith, same_case_iff c.case_id s.case_id, checked_next_iff s.state_revision d.to_revision),
  λ h. ground (
    arith,
    same_case_iff c.case_id s.case_id,
    checked_next_iff s.state_revision (s.state_revision + 1),
  ),
)
