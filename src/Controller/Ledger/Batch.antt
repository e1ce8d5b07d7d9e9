-- ===== src/Controller/Ledger/Batch.antt =====
-- crates/pip-controller/src/ledger.rs: `apply` and `apply_batch`, against the store as they use it.
pub mod Chains
pub mod Budgets
pub mod Single
use Prim.Native.String
use text.Mathlib.Text.{◌==◌ as str_eq}
use agent_p1p.Prelude.{
  ℕ, ◌+◌, String, Bool, true, false, not, ◌&&◌, ◌||◌, Option, none, some, List, [], ◌∷◌, ◌++◌, leb,
  ◌==◌, if◌then◌else◌, is_some, is_none, option_eq, same_bool, Result, ok, err, ◌>>=◌, ◌>>◌,
  fail_if, ok_or, map_err,
}
use agent_p1p.Core.Domain.{CaseId, case_key, decimal, u32_max, checked_add_u32, checked_add_u64}
use agent_p1p.Core.StateMachine.{CaseState, Event, Effect, TransitionDecision}
use agent_p1p.Core.StateMachine.Wire.{state_name, event_name, parse_state}
use agent_p1p.Core.ExactHead.{GitSha, same_sha}
use agent_p1p.Core.Revision.{
  CasePolicy, CaseSnapshot, CaseCommand, CaseCommandDecision, CommandError, evaluate_case_command,
}
use agent_p1p.Controller.Ledger.{
  Json, WorkflowCommand, ControllerError, invalid_command, core, store, EventInput, EffectPayload,
  EffectInput, TransitionInput, StoredCase, Prepared, is_remediating, is_proceed, is_review_ready,
  is_human_resumed, plan_number, or_else, saturating_add_u32, effect_name, lower_effect_name,
}
use agent_p1p.Controller.Ledger.Transition.{transition_input}

pub data ApplyResult : Type 0 where
  applied replayed : ApplyResult

-- What the controller asks of crates/pip-store, on a ledger of type `Ledger`.
pub record Store (Ledger StoreError Transition : Type 0) : Type 0 where
  pub case : Ledger → String → Result (Option StoredCase) StoreError
  pub granted_remediation_rounds : Ledger → String → Result ℕ StoreError
  pub apply_transition_batch : Ledger → List Transition → Ledger × Result ApplyResult StoreError

module _ {Value Run Evidence Finding : Type 0} where
  -- The command stands where the transition before it leaves the case.
  abbrev pub continues :
      TransitionInput Value Run Evidence Finding
      → WorkflowCommand Value Run Evidence Finding
      → ℕ
      → Bool
  continues previous w expected_revision =
      str_eq (case_key w.case_id) previous.case_key
      && w.expected_state_revision == expected_revision
      && str_eq (state_name w.expected_state) previous.next_state
      && w.remediation_round == previous.remediation_round
      && plan_number w.plan_version == previous.plan_version
      && option_eq ◌==◌ w.pr_number previous.pr_number
      && option_eq same_sha w.head_sha previous.head_sha

  -- The stored case is where the command expects it.
  abbrev pub expects : WorkflowCommand Value Run Evidence Finding → StoredCase → Bool
  expects w stored =
      str_eq stored.state (state_name w.expected_state)
      && stored.policy_revision == w.accepted_policy_revision
      && stored.remediation_round == w.remediation_round
      && stored.plan_version == plan_number w.plan_version
      && option_eq ◌==◌ stored.pr_number w.pr_number
      && option_eq same_sha stored.head_sha w.head_sha

module _ {Value Run Evidence Finding StoreError : Type 0} where
  unfoldable pub validate_consecutive :
      TransitionInput Value Run Evidence Finding
      → WorkflowCommand Value Run Evidence Finding
      → Prepared StoreError (Unit {0})
  validate_consecutive previous w = do
    expected_revision ←
        ok_or (checked_add_u64 previous.expected_revision 1)
          (invalid_command "workflow revision overflow")
    fail_if (not (continues previous w expected_revision))
        (invalid_command "workflow batch is not consecutive")

  unfoldable pub validate_workflow_shape :
      Json Value → WorkflowCommand Value Run Evidence Finding → Prepared StoreError (Unit {0})
  validate_workflow_shape json w = do
    fail_if (not (json.is_object w.event_payload))
        (invalid_command "workflow event payload must be an object")
    fail_if
        (not (same_bool (is_some w.pr_number) (is_some w.head_sha))
          || (is_some w.next_pr_number && is_none w.next_head_sha))
        (invalid_command "pull request and exact head bindings must be complete")

  unfoldable pub after_previous :
      Option (TransitionInput Value Run Evidence Finding)
      → WorkflowCommand Value Run Evidence Finding
      → Prepared StoreError (Unit {0})
  after_previous none w = ok tt
  after_previous (some previous) w = validate_consecutive previous w

  -- The loop of `apply_batch`, after a previous transition or at its start.
  unfoldable pub prepare_from :
      Json Value
      → CasePolicy
      → Option (TransitionInput Value Run Evidence Finding)
      → List (WorkflowCommand Value Run Evidence Finding)
      → Prepared StoreError (List (TransitionInput Value Run Evidence Finding))
  prepare_from json policy previous [] = ok []
  prepare_from json policy previous (w ∷ ws) = do
    validate_workflow_shape json w
    after_previous previous w
    transition ← transition_input json policy w
    rest ← prepare_from json policy (some transition) ws
    ok (transition ∷ rest)

module _ {Value Run Evidence Finding StoreError Ledger : Type 0} where
  unfoldable pub validate_workflow :
      Json Value
      → Store Ledger StoreError (TransitionInput Value Run Evidence Finding)
      → Ledger
      → WorkflowCommand Value Run Evidence Finding
      → Prepared StoreError (Unit {0})
  validate_workflow json ops ledger w = do
    validate_workflow_shape json w
    found ← map_err store (ops.case ledger (case_key w.case_id))
    stored ← ok_or found (invalid_command "case is not in the ledger")
    fail_if (stored.state_revision == w.expected_state_revision && not (expects w stored))
        (invalid_command "workflow command does not match the ledger projection")

  unfoldable pub effective_policy :
      Store Ledger StoreError (TransitionInput Value Run Evidence Finding)
      → Ledger
      → CasePolicy
      → WorkflowCommand Value Run Evidence Finding
      → Prepared StoreError CasePolicy
  effective_policy ops ledger policy w = do
    granted ← map_err store (ops.granted_remediation_rounds ledger (case_key w.case_id))
    rounds ←
        ok_or (checked_add_u32 policy.max_remediation_rounds granted)
          (invalid_command "remediation budget overflow")
    ok (record policy { max_remediation_rounds = rounds })

  -- What `apply_batch` does before the store sees the transitions.
  unfoldable pub prepare_batch :
      Json Value
      → Store Ledger StoreError (TransitionInput Value Run Evidence Finding)
      → Ledger
      → CasePolicy
      → List (WorkflowCommand Value Run Evidence Finding)
      → Prepared StoreError (List (TransitionInput Value Run Evidence Finding))
  prepare_batch json ops ledger policy [] =
      err (invalid_command "at least one workflow command is required")
  prepare_batch json ops ledger policy (first ∷ rest) = do
    validate_workflow json ops ledger first
    effective ← effective_policy ops ledger policy first
    prepare_from json effective none (first ∷ rest)

  -- The store applies what was prepared, and nothing if the preparation failed.
  abbrev pub commit :
      Store Ledger StoreError (TransitionInput Value Run Evidence Finding)
      → Ledger
      → Prepared StoreError (List (TransitionInput Value Run Evidence Finding))
      → Ledger × Prepared StoreError ApplyResult
  commit ops ledger (err failure) = (ledger, err failure)
  commit ops ledger (ok transitions) =
      let (after, result) = ops.apply_transition_batch ledger transitions in
      (after, map_err store result)

  unfoldable pub apply_batch :
      Json Value
      → Store Ledger StoreError (TransitionInput Value Run Evidence Finding)
      → Ledger
      → CasePolicy
      → List (WorkflowCommand Value Run Evidence Finding)
      → Ledger × Prepared StoreError ApplyResult
  apply_batch json ops ledger policy workflows =
      commit ops ledger (prepare_batch json ops ledger policy workflows)

  unfoldable pub prepare_one :
      Json Value
      → Store Ledger StoreError (TransitionInput Value Run Evidence Finding)
      → Ledger
      → CasePolicy
      → WorkflowCommand Value Run Evidence Finding
      → Prepared StoreError (List (TransitionInput Value Run Evidence Finding))
  prepare_one json ops ledger policy w = do
    validate_workflow json ops ledger w
    effective ← effective_policy ops ledger policy w
    transition ← transition_input json effective w
    ok (transition ∷ [])

  -- `apply`: the store takes one transition as a batch of one.
  unfoldable pub apply :
      Json Value
      → Store Ledger StoreError (TransitionInput Value Run Evidence Finding)
      → Ledger
      → CasePolicy
      → WorkflowCommand Value Run Evidence Finding
      → Ledger × Prepared StoreError ApplyResult
  apply json ops ledger policy w = commit ops ledger (prepare_one json ops ledger policy w)
