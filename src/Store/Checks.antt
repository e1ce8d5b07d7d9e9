-- ===== src/Store/Checks.antt =====
-- crates/pip-store/src/lib.rs: what is asked of an event before it is stored.
use text.Mathlib.Text.{◌==◌ as str_eq}
use agent_p1p.Prelude.{
  ℕ, String, Bool, true, false, not, ◌&&◌, ◌||◌, if◌then◌else◌, ok, err, ◌>>◌, fail_if,
}
use agent_p1p.Prelude.Text.{not_blank}
use agent_p1p.Controller.Ledger.{EventInput, TransitionInput, StoredCase}
use agent_p1p.Controller.Ledger.Batch.{ApplyResult, replayed}
use agent_p1p.Store.{
  invalid_input, idempotency_conflict, Stored, RunInput, EvidenceInput, FindingInput, NewCase,
  Tables,
}

abbrev pub Transition : Type 0 → Type 0
Transition Value = TransitionInput Value (RunInput Value) (EvidenceInput Value) (FindingInput Value)

-- What JSON and SHA-256 give: whether a payload is an object, and the digests of the inputs.
pub record Codec (Value : Type 0) : Type 0 where
  pub is_object : Value → Bool
  pub hash_transition : Transition Value → String
  pub hash_new_case : NewCase Value → String

-- The checks of the events that operators and humans authorize, each in a file of its own; those of
-- the second group choose the policy revision of the case.
pub record Guards (Value : Type 0) : Type 0 where
  pub infrastructure_recovery : Tables Value → StoredCase → Transition Value → Stored (Unit {0})
  pub follow_up_recovery : Tables Value → StoredCase → Transition Value → Stored (Unit {0})
  pub native_review_retry : Tables Value → StoredCase → Transition Value → Stored (Unit {0})
  pub review_coordination_recovery :
      Tables Value → StoredCase → Transition Value → Stored (Unit {0})
  pub reauthorization : Tables Value → StoredCase → Transition Value → Stored ℕ
  pub remediation_extension : Tables Value → StoredCase → Transition Value → Stored ℕ
  pub resume : Tables Value → StoredCase → Transition Value → Stored ℕ

-- The retired events, which spent a lifetime allowance.
abbrev pub is_retired : String → Bool
is_retired kind =
    str_eq kind "BUILDER_RETRY_AUTHORIZED"
    || str_eq kind "REVIEW_RETRY_AUTHORIZED"
    || str_eq kind "PLANNER_RETRY_AUTHORIZED"

-- The events that stop an observer too.
abbrev pub is_stop : String → Bool
is_stop kind =
    str_eq kind "AUTHORIZATION_REMOVED"
    || str_eq kind "HUMAN_TOOK_OVER"
    || str_eq kind "ABANDON"
    || str_eq kind "BLOCKED"
    || str_eq kind "BLOCKED_UNEXPECTED_MODEL"
    || str_eq kind "OPERATIONAL_BOUND_REACHED"
    || str_eq kind "HUMAN_MERGED"
    || str_eq kind "MERGE_VERIFIED"

abbrev pub when_kind : Bool → Stored (Unit {0}) → Stored (Unit {0})
when_kind true check = check
when_kind false check = ok tt

unfoldable pub replay_or_conflict : String × String → String → String → String → Stored ApplyResult
replay_or_conflict (old_key, old_hash) case_key command_hash event_id =
    if str_eq old_key case_key && str_eq old_hash command_hash
    then ok replayed
    else err (idempotency_conflict event_id)

module _ {Value : Type 0} where
  unfoldable pub validate_common : Codec Value → String → EventInput Value → Stored (Unit {0})
  validate_common codec case_key event =
      fail_if
        (not (not_blank case_key)
          || not (not_blank event.event_id)
          || not (not_blank event.event_type)
          || not (codec.is_object event.payload))
        (invalid_input "case, event identity, type, and object payload are required")

  -- The policy revision of the case after this transition, where its event is admitted.
  unfoldable pub admit : Guards Value → Tables Value → StoredCase → Transition Value → Stored ℕ
  admit guards t current input = do
    fail_if (is_retired input.event.event_type) (invalid_input "retired operator retry event")
    when_kind (str_eq input.event.event_type "INFRASTRUCTURE_RECOVERY_AUTHORIZED")
        (guards.infrastructure_recovery t current input)
    when_kind (str_eq input.event.event_type "FOLLOW_UP_RECOVERY_AUTHORIZED")
        (guards.follow_up_recovery t current input)
    when_kind (str_eq input.event.event_type "NATIVE_REVIEW_RETRY_AUTHORIZED")
        (guards.native_review_retry t current input)
    when_kind (str_eq input.event.event_type "REVIEW_COORDINATION_RECOVERY_AUTHORIZED")
        (guards.review_coordination_recovery t current input)
    if str_eq input.event.event_type "ISSUE_REAUTHORIZED"
        then guards.reauthorization t current input
        else if str_eq input.event.event_type "REMEDIATION_BUDGET_EXTENDED"
        then guards.remediation_extension t current input
        else if str_eq input.event.event_type "HUMAN_RESUMED"
        then guards.resume t current input
        else ok current.policy_revision
