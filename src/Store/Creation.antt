-- ===== src/Store/Creation.antt =====
-- crates/pip-store/src/lib.rs: `create_case`.
pub mod Facts
use text.Mathlib.Text.{◌==◌ as str_eq}
use agent_p1p.Prelude.{
  ℕ, ◌+◌, String, Bool, true, false, not, ◌&&◌, ◌||◌, Option, none, some, List, [], ◌∷◌, map, ltb,
  ◌==◌, if◌then◌else◌, is_some, is_none, option_eq, any, all, Result, ok, err, ◌>>=◌, ◌>>◌, fail_if,
  ok_or,
}
use agent_p1p.Prelude.Text.{not_blank}
use agent_p1p.Core.Domain.{checked_add_u64}
use agent_p1p.Core.ExactHead.{same_sha}
use agent_p1p.Controller.Ledger.{EventInput, TransitionInput, StoredCase}
use agent_p1p.Controller.Ledger.Batch.{ApplyResult, applied, replayed}
use agent_p1p.Store.{
  FaultPoint, after_event, after_run, after_evidence, after_projection, after_outbox,
  between_transitions, StoreError, invalid_integer, database, invalid_input, missing_case,
  idempotency_conflict, stale_revision, Stored, RunInput, EvidenceInput, FindingInput, NewCase,
  CaseRow, EventRow, OutboxRow, Tables, Handle, sql_u64, sql_option, ensure_writable,
}
use agent_p1p.Store.Statements.{
  inject, query_case, existing_event, insert_event, insert_runs, insert_evidence, insert_findings,
  is_case_at, update, count, is_open, insert_effects,
}
use agent_p1p.Store.Checks.{Codec, validate_common, replay_or_conflict}
use agent_p1p.Store.Apply.{with_tables}

module _ {Value : Type 0} where
  abbrev pub first_event : NewCase Value → String → EventRow Value
  first_event input command_hash = record {
    event = input.event;
    case_key = input.case_key;
    state_revision = 1;
    observed_at = input.observed_at;
    command_hash = command_hash;
    previous_state = none;
    next_state = input.initial_state;
    policy_revision = input.policy_revision;
    remediation_round = 0;
    plan_version = 0;
    pr_number = none;
    head_sha = none;
  }

  abbrev pub first_row : NewCase Value → CaseRow
  first_row input = record {
    case = record {
      case_key = input.case_key;
      repository_id = input.repository_id;
      issue_number = input.issue_number;
      workflow_version = input.workflow_version;
      state = input.initial_state;
      state_revision = 1;
      policy_revision = input.policy_revision;
      remediation_round = 0;
      plan_version = 0;
      pr_number = none;
      head_sha = none;
    };
    created_at = input.observed_at;
    updated_at = input.observed_at;
  }

  -- `INSERT INTO cases`: the key is new, and so is the issue in this workflow.
  unfoldable pub insert_case : Tables Value → NewCase Value → Stored (Tables Value)
  insert_case t input = do
    sql_u64 input.repository_id
    sql_u64 input.issue_number
    sql_u64 input.policy_revision
    sql_u64 input.observed_at
    fail_if (is_some (query_case t.cases input.case_key)) database
    fail_if
        (any
          (λ row.
            row.case.repository_id == input.repository_id
            && row.case.issue_number == input.issue_number
            && row.case.workflow_version == input.workflow_version)
          t.cases)
        database
    fail_if (input.policy_revision == 0) database
    ok (record t { cases = first_row input ∷ t.cases })

  unfoldable pub start_case :
      Codec Value → Handle Value → NewCase Value → Stored (Handle Value × ApplyResult)
  start_case codec handle input = do
    t ← insert_case handle.tables input
    recorded ← insert_event t (first_event input (codec.hash_new_case input))
    outbox ← insert_effects input.case_key 1 input.observed_at recorded.outbox input.effects
    ok (with_tables handle (record recorded { outbox = outbox }), applied)

  -- An event that is recorded is replayed or in conflict.
  abbrev pub settle_case :
      Codec Value
      → Handle Value
      → NewCase Value
      → Option (String × String)
      → Stored (Handle Value × ApplyResult)
  settle_case codec handle input none = start_case codec handle input
  settle_case codec handle input (some existing) = do
    result ←
        replay_or_conflict existing input.case_key (codec.hash_new_case input) input.event.event_id
    ok (handle, result)

  unfoldable pub create_case :
      Codec Value → Handle Value → NewCase Value → Stored (Handle Value × ApplyResult)
  create_case codec handle input = do
    ensure_writable handle
    validate_common codec input.case_key input.event
    settle_case codec handle input (existing_event handle.tables.events input.event.event_id)
