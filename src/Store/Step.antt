-- ===== src/Store/Step.antt =====
-- crates/pip-store/src/lib.rs: one transition of a batch, in the transaction of the batch.
pub mod Facts
use text.Mathlib.Text.{◌==◌ as str_eq}
use agent_p1p.Prelude.{
  ℕ, ◌+◌, String, Bool, true, false, not, ◌&&◌, ◌||◌, Option, none, some, List, [], ◌∷◌, map, ltb,
  ◌==◌, if◌then◌else◌, is_some, is_none, option_eq, any, all, Result, ok, err, ◌>>=◌, ◌>>◌, fail_if,
  ok_or,
}
use agent_p1p.Prelude.Text.{not_blank}
use agent_p1p.Core.Domain.{checked_add_u64}
use agent_p1p.Core.ExactHead.{same_sha}
use agent_p1p.Controller.Ledger.{EventInput, TransitionInput, StoredCase}
use agent_p1p.Controller.Ledger.Batch.{ApplyResult, applied, replayed}
use agent_p1p.Store.{
  FaultPoint, after_event, after_run, after_evidence, after_projection, after_outbox,
  between_transitions, StoreError, invalid_integer, database, invalid_input, missing_case,
  idempotency_conflict, stale_revision, Stored, RunInput, EvidenceInput, FindingInput, NewCase,
  CaseRow, EventRow, OutboxRow, Tables, Handle, sql_u64, sql_option, ensure_writable,
}
use agent_p1p.Store.Statements.{
  inject, query_case, existing_event, insert_event, insert_runs, insert_evidence, insert_findings,
  is_case_at, update, count, is_open, insert_effects,
}
use agent_p1p.Store.Checks.{
  Transition, Codec, Guards, is_stop, validate_common, replay_or_conflict, admit,
}

module _ {Value : Type 0} where
  abbrev pub event_row : StoredCase → Transition Value → String → ℕ → ℕ → EventRow Value
  event_row current input command_hash next_revision policy_revision = record {
    event = input.event;
    case_key = input.case_key;
    state_revision = next_revision;
    observed_at = input.observed_at;
    command_hash = command_hash;
    previous_state = some current.state;
    next_state = input.next_state;
    policy_revision = policy_revision;
    remediation_round = input.remediation_round;
    plan_version = input.plan_version;
    pr_number = input.pr_number;
    head_sha = input.head_sha;
  }

  abbrev pub moved : Transition Value → ℕ → ℕ → CaseRow → CaseRow
  moved input next_revision policy_revision row = record {
    case = record row.case {
      state = input.next_state;
      state_revision = next_revision;
      policy_revision = policy_revision;
      remediation_round = input.remediation_round;
      plan_version = input.plan_version;
      pr_number = input.pr_number;
      head_sha = input.head_sha;
    };
    created_at = row.created_at;
    updated_at = input.observed_at;
  }

  -- The `UPDATE` of the case at the expected revision, which must change one row.
  unfoldable pub update_case :
      Tables Value → StoredCase → Transition Value → ℕ → ℕ → Stored (Tables Value)
  update_case t current input next_revision policy_revision = do
    sql_u64 next_revision
    sql_option input.pr_number
    sql_u64 input.observed_at
    sql_u64 input.expected_revision
    sql_u64 policy_revision
    fail_if (not (count (is_case_at input.case_key input.expected_revision) t.cases == 1))
        (stale_revision input.expected_revision current.state_revision)
    ok (record t {
      cases =
          update (is_case_at input.case_key input.expected_revision)
            (moved input next_revision policy_revision) t.cases;
    })

  -- A review recorded beside its peers: nothing of the case changes but its revision.
  abbrev pub keeps_cohort : StoredCase → Transition Value → Bool
  keeps_cohort current input =
      str_eq input.event.event_type "REVIEW_RECORDED"
      && str_eq current.state "REVIEWING"
      && str_eq input.next_state current.state
      && input.plan_version == current.plan_version
      && input.remediation_round == current.remediation_round
      && option_eq ◌==◌ input.pr_number current.pr_number
      && option_eq same_sha input.head_sha current.head_sha

  -- The work of a review cohort: begun with the reviews, and only reviews recorded since.
  abbrev pub in_cohort : List (EventRow Value) → OutboxRow → Bool
  in_cohort events row =
      any
        (λ origin.
          str_eq origin.case_key row.case_key
          && origin.state_revision == row.state_revision
          && str_eq origin.next_state "REVIEWING")
        events
      && not (
          any
            (λ between.
              str_eq between.case_key row.case_key
              && ltb row.state_revision between.state_revision
              && not (str_eq between.event.event_type "REVIEW_RECORDED"))
            events)

  unfoldable pub is_superseded :
      List (EventRow Value) → StoredCase → Transition Value → ℕ → OutboxRow → Bool
  is_superseded events current input next_revision row =
      str_eq row.case_key input.case_key
      && ltb row.state_revision next_revision
      && (not (str_eq row.effect_type "RUN_DIRECT_OBSERVER") || is_stop input.event.event_type)
      && not (
          str_eq row.effect_type "RUN_DIRECT_WORKER"
          && keeps_cohort current input
          && in_cohort events row)
      && is_open row

  abbrev pub supersede_row : Transition Value → OutboxRow → OutboxRow
  supersede_row input row = record row {
    superseded = some (input.observed_at, input.event.event_id);
    lease = none;
  }

  -- What stands beside the event: its run, evidence and findings.
  unfoldable pub insert_results :
      Codec Value → Option FaultPoint → Transition Value → Tables Value → Stored (Tables Value)
  insert_results codec fault input t = do
    ran ← insert_runs t input.run input.case_key input.event.event_id input.observed_at
    inject fault after_run
    proven ← insert_evidence codec.is_object input.case_key input.observed_at ran input.evidence
    found ←
        insert_findings codec.is_object input.case_key input.observed_at input.event.event_id proven
          input.findings
    inject fault after_evidence
    ok found

  -- What the transition leaves to be done: its effects, in place of those that it supersedes.
  unfoldable pub replace_effects :
      Option FaultPoint → StoredCase → Transition Value → ℕ → Tables Value → Stored (Tables Value)
  replace_effects fault current input next_revision t = do
    outbox ←
        insert_effects input.case_key next_revision input.observed_at
          (update (is_superseded t.events current input next_revision) (supersede_row input)
            t.outbox)
          input.effects
    inject fault after_outbox
    ok (record t { outbox = outbox })

  -- One transition of a batch, on the tables of the transaction.
  unfoldable pub apply_one :
      Codec Value
      → Guards Value
      → Option FaultPoint
      → Tables Value
      → Transition Value
      → Stored (Tables Value)
  apply_one codec guards fault t input = do
    current ← ok_or (query_case t.cases input.case_key) (missing_case input.case_key)
    fail_if (not (current.state_revision == input.expected_revision))
        (stale_revision input.expected_revision current.state_revision)
    next_revision ← ok_or (checked_add_u64 input.expected_revision 1) invalid_integer
    policy_revision ← admit guards t current input
    recorded ←
        insert_event t
          (event_row current input (codec.hash_transition input) next_revision policy_revision)
    inject fault after_event
    results ← insert_results codec fault input recorded
    projected ← update_case results current input next_revision policy_revision
    inject fault after_projection
    replace_effects fault current input next_revision projected
