-- ===== src/Store/Apply.antt =====
-- crates/pip-store/src/lib.rs: `apply_transition` and `apply_transition_batch`. A
-- transaction that fails leaves the tables as they were.
pub mod Facts
pub mod Replay
pub mod Final
use text.Mathlib.Text.{◌==◌ as str_eq}
use agent_p1p.Prelude.{
  ℕ, ◌+◌, String, Bool, true, false, not, ◌&&◌, ◌||◌, Option, none, some, List, [], ◌∷◌, map, ltb,
  ◌==◌, if◌then◌else◌, is_some, is_none, option_eq, any, all, Result, ok, err, ◌>>=◌, ◌>>◌, fail_if,
  ok_or,
}
use agent_p1p.Prelude.Text.{not_blank}
use agent_p1p.Core.Domain.{checked_add_u64}
use agent_p1p.Core.ExactHead.{same_sha}
use agent_p1p.Controller.Ledger.{EventInput, TransitionInput, StoredCase}
use agent_p1p.Controller.Ledger.Batch.{ApplyResult, applied, replayed}
use agent_p1p.Store.{
  FaultPoint, after_event, after_run, after_evidence, after_projection, after_outbox,
  between_transitions, StoreError, invalid_integer, database, invalid_input, missing_case,
  idempotency_conflict, stale_revision, Stored, RunInput, EvidenceInput, FindingInput, NewCase,
  CaseRow, EventRow, OutboxRow, Tables, Handle, sql_u64, sql_option, ensure_writable,
}
use agent_p1p.Store.Statements.{
  inject, query_case, existing_event, insert_event, insert_runs, insert_evidence, insert_findings,
  is_case_at, update, count, is_open, insert_effects,
}
use agent_p1p.Store.Checks.{Transition, Codec, Guards, validate_common, replay_or_conflict}
use agent_p1p.Store.Step.{apply_one}

-- `checked_add` on the transition before this one of the batch.
abbrev pub follows : Option ℕ → ℕ → Stored (Unit {0})
follows none expected_revision = ok tt
follows (some previous) expected_revision = do
  next ← ok_or (checked_add_u64 previous 1) invalid_integer
  fail_if (not (expected_revision == next))
      (invalid_input "batch transitions must be unique, consecutive, and for one case")

module _ {Value : Type 0} where
  -- The loop over the inputs, with the event ids so far and the revision before.
  unfoldable pub validate_batch :
      Codec Value → String → List String → Option ℕ → List (Transition Value) → Stored (Unit {0})
  validate_batch codec case_key event_ids previous [] = ok tt
  validate_batch codec case_key event_ids previous (input ∷ inputs) = do
    validate_common codec input.case_key input.event
    fail_if (not (str_eq input.case_key case_key) || any (str_eq input.event.event_id) event_ids)
        (invalid_input "batch transitions must be unique, consecutive, and for one case")
    follows previous input.expected_revision
    validate_batch codec case_key (input.event.event_id ∷ event_ids) (some input.expected_revision)
        inputs

  abbrev pub is_recorded : List (EventRow Value) → Transition Value → Bool
  is_recorded events input = is_some (existing_event events input.event.event_id)

  abbrev pub replay_one :
      Codec Value → Option (String × String) → Transition Value → Stored (Unit {0})
  replay_one codec none input = err (idempotency_conflict input.event.event_id)
  replay_one codec (some existing) input = do
    outcome ←
        replay_or_conflict existing input.case_key (codec.hash_transition input)
          input.event.event_id
    ok tt

  unfoldable pub replay_all :
      Codec Value → List (EventRow Value) → List (Transition Value) → Stored ApplyResult
  replay_all codec events [] = ok replayed
  replay_all codec events (input ∷ inputs) = do
    replay_one codec (existing_event events input.event.event_id) input
    replay_all codec events inputs

  -- The first event that is recorded, of a batch that is only in part.
  abbrev pub first_recorded : List (EventRow Value) → List (Transition Value) → Option String
  first_recorded events [] = none
  first_recorded events (input ∷ inputs) =
      if is_recorded events input then some input.event.event_id else first_recorded events inputs

  -- `if index + 1 < inputs.len()`
  abbrev pub when_more : List (Transition Value) → Stored (Unit {0}) → Stored (Unit {0})
  when_more [] check = ok tt
  when_more (_ ∷ _) check = check

  unfoldable pub apply_all :
      Codec Value
      → Guards Value
      → Option FaultPoint
      → Tables Value
      → List (Transition Value)
      → Stored (Tables Value)
  apply_all codec guards fault t [] = ok t
  apply_all codec guards fault t (input ∷ inputs) = do
    t' ← apply_one codec guards fault t input
    when_more inputs (inject fault between_transitions)
    apply_all codec guards fault t' inputs

  abbrev pub with_tables : Handle Value → Tables Value → Handle Value
  with_tables handle t = record handle { tables = t }

  -- The transaction of a batch of which no event is recorded.
  unfoldable pub run_batch :
      Codec Value
      → Guards Value
      → Option FaultPoint
      → Handle Value
      → List (Transition Value)
      → Stored (Handle Value × ApplyResult)
  run_batch codec guards fault handle inputs = do
    t ← apply_all codec guards fault handle.tables inputs
    ok (with_tables handle t, applied)

  abbrev pub replay_batch :
      Codec Value → Handle Value → List (Transition Value) → Stored (Handle Value × ApplyResult)
  replay_batch codec handle inputs = do
    result ← replay_all codec handle.tables.events inputs
    ok (handle, result)

  -- A batch is recorded as a whole, or not at all.
  abbrev pub settle_batch :
      Codec Value
      → Guards Value
      → Option FaultPoint
      → Handle Value
      → List (Transition Value)
      → Stored (Handle Value × ApplyResult)
  settle_batch codec guards fault handle inputs =
      if all (is_recorded handle.tables.events) inputs
      then replay_batch codec handle inputs
      else elim (first_recorded handle.tables.events inputs) [
        | some id ↦ err (idempotency_conflict id)
        | none ↦ run_batch codec guards fault handle inputs
      ]

  -- `inputs[0].case_key`, of a batch that is not empty.
  abbrev pub first_key : List (Transition Value) → Stored String
  first_key [] = err (invalid_input "at least one consecutive transition is required")
  first_key (input ∷ _) = ok input.case_key

  unfoldable pub apply_transition_batch :
      Codec Value
      → Guards Value
      → Option FaultPoint
      → Handle Value
      → List (Transition Value)
      → Stored (Handle Value × ApplyResult)
  apply_transition_batch codec guards fault handle inputs = do
    ensure_writable handle
    case_key ← first_key inputs
    validate_batch codec case_key [] none inputs
    settle_batch codec guards fault handle inputs

  -- `apply_transition`
  unfoldable pub apply_transition :
      Codec Value
      → Guards Value
      → Option FaultPoint
      → Handle Value
      → Transition Value
      → Stored (Handle Value × ApplyResult)
  apply_transition codec guards fault handle input =
      apply_transition_batch codec guards fault handle (input ∷ [])
