-- ===== src/Store/Attempts/Counts.antt =====
-- crates/pip-store/src/lib.rs: what is read of the direct attempts, `completed_direct_attempt`,
-- `direct_attempt`, the counts of failures that are charged, and `direct_stage_outage`.
use text.Mathlib.Text.{◌==◌ as str_eq}
use Prim.Native.String.{compare}
use Prim.Native.Nat.{Ordering}
use agent_p1p.Prelude.{
  ℕ, String, Bool, true, false, not, ◌&&◌, ◌||◌, Option, none, some, List, [], ◌∷◌, ltb, ◌==◌,
  if◌then◌else◌, any, filter, length, ok, ◌>>=◌, ◌>>◌, fail_if, ok_or,
}
use agent_p1p.Prelude.Text.{not_blank}
use agent_p1p.Store.{
  database, invalid_input, idempotency_conflict, Stored, EvidenceRow, OutboxRow, Tables, sql_u64,
}
use agent_p1p.Store.Statements.{count, is_open}
use agent_p1p.Store.Attempts.{
  StoredDirectAttempt, DirectStore, Json, is_failed_status, is_complete_of, unavailable_id,
  attempt_name, payload_digest,
}
use agent_p1p.Store.Attempts.Cooldown.{attempt_row}

pub record DirectOutage : Type 0 where
  pub effect_id : String
  pub since : ℕ
  pub cause : String
  pub error : String

-- `effect_type != 'RUN_DIRECT_OBSERVER'`
abbrev pub is_work : OutboxRow → Bool
is_work row = not (str_eq row.effect_type "RUN_DIRECT_OBSERVER")

-- `o.case_key = ?1 AND o.effect_type != … AND o.delivered_at IS NULL AND …`
abbrev pub is_pending_work : String → OutboxRow → Bool
is_pending_work key row = str_eq row.case_key key && is_work row && is_open row

abbrev pub is_digest : Option String → String → Bool
is_digest none digest = false
is_digest (some stored) digest = str_eq stored digest

abbrev pub or_default : Option String → String → String
or_default none default = default
or_default (some value) default = value

module _ {Value : Type 0} where
  -- `status = 'COMPLETE'`, of which an effect has one row.
  abbrev pub complete_row_of :
      List (StoredDirectAttempt Value) → String → Option (StoredDirectAttempt Value)
  complete_row_of [] id = none
  complete_row_of (attempt ∷ attempts) id =
      if is_complete_of id attempt then some attempt else complete_row_of attempts id

module _ {Value : Type 0} where
  -- `result_json.map(from_str).transpose()`
  abbrev pub parsed_result : Json Value → Option String → Stored (Option Value)
  parsed_result json none = ok none
  parsed_result json (some text) = do result ← ok_or (json.parse text) database; ok (some result)

  abbrev pub with_result : StoredDirectAttempt String → Option Value → StoredDirectAttempt Value
  with_result row result = record {
    attempt_id = row.attempt_id;
    effect_id = row.effect_id;
    case_key = row.case_key;
    state_revision = row.state_revision;
    task_id = row.task_id;
    lease_owner = row.lease_owner;
    lease_until = row.lease_until;
    started_at = row.started_at;
    completed_at = row.completed_at;
    status = row.status;
    result = result;
    result_sha256 = row.result_sha256;
    error = row.error;
  }

  -- `direct_attempt_from_row`, of a row whose result is a text.
  abbrev pub direct_attempt_from_row :
      Json Value → StoredDirectAttempt String → Stored (StoredDirectAttempt Value)
  direct_attempt_from_row json row = do
    result ← parsed_result json row.result
    ok (with_result row result)

  abbrev pub check_result :
      Json Value → Option (StoredDirectAttempt String) → Stored (Option (StoredDirectAttempt Value))
  check_result json none = ok none
  check_result json (some row) = do
    stored ← direct_attempt_from_row json row
    result ← ok_or stored.result (invalid_input "completed attempt has no result")
    fail_if (not (is_digest stored.result_sha256 (payload_digest json result)))
        (idempotency_conflict (attempt_name stored.attempt_id))
    ok (some stored)

  unfoldable pub completed_direct_attempt :
      Json Value → DirectStore Value → String → Stored (Option (StoredDirectAttempt Value))
  completed_direct_attempt json store effect_id = do
    fail_if (not (not_blank effect_id)) (invalid_input "effect id is required")
    check_result json (complete_row_of store.attempts effect_id)

  abbrev pub read_optional :
      Json Value → Option (StoredDirectAttempt String) → Stored (Option (StoredDirectAttempt Value))
  read_optional json none = ok none
  read_optional json (some row) = do stored ← direct_attempt_from_row json row; ok (some stored)

  unfoldable pub direct_attempt :
      Json Value → DirectStore Value → ℕ → Stored (Option (StoredDirectAttempt Value))
  direct_attempt json store id = do
    fail_if (id == 0) (invalid_input "attempt id is required")
    sql_u64 id
    read_optional json (attempt_row store.attempts id)

  abbrev pub direct_attempt_count : DirectStore Value → ℕ
  direct_attempt_count store = length store.attempts

  -- The outage of an attempt, `e.evidence_id = 'direct-unavailable:' || a.attempt_id AND …`.
  abbrev pub is_outage : ℕ → EvidenceRow Value → Bool
  is_outage attempt_id row =
      str_eq row.evidence.evidence_id (unavailable_id attempt_id)
      && str_eq row.evidence.kind "DIRECT_RUNTIME_UNAVAILABLE"

  abbrev pub was_out : List (EvidenceRow Value) → StoredDirectAttempt String → Bool
  was_out evidence attempt = any (is_outage attempt.attempt_id) evidence

  abbrev pub is_charged : List (EvidenceRow Value) → String → StoredDirectAttempt String → Bool
  is_charged evidence effect_id attempt =
      str_eq attempt.effect_id effect_id
      && is_failed_status attempt.status
      && not (was_out evidence attempt)

  -- `MAX(failures)` over the pending work, 0 where there is none.
  abbrev pub most_failures :
      List (EvidenceRow Value) → List (StoredDirectAttempt String) → List OutboxRow → ℕ
  most_failures evidence attempts [] = 0
  most_failures evidence attempts (row ∷ rows) =
      let failures = count (is_charged evidence row.effect_id) attempts in
      let rest = most_failures evidence attempts rows in
      if ltb rest failures then failures else rest

  unfoldable pub direct_stage_failure_count : DirectStore Value → String → Stored ℕ
  direct_stage_failure_count store key = do
    fail_if (not (not_blank key)) (invalid_input "case key is required")
    ok (
        most_failures store.handle.tables.evidence store.attempts
          (filter (is_pending_work key) store.handle.tables.outbox))

  -- A failure that counts against the budget of the case.
  abbrev pub is_charged_to : Tables Value → String → StoredDirectAttempt String → Bool
  is_charged_to t key attempt =
      str_eq attempt.case_key key
      && is_failed_status attempt.status
      && any (λ row. str_eq row.effect_id attempt.effect_id && is_work row) t.outbox
      && not (
          any (λ row. is_outage attempt.attempt_id row && str_eq row.case_key attempt.case_key)
            t.evidence)

  unfoldable pub failed_direct_attempt_count_for_case : DirectStore Value → String → Stored ℕ
  failed_direct_attempt_count_for_case store key = do
    fail_if (not (not_blank key)) (invalid_input "case key is required")
    ok (count (is_charged_to store.handle.tables key) store.attempts)

  unfoldable pub builder_dispatched_before : DirectStore Value → String → ℕ → Stored Bool
  builder_dispatched_before store key state_revision = do
    fail_if (not (not_blank key)) (invalid_input "case key is required")
    sql_u64 state_revision
    ok (
        any
          (λ row.
            str_eq row.case_key key
            && str_eq row.effect_type "DISPATCH_BUILDER"
            && ltb row.state_revision state_revision)
          store.handle.tables.outbox)

  -- `COALESCE((SELECT MAX(a.started_at) …), 0)`
  abbrev pub last_start : List (EvidenceRow Value) → String → List (StoredDirectAttempt String) → ℕ
  last_start evidence effect_id [] = 0
  last_start evidence effect_id (attempt ∷ attempts) =
      let rest = last_start evidence effect_id attempts in
      if str_eq attempt.effect_id effect_id
        && not (was_out evidence attempt)
        && ltb rest attempt.started_at
      then attempt.started_at
      else rest

  abbrev pub is_stage_outage : DirectStore Value → String → EvidenceRow Value → Bool
  is_stage_outage store key row =
      str_eq row.case_key key
      && str_eq row.evidence.kind "DIRECT_RUNTIME_UNAVAILABLE"
      && any
          (λ effect.
            str_eq effect.effect_id row.evidence.source && is_work effect && is_open effect)
          store.handle.tables.outbox
      && ltb (last_start store.handle.tables.evidence row.evidence.source store.attempts)
          row.observed_at

  -- `ORDER BY e.observed_at, e.evidence_id`
  abbrev pub is_sooner : EvidenceRow Value → EvidenceRow Value → Bool
  is_sooner a b =
      ltb a.observed_at b.observed_at
      || (a.observed_at == b.observed_at
          && elim (compare a.evidence.evidence_id b.evidence.evidence_id) [
            | Ordering.lt ↦ true
            | _ ↦ false
          ])

  -- The first and the last of the rows in that order.
  abbrev pub soonest : List (EvidenceRow Value) → Option (EvidenceRow Value)
  soonest [] = none
  soonest (row ∷ rows) = elim (soonest rows) [
    | none ↦ some row
    | some best ↦ if is_sooner best row then some best else some row
  ]

  abbrev pub newest : List (EvidenceRow Value) → Option (EvidenceRow Value)
  newest [] = none
  newest (row ∷ rows) = elim (newest rows) [
    | none ↦ some row
    | some best ↦ if is_sooner row best then some best else some row
  ]

  abbrev pub outage_between : Json Value → EvidenceRow Value → EvidenceRow Value → DirectOutage
  outage_between json first last = record {
    effect_id = first.evidence.source;
    since = first.observed_at;
    cause = or_default (json.cause_of last.evidence.payload) "PROVIDER_UNAVAILABLE";
    error = or_default (json.error_of last.evidence.payload) "";
  }

  -- The last row of the effect whose outage is the oldest; a row of that effect is among them.
  abbrev pub outage_of : Json Value → List (EvidenceRow Value) → Option DirectOutage
  outage_of json rows = elim (soonest rows) [
    | none ↦ none
    | some first ↦
        elim (newest (filter (λ row. str_eq row.evidence.source first.evidence.source) rows)) [
          | none ↦ some (outage_between json first first)
          | some last ↦ some (outage_between json first last)
        ]
  ]

  unfoldable pub direct_stage_outage :
      Json Value → DirectStore Value → String → Stored (Option DirectOutage)
  direct_stage_outage json store key = do
    fail_if (not (not_blank key)) (invalid_input "case key is required")
    ok (outage_of json (filter (is_stage_outage store key) store.handle.tables.evidence))
