-- ===== src/Store/Attempts.antt =====
-- crates/pip-store/src/lib.rs: the table of direct attempts, `begin_direct_attempt`,
-- `complete_direct_attempt` and `fail_direct_attempt`. The rows are kept newest first beside the
-- tables of the ledger. What SHA-256 and serde_json make of a value are parameters.
pub mod Cooldown
pub mod Counts
pub mod Reports
pub mod Steps
pub mod Rows
pub mod Final
pub mod Orderly
pub mod Results
pub mod Delays
pub mod Outbox
pub mod Held
pub mod Kept
pub mod Owners
pub mod Charges
pub mod Repeats
mod Tests
use text.Mathlib.Text.{◌==◌ as str_eq}
use Prim.Native.String
use agent_p1p.Prelude.{
  ℕ, ◌+◌, ◌*◌, String, Bool, true, false, not, ◌&&◌, ◌||◌, Option, none, some, List, [], ◌∷◌, ltb,
  leb, ◌==◌, if◌then◌else◌, any, filter, length, ok, ◌>>=◌, ◌>>◌, fail_if,
}
use agent_p1p.Prelude.Text.{not_blank, bytes, trim}
use agent_p1p.Core.Domain.{decimal}
use agent_p1p.Store.{
  database, invalid_input, lease_lost, Stored, EvidenceInput, OutboxRow, Tables, Handle, i64_max,
  sql_u64, ensure_writable,
}
use agent_p1p.Store.Statements.{insert_evidence, update, count, is_open}
use agent_p1p.Store.Apply.{with_tables}
use agent_p1p.Store.Outbox.{ClaimedEffect, is_running}

pub data DirectAttemptStatus : Type 0 where
  running complete failed : DirectAttemptStatus

-- A row, with the text of its result or the value that is read of it.
pub record StoredDirectAttempt (Value : Type 0) : Type 0 where
  pub attempt_id : ℕ
  pub effect_id : String
  pub case_key : String
  pub state_revision : ℕ
  pub task_id : String
  pub lease_owner : String
  pub lease_until : ℕ
  pub started_at : ℕ
  pub completed_at : Option ℕ
  pub status : DirectAttemptStatus
  pub result : Option Value
  pub result_sha256 : Option String
  pub error : Option String

-- The handle with its table of direct attempts, whose results are texts.
pub record DirectStore (Value : Type 0) : Type 0 where
  pub handle : Handle Value
  pub attempts : List (StoredDirectAttempt String)

-- What is asked of JSON: the text of a value and the value that a text is read as, and the record
-- of an outage with the fields that are read back from it; and the SHA-256 of a text.
pub record Json (Value : Type 0) : Type 0 where
  pub is_object : Value → Bool
  pub text : Value → String
  pub parse : String → Option Value
  pub sha256 : String → String
  pub outage : ℕ → String → String → ℕ → Value  -- attempt_id, cause, error, retry_at
  pub cause_of : Value → Option String
  pub error_of : Value → Option String
  pub retry_at_of : Value → Option ℕ

abbrev pub is_running_status : DirectAttemptStatus → Bool
is_running_status running = true
is_running_status _ = false

abbrev pub is_complete_status : DirectAttemptStatus → Bool
is_complete_status complete = true
is_complete_status _ = false

abbrev pub is_failed_status : DirectAttemptStatus → Bool
is_failed_status failed = true
is_failed_status _ = false

abbrev pub max_result_bytes : ℕ
max_result_bytes = 4 * 1024 * 1024

-- `format!("direct-unavailable:{attempt_id}")`
abbrev pub unavailable_id : ℕ → String
unavailable_id attempt_id = String.◌++◌ "direct-unavailable:" (decimal attempt_id)

-- `format!("direct-attempt:{attempt_id}")`
abbrev pub attempt_name : ℕ → String
attempt_name attempt_id = String.◌++◌ "direct-attempt:" (decimal attempt_id)

-- The row of the outbox that this lease was taken on, at a time within the lease.
abbrev pub is_exact_lease : ClaimedEffect → ℕ → OutboxRow → Bool
is_exact_lease claim started_at row =
    str_eq row.effect_id claim.effect_id
    && str_eq row.case_key claim.case_key
    && row.state_revision == claim.state_revision
    && elim row.lease [
      | none ↦ false
      | some (owner, until) ↦ str_eq owner claim.lease_owner && until == claim.lease_until
    ]
    && is_running started_at row.lease
    && is_open row

unfoldable pub check_failure : ℕ → String → String → String → Stored (Unit {0})
check_failure id owner error message =
    fail_if
      (id == 0 || not (not_blank owner) || not (not_blank error) || ltb 4096 (length (bytes error)))
      (invalid_input message)

unfoldable pub check_claim : ClaimedEffect → String → ℕ → Stored (Unit {0})
check_claim claim task_id started_at =
    fail_if
      (not (not_blank task_id)
        || not (not_blank claim.effect_id)
        || not (not_blank claim.case_key)
        || not (not_blank claim.lease_owner)
        || ltb claim.lease_until started_at)
      (invalid_input "a valid leased effect, task id, and start time are required")

unfoldable pub check_lease : ClaimedEffect → ℕ → List OutboxRow → Stored (Unit {0})
check_lease claim started_at rows = do
  sql_u64 claim.state_revision
  sql_u64 claim.lease_until
  sql_u64 started_at
  fail_if (not (any (is_exact_lease claim started_at) rows)) (lease_lost claim.effect_id)

module _ {Value : Type 0} where
  abbrev pub is_running_of : String → StoredDirectAttempt Value → Bool
  is_running_of id attempt = str_eq attempt.effect_id id && is_running_status attempt.status

  abbrev pub is_complete_of : String → StoredDirectAttempt Value → Bool
  is_complete_of id attempt = str_eq attempt.effect_id id && is_complete_status attempt.status

  -- `effect_id = ?2 AND status = 'RUNNING' AND lease_until < ?1`
  abbrev pub is_expired : String → ℕ → StoredDirectAttempt Value → Bool
  is_expired id now attempt = is_running_of id attempt && ltb attempt.lease_until now

  -- `attempt_id = ? AND lease_owner = ? AND status = 'RUNNING' AND started_at <= ?`
  abbrev pub is_current : ℕ → String → ℕ → StoredDirectAttempt Value → Bool
  is_current id owner now attempt =
      attempt.attempt_id == id
      && str_eq attempt.lease_owner owner
      && is_running_status attempt.status
      && leb attempt.started_at now

  -- A complete attempt stands beside the one that would complete.
  abbrev pub is_conflict :
      List (StoredDirectAttempt Value) → ℕ → String → ℕ → StoredDirectAttempt Value → Bool
  is_conflict attempts id owner now attempt =
      is_current id owner now attempt && any (is_complete_of attempt.effect_id) attempts

  abbrev pub fail_row : ℕ → String → StoredDirectAttempt Value → StoredDirectAttempt Value
  fail_row now error attempt = record attempt {
    completed_at = some now;
    status = failed;
    error = some error;
  }

  abbrev pub complete_row :
      ℕ → Value → String → StoredDirectAttempt Value → StoredDirectAttempt Value
  complete_row now result digest attempt = record attempt {
    completed_at = some now;
    status = complete;
    result = some result;
    result_sha256 = some digest;
  }

  -- `AUTOINCREMENT`, where no row is deleted: one more than the greatest id.
  abbrev pub last_id : List (StoredDirectAttempt Value) → ℕ
  last_id [] = 0
  last_id (attempt ∷ attempts) =
      if ltb (last_id attempts) attempt.attempt_id then attempt.attempt_id else last_id attempts

  abbrev pub new_attempt : ClaimedEffect → String → ℕ → ℕ → StoredDirectAttempt Value
  new_attempt claim task_id started_at id = record {
    attempt_id = id;
    effect_id = claim.effect_id;
    case_key = claim.case_key;
    state_revision = claim.state_revision;
    task_id = task_id;
    lease_owner = claim.lease_owner;
    lease_until = claim.lease_until;
    started_at = started_at;
    completed_at = none;
    status = running;
    result = none;
    result_sha256 = none;
    error = none;
  }

  -- The row is refused by the schema where an attempt of the effect is running.
  unfoldable pub insert_attempt :
      List (StoredDirectAttempt Value)
      → ClaimedEffect
      → String
      → ℕ
      → Stored (List (StoredDirectAttempt Value) × ℕ)
  insert_attempt attempts claim task_id started_at = do
    sql_u64 claim.state_revision
    sql_u64 claim.lease_until
    sql_u64 started_at
    fail_if
        (claim.state_revision == 0
          || ltb i64_max (last_id attempts + 1)
          || any (is_running_of claim.effect_id) attempts)
        database
    ok (
      new_attempt claim task_id started_at (last_id attempts + 1) ∷ attempts,
      last_id attempts + 1,
    )

  abbrev pub expire :
      String → ℕ → List (StoredDirectAttempt Value) → List (StoredDirectAttempt Value)
  expire effect_id now attempts =
      update (is_expired effect_id now) (fail_row now "worker lease expired before completion")
        attempts

  -- The update that ends the attempt, and its count of rows.
  unfoldable pub end_attempt :
      List (StoredDirectAttempt Value)
      → ℕ
      → String
      → ℕ
      → String
      → String
      → Stored (List (StoredDirectAttempt Value))
  end_attempt attempts id owner now error name = do
    sql_u64 now
    sql_u64 id
    fail_if (not (count (is_current id owner now) attempts == 1)) (lease_lost name)
    ok (update (is_current id owner now) (fail_row now error) attempts)

module _ {Value : Type 0} where
  -- The digest of `payload`, beside the text
  abbrev pub payload_digest : Json Value → Value → String
  payload_digest json result = json.sha256 (json.text result)

  module _ (json : Json Value) where
    abbrev pub outage_evidence : String → ℕ → String → String → ℕ → EvidenceInput Value
    outage_evidence effect_id attempt_id cause error retry_at = record {
      evidence_id = unavailable_id attempt_id;
      kind = "DIRECT_RUNTIME_UNAVAILABLE";
      source = effect_id;
      payload = json.outage attempt_id cause error retry_at;
    }

    -- `for (attempt_id, case_key) in expired`
    unfoldable pub record_expired :
        String → ℕ → Tables Value → List (StoredDirectAttempt String) → Stored (Tables Value)
    record_expired effect_id now t [] = ok t
    record_expired effect_id now t (attempt ∷ attempts) = do
      t ← insert_evidence json.is_object attempt.case_key now t (
          outage_evidence effect_id attempt.attempt_id "LEASE_EXPIRED"
            "worker lease expired before completion" now
          ∷ [])
      record_expired effect_id now t attempts

    unfoldable pub begin_direct_attempt :
        DirectStore Value → ClaimedEffect → String → ℕ → Stored (DirectStore Value × ℕ)
    begin_direct_attempt store claim task_id started_at = do
      ensure_writable store.handle
      check_claim claim task_id started_at
      check_lease claim started_at store.handle.tables.outbox
      t ←
          record_expired claim.effect_id started_at store.handle.tables
            (filter (is_expired claim.effect_id started_at) store.attempts)
      (attempts, id) ←
          insert_attempt (expire claim.effect_id started_at store.attempts) claim task_id started_at
      ok (record { handle = with_tables store.handle t; attempts = attempts }, id)

    unfoldable pub check_completion : ℕ → String → Value → Stored (Unit {0})
    check_completion id owner result = do
      fail_if (id == 0 || not (not_blank owner) || not (json.is_object result))
          (invalid_input "attempt, owner, and object result are required")
      fail_if (ltb max_result_bytes (length (bytes (json.text result))))
          (invalid_input "direct result is too large")

    -- The update is refused by the schema where the effect has a complete attempt.
    unfoldable pub complete_attempt :
        List (StoredDirectAttempt String)
        → ℕ
        → String
        → ℕ
        → Value
        → Stored (List (StoredDirectAttempt String))
    complete_attempt attempts id owner completed_at result = do
      sql_u64 completed_at
      sql_u64 id
      fail_if (not (count (is_current id owner completed_at) attempts == 1))
          (lease_lost (attempt_name id))
      fail_if (any (is_conflict attempts id owner completed_at) attempts) database
      ok (
          update (is_current id owner completed_at)
            (complete_row completed_at (json.text result) (payload_digest json result)) attempts)

    unfoldable pub complete_direct_attempt :
        DirectStore Value → ℕ → String → ℕ → Value → Stored (DirectStore Value)
    complete_direct_attempt store id owner completed_at result = do
      ensure_writable store.handle
      check_completion id owner result
      attempts ← complete_attempt store.attempts id owner completed_at result
      ok (record store { attempts = attempts })

  unfoldable pub fail_direct_attempt :
      DirectStore Value → ℕ → String → ℕ → String → Stored (DirectStore Value)
  fail_direct_attempt store id owner completed_at error = do
    ensure_writable store.handle
    check_failure id owner (trim error) "attempt, owner, and bounded error are required"
    attempts ← end_attempt store.attempts id owner completed_at (trim error) (attempt_name id)
    ok (record store { attempts = attempts })
