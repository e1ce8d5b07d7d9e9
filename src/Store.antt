-- ===== src/Store.antt =====
-- crates/pip-store/src/lib.rs: the tables of the ledger, as lists of rows with the newest first, and
-- what SQLite promises of a row that is inserted. A SHA-256 digest and the text of a JSON value are
-- parameters where they are needed; a payload is kept beside its digest.
pub mod Statements
pub mod Checks
pub mod Step
pub mod Apply
pub mod Creation
pub mod History
pub mod Control
pub mod Commands
pub mod Heartbeats
pub mod Outbox
pub mod Completion
pub mod Moves
pub mod Attempts
pub mod Runs
mod Tests
use agent_p1p.Prelude.{
  ℕ, ◌^◌, ◌-◌, String, Bool, Option, none, some, List, [], leb, if◌then◌else◌, Result, ok, err,
}
use agent_p1p.Core.ExactHead.{GitSha}
use agent_p1p.Controller.Ledger.{EffectPayload, EventInput, EffectInput, StoredCase}

pub data FaultPoint : Type 0 where
  after_event after_run after_evidence after_projection after_outbox between_transitions :
      FaultPoint

-- `rusqlite::Error` and `serde_json::Error` are kept as their kind.
pub data StoreError : Type 0 where
  database invalid_integer read_only : StoreError
  invalid_input missing_case idempotency_conflict lease_lost : String → StoreError
  stale_revision : ℕ → ℕ → StoreError
  injected_fault : FaultPoint → StoreError

abbrev pub Stored : Type 0 → Type 0
Stored A = Result A StoreError

pub record RunInput (Value : Type 0) : Type 0 where
  pub run_id : String
  pub task_id : String
  pub role : String
  pub payload : Value

pub record EvidenceInput (Value : Type 0) : Type 0 where
  pub evidence_id : String
  pub kind : String
  pub source : String
  pub payload : Value

pub record FindingInput (Value : Type 0) : Type 0 where
  pub finding_id : String
  pub origin_role : String
  pub reviewed_head_sha : String
  pub payload : Value

pub record NewCase (Value : Type 0) : Type 0 where
  pub case_key : String
  pub repository_id : ℕ
  pub issue_number : ℕ
  pub workflow_version : ℕ
  pub policy_revision : ℕ
  pub initial_state : String
  pub observed_at : ℕ
  pub event : EventInput Value
  pub effects : List EffectInput

pub record CaseRow : Type 0 where
  pub case : StoredCase
  pub created_at : ℕ
  pub updated_at : ℕ

-- `EventRecord`, and the row that it becomes.
pub record EventRow (Value : Type 0) : Type 0 where
  pub event : EventInput Value
  pub case_key : String
  pub state_revision : ℕ
  pub observed_at : ℕ
  pub command_hash : String
  pub previous_state : Option String
  pub next_state : String
  pub policy_revision : ℕ
  pub remediation_round : ℕ
  pub plan_version : ℕ
  pub pr_number : Option ℕ
  pub head_sha : Option GitSha

pub record RunRow (Value : Type 0) : Type 0 where
  pub run : RunInput Value
  pub case_key : String
  pub event_id : String
  pub accepted_at : ℕ

pub record EvidenceRow (Value : Type 0) : Type 0 where
  pub evidence : EvidenceInput Value
  pub case_key : String
  pub observed_at : ℕ

pub record FindingRow (Value : Type 0) : Type 0 where
  pub finding : FindingInput Value
  pub case_key : String
  pub event_id : String
  pub recorded_at : ℕ

pub record OutboxRow : Type 0 where
  pub effect_id : String
  pub case_key : String
  pub state_revision : ℕ
  pub effect_type : String
  pub payload : EffectPayload
  pub created_at : ℕ
  pub lease : Option (String × ℕ)  -- owner and end, NULL together
  pub delivered_at : Option ℕ
  pub superseded : Option (ℕ × String)  -- time and event, written together

pub record Tables (Value : Type 0) : Type 0 where
  pub cases : List CaseRow
  pub events : List (EventRow Value)
  pub runs : List (RunRow Value)
  pub evidence : List (EvidenceRow Value)
  pub findings : List (FindingRow Value)
  pub outbox : List OutboxRow

-- The open handle; the path is not read.
pub record Handle (Value : Type 0) : Type 0 where
  pub is_read_only : Bool
  pub tables : Tables Value

-- `i64::try_from`
abbrev pub i64_max : ℕ
i64_max = 9223372036854775807

-- The number that SQLite takes is the same.
abbrev pub sql_u64 : ℕ → Stored (Unit {0})
sql_u64 value = if leb value i64_max then ok tt else err invalid_integer

-- `.map(sql_u64).transpose()`
abbrev pub sql_option : Option ℕ → Stored (Unit {0})
sql_option none = ok tt
sql_option (some value) = sql_u64 value

abbrev pub ensure_writable : {Value : Type 0} → Handle Value → Stored (Unit {0})
ensure_writable handle = if handle.is_read_only then err read_only else ok tt
