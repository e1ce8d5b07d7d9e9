-- ===== src/Store/Attempts/Cooldown.antt =====
-- crates/pip-store/src/lib.rs: attempts that end with a delay of their effect,
-- `record_direct_unavailability_with_cause` and `fail_direct_attempt_with_cooldown`.
use text.Mathlib.Text.{◌==◌ as str_eq}
use agent_p1p.Prelude.{
  ℕ, ◌*◌, ◌^◌, String, Bool, false, not, ◌&&◌, ◌||◌, Option, none, some, List, [], ◌∷◌, ltb, leb,
  ◌==◌, if◌then◌else◌, is_empty, all, ok, ◌>>=◌, ◌>>◌, fail_if, ok_or,
}
use agent_p1p.Prelude.Text.{bytes, trim}
use agent_p1p.Core.Domain.{checked_add_u64, u32_max}
use agent_p1p.Store.{
  database, invalid_integer, invalid_input, lease_lost, idempotency_conflict, Stored, EvidenceRow,
  OutboxRow, sql_u64, ensure_writable,
}
use agent_p1p.Store.Statements.{insert_evidence, update, count}
use agent_p1p.Store.Apply.{with_tables}
use agent_p1p.Store.Outbox.{is_held, with_lease}
use agent_p1p.Store.Completion.{existing_evidence}
use agent_p1p.Store.Attempts.{
  StoredDirectAttempt, DirectStore, Json, unavailable_id, attempt_name, outage_evidence,
  check_failure, end_attempt,
}

-- The stable token of a cause: capitals and underscores.
abbrev pub is_cause : String → Bool
is_cause cause =
    not (is_empty (bytes cause))
    && all (λ byte. (leb 0x41 byte && leb byte 0x5A) || byte == 0x5F) (bytes cause)

abbrev pub min : ℕ → ℕ → ℕ
min a b = if leb a b then a else b

-- `(60_u64 * (1_u64 << outages.min(6))).min(3600)`
abbrev pub outage_delay : ℕ → ℕ
outage_delay outages = min (60 * 2 ^ min outages 6) 3600

-- The lease of the owner is moved on, and with it the time of the next claim.
unfoldable pub hold_effect : List OutboxRow → String → String → ℕ → String → Stored (List OutboxRow)
hold_effect rows id owner retry_at name = do
  sql_u64 retry_at
  fail_if (not (count (is_held id owner) rows == 1)) (lease_lost name)
  ok (update (is_held id owner) (with_lease (some (owner, retry_at))) rows)

-- The count is read as a `u32`.
unfoldable pub next_retry : ℕ → ℕ → Stored ℕ
next_retry now outages = do
  fail_if (ltb u32_max outages) database
  ok_or (checked_add_u64 now (outage_delay outages)) invalid_integer

module _ {Value : Type 0} where
  -- `WHERE attempt_id = ?1`
  abbrev pub attempt_row : List (StoredDirectAttempt Value) → ℕ → Option (StoredDirectAttempt Value)
  attempt_row [] id = none
  attempt_row (attempt ∷ attempts) id =
      if attempt.attempt_id == id then some attempt else attempt_row attempts id

module _ {Value : Type 0} where
  abbrev pub is_outage_of : String → EvidenceRow Value → Bool
  is_outage_of effect_id row =
      str_eq row.evidence.kind "DIRECT_RUNTIME_UNAVAILABLE" && str_eq row.evidence.source effect_id

  module _ (json : Json Value) where
    abbrev pub same_error : String → Option String → Bool
    same_error error none = false
    same_error error (some old) = str_eq old error

    -- The first report of an attempt.
    unfoldable pub first_unavailability :
        DirectStore Value
        → ℕ
        → String
        → ℕ
        → String
        → String
        → StoredDirectAttempt String
        → Stored (DirectStore Value × ℕ)
    first_unavailability store id owner now error cause attempt = do
      retry_at ←
          next_retry now (count (is_outage_of attempt.effect_id) store.handle.tables.evidence)
      attempts ← end_attempt store.attempts id owner now error (unavailable_id id)
      t ←
          insert_evidence json.is_object attempt.case_key now store.handle.tables
            (outage_evidence json attempt.effect_id id cause error retry_at ∷ [])
      rows ← hold_effect t.outbox attempt.effect_id owner retry_at (unavailable_id id)
      ok (
        record {
          handle = with_tables store.handle (record t { outbox = rows });
          attempts = attempts;
        },
        retry_at,
      )

    -- `if let Some(previous) = previous`
    abbrev pub settle_unavailability :
        DirectStore Value
        → ℕ
        → String
        → ℕ
        → String
        → String
        → StoredDirectAttempt String
        → Option (EvidenceRow Value)
        → Stored (DirectStore Value × ℕ)
    settle_unavailability store id owner now error cause attempt none =
        first_unavailability store id owner now error cause attempt
    settle_unavailability store id owner now error cause attempt (some previous) = do
      fail_if (not (same_error error (json.error_of previous.evidence.payload)))
          (idempotency_conflict (unavailable_id id))
      retry_at ←
          ok_or (json.retry_at_of previous.evidence.payload) (invalid_input "invalid cooldown")
      ok (store, retry_at)

    unfoldable pub record_direct_unavailability_with_cause :
        DirectStore Value → ℕ → String → ℕ → String → String → Stored (DirectStore Value × ℕ)
    record_direct_unavailability_with_cause store id owner now error cause = do
      ensure_writable store.handle
      fail_if (not (is_cause cause)) (invalid_input "stable unavailability cause required")
      check_failure id owner error "bounded runtime failure required"
      sql_u64 id
      attempt ← ok_or (attempt_row store.attempts id) database
      fail_if (not (str_eq attempt.lease_owner owner)) (lease_lost (unavailable_id id))
      settle_unavailability store id owner now error cause attempt
          (existing_evidence store.handle.tables.evidence (unavailable_id id))

    abbrev pub record_direct_unavailability :
        DirectStore Value → ℕ → String → ℕ → String → Stored (DirectStore Value × ℕ)
    record_direct_unavailability store id owner now error =
        record_direct_unavailability_with_cause store id owner now error "PROVIDER_UNAVAILABLE"

  unfoldable pub fail_direct_attempt_with_cooldown :
      DirectStore Value → ℕ → String → ℕ → String → ℕ → Stored (DirectStore Value × ℕ)
  fail_direct_attempt_with_cooldown store id owner completed_at error cooldown = do
    ensure_writable store.handle
    check_failure id owner (trim error) "attempt, owner, and bounded error are required"
    retry_at ← ok_or (checked_add_u64 completed_at cooldown) invalid_integer
    sql_u64 id
    attempt ← ok_or (attempt_row store.attempts id) (lease_lost (attempt_name id))
    attempts ← end_attempt store.attempts id owner completed_at (trim error) (attempt_name id)
    rows ← hold_effect store.handle.tables.outbox attempt.effect_id owner retry_at (attempt_name id)
    ok (
      record {
        handle = with_tables store.handle (record store.handle.tables { outbox = rows });
        attempts = attempts;
      },
      retry_at,
    )
