-- ===== src/Store/Statements.antt =====
-- crates/pip-store/src/lib.rs: the statements of the transactions, each on the tables. A statement
-- that violates a key of the schema is refused.
use text.Mathlib.Text.{◌==◌ as str_eq}
use agent_p1p.Prelude.{
  ℕ, suc, String, Bool, not, ◌&&◌, ◌||◌, Option, none, some, List, [], ◌∷◌, ◌==◌, if◌then◌else◌,
  is_some, is_none, any, length, ok, ◌>>◌, fail_if,
}
use agent_p1p.Prelude.Text.{not_blank, bytes}
use agent_p1p.Controller.Ledger.{EffectInput, StoredCase}
use agent_p1p.Store.{
  FaultPoint, after_event, after_run, after_evidence, after_projection, after_outbox,
  between_transitions, database, invalid_input, injected_fault, Stored, RunInput, EvidenceInput,
  FindingInput, CaseRow, EventRow, RunRow, OutboxRow, Tables, sql_u64, sql_option,
}

abbrev pub fault_number : FaultPoint → ℕ
fault_number after_event = 0
fault_number after_run = 1
fault_number after_evidence = 2
fault_number after_projection = 3
fault_number after_outbox = 4
fault_number between_transitions = 5

abbrev pub inject : Option FaultPoint → FaultPoint → Stored (Unit {0})
inject none current = ok tt
inject (some requested) current =
    fail_if (fault_number requested == fault_number current) (injected_fault current)

-- `SELECT … FROM cases WHERE case_key = ?1`
abbrev pub query_case : List CaseRow → String → Option StoredCase
query_case [] key = none
query_case (row ∷ rows) key =
    if str_eq row.case.case_key key then some row.case else query_case rows key

module _ {Value : Type 0} where
  -- `SELECT case_key, command_sha256 FROM events WHERE event_id = ?1`
  abbrev pub existing_event : List (EventRow Value) → String → Option (String × String)
  existing_event [] id = none
  existing_event (row ∷ rows) id =
      if str_eq row.event.event_id id
      then some (row.case_key, row.command_hash)
      else existing_event rows id

  abbrev pub same_revision : EventRow Value → EventRow Value → Bool
  same_revision row other =
      str_eq row.case_key other.case_key && row.state_revision == other.state_revision

  unfoldable pub insert_event : Tables Value → EventRow Value → Stored (Tables Value)
  insert_event t row = do
    sql_u64 row.state_revision
    sql_u64 row.observed_at
    sql_u64 row.policy_revision
    sql_option row.pr_number
    fail_if (is_some (existing_event t.events row.event.event_id)) database
    fail_if (any (same_revision row) t.events) database
    fail_if (row.state_revision == 0 || row.policy_revision == 0) database
    ok (record t { events = row ∷ t.events })

  unfoldable pub insert_run : Tables Value → RunRow Value → Stored (Tables Value)
  insert_run t row = do
    fail_if
        (not (not_blank row.run.run_id)
          || not (not_blank row.run.task_id)
          || not (not_blank row.run.role))
        (invalid_input "run identity and role are required")
    sql_u64 row.accepted_at
    fail_if
        (any
          (λ old.
            str_eq old.run.run_id row.run.run_id
            || str_eq old.event_id row.event_id
            || str_eq old.run.task_id row.run.task_id)
          t.runs)
        database
    ok (record t { runs = row ∷ t.runs })

  -- `if let Some(run) = &input.run`
  abbrev pub insert_runs :
      Tables Value → Option (RunInput Value) → String → String → ℕ → Stored (Tables Value)
  insert_runs t none case_key event_id at = ok t
  insert_runs t (some run) case_key event_id at =
      insert_run t
        (record { run = run; case_key = case_key; event_id = event_id; accepted_at = at })

  module _ (is_object : Value → Bool) (case_key : String) (at : ℕ) where
    abbrev pub add_evidence : EvidenceInput Value → Tables Value → Tables Value
    add_evidence item t = record t {
      evidence = record { evidence = item; case_key = case_key; observed_at = at } ∷ t.evidence;
    }

    abbrev pub add_finding : String → FindingInput Value → Tables Value → Tables Value
    add_finding event_id item t = record t {
      findings =
          record { finding = item; case_key = case_key; event_id = event_id; recorded_at = at }
          ∷ t.findings;
    }

    unfoldable pub insert_evidence :
        Tables Value → List (EvidenceInput Value) → Stored (Tables Value)
    insert_evidence t [] = ok t
    insert_evidence t (item ∷ items) = do
      fail_if
          (not (not_blank item.evidence_id)
            || not (not_blank item.kind)
            || not (not_blank item.source)
            || not (is_object item.payload))
          (invalid_input "evidence identity, kind, source, and object payload are required")
      sql_u64 at
      fail_if (any (λ old. str_eq old.evidence.evidence_id item.evidence_id) t.evidence) database
      insert_evidence (add_evidence item t) items

    unfoldable pub insert_findings :
        String → Tables Value → List (FindingInput Value) → Stored (Tables Value)
    insert_findings event_id t [] = ok t
    insert_findings event_id t (item ∷ items) = do
      fail_if
          (not (not_blank item.finding_id)
            || not (not_blank item.origin_role)
            || not (length (bytes item.reviewed_head_sha) == 40)
            || not (is_object item.payload))
          (invalid_input "finding identity, origin, exact head, and object payload are required")
      sql_u64 at
      fail_if
          (any
            (λ old.
              str_eq old.case_key case_key
              && str_eq old.event_id event_id
              && str_eq old.finding.origin_role item.origin_role
              && str_eq old.finding.finding_id item.finding_id)
            t.findings)
          database
      insert_findings event_id (add_finding event_id item t) items

-- `case_key = ?8 AND state_revision = ?9`
abbrev pub is_case_at : String → ℕ → CaseRow → Bool
is_case_at key revision row = str_eq row.case.case_key key && row.case.state_revision == revision

abbrev pub count {ℓ} : {A : Type ℓ} → (A → Bool) → List A → ℕ
count p [] = 0
count p (x ∷ xs) = if p x then suc (count p xs) else count p xs

-- `UPDATE … SET … WHERE …`
abbrev pub update {ℓ} : {A : Type ℓ} → (A → Bool) → (A → A) → List A → List A
update chosen change [] = []
update chosen change (row ∷ rows) =
    (if chosen row then change row else row) ∷ update chosen change rows

-- `delivered_at IS NULL AND superseded_at IS NULL`
abbrev pub is_open : OutboxRow → Bool
is_open row = is_none row.delivered_at && is_none row.superseded

module _ (case_key : String) (state_revision created_at : ℕ) where
  abbrev pub new_effect : EffectInput → OutboxRow
  new_effect effect = record {
    effect_id = effect.effect_id;
    case_key = case_key;
    state_revision = state_revision;
    effect_type = effect.effect_type;
    payload = effect.payload;
    created_at = created_at;
    lease = none;
    delivered_at = none;
    superseded = none;
  }

  unfoldable pub insert_effects : List OutboxRow → List EffectInput → Stored (List OutboxRow)
  insert_effects rows [] = ok rows
  insert_effects rows (effect ∷ effects) = do
    fail_if (not (not_blank effect.effect_id) || not (not_blank effect.effect_type))
        (invalid_input "effect identity and type are required")
    sql_u64 state_revision
    sql_u64 created_at
    fail_if (any (λ old. str_eq old.effect_id effect.effect_id) rows) database
    fail_if (state_revision == 0) database
    insert_effects (new_effect effect ∷ rows) effects
