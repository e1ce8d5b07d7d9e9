-- ===== src/Store/Attempts/Reports.antt =====
-- crates/pip-store/src/lib.rs: what the report of an outage has done to the store.
use agent_p1p.Prelude.{
  ℕ, ◌≡◌, sym, ◌∙◌, subst, ap, String, not, List, [], ◌∷◌, ok, >>=-eq-ok, >>-eq-ok, ok_injective,
  fail_if, ok_or, none, some, ◌⊎◌, inl, inr, Option-cases, ok_or-eq-ok,
}
use agent_p1p.Store.{
  OutboxRow, ensure_writable, sql_u64, invalid_input, database, lease_lost, EvidenceRow, Tables,
  idempotency_conflict,
}
use agent_p1p.Store.Statements.{count, insert_evidence}
use text.Mathlib.Text.{◌==◌ as str_eq}
use agent_p1p.Store.Apply.{with_tables}
use agent_p1p.Store.Completion.{existing_evidence}
use agent_p1p.Store.Attempts.{
  StoredDirectAttempt, DirectStore, Json, check_failure, end_attempt, outage_evidence,
  unavailable_id,
}
use agent_p1p.Store.Attempts.Cooldown.{
  is_outage_of, is_cause, same_error, first_unavailability, next_retry, hold_effect, attempt_row,
  settle_unavailability, record_direct_unavailability_with_cause,
}

module _ {Value : Type 0} where
  -- What the first report of an outage has done.
  pub record IsReported (json : Json Value) (store store' : DirectStore Value) (id : ℕ)
      (owner : String) (now : ℕ) (error cause : String) (retry_at : ℕ)
      (attempt : StoredDirectAttempt String) : Type 0 where
    pub tables : Tables Value
    pub rows : List OutboxRow
    pub delayed :
        next_retry now (count (is_outage_of attempt.effect_id) store.handle.tables.evidence)
        ≡ ok retry_at
    pub ended :
        end_attempt store.attempts id owner now error (unavailable_id id) ≡ ok store'.attempts
    pub noted :
        insert_evidence json.is_object attempt.case_key now store.handle.tables
          (outage_evidence json attempt.effect_id id cause error retry_at ∷ [])
        ≡ ok tables
    pub held :
        hold_effect tables.outbox attempt.effect_id owner retry_at (unavailable_id id) ≡ ok rows
    pub handle_after : store'.handle ≡ with_tables store.handle (record tables { outbox = rows })

  module _ (json : Json Value) (store store' : DirectStore Value) (id : ℕ) (owner : String)
      (now : ℕ) (error cause : String) (retry_at : ℕ) where
    pub first_unavailability-IsReported :
        (attempt : StoredDirectAttempt String)
        → first_unavailability json store id owner now error cause attempt ≡ ok (store', retry_at)
        → IsReported json store store' id owner now error cause retry_at attempt
    unfolding first_unavailability
    first_unavailability-IsReported attempt h =
        let (retry, delayed, h1) =
          >>=-eq-ok
            (next_retry now (count (is_outage_of attempt.effect_id) store.handle.tables.evidence)) _
            h in
        let (attempts, ended, h2) =
          >>=-eq-ok (end_attempt store.attempts id owner now error (unavailable_id id)) _ h1 in
        let (t, noted, h3) =
          >>=-eq-ok
            (insert_evidence json.is_object attempt.case_key now store.handle.tables
              (outage_evidence json attempt.effect_id id cause error retry ∷ []))
            _ h2 in
        let (rows, held, h4) =
          >>=-eq-ok (hold_effect t.outbox attempt.effect_id owner retry (unavailable_id id)) _ h3 in
        let is_store = ap (λ p. p.0) (ok_injective h4) in
        let is_retry = ap (λ p. p.1) (ok_injective h4) in
        record {
          tables = t;
          rows = rows;
          delayed =
              subst
                (λ r.
                  next_retry now
                    (count (is_outage_of attempt.effect_id) store.handle.tables.evidence)
                  ≡ ok r)
                is_retry delayed;
          ended =
              subst
                (λ s.
                  end_attempt store.attempts id owner now error (unavailable_id id) ≡ ok s.attempts)
                is_store ended;
          noted =
              subst
                (λ r.
                  insert_evidence json.is_object attempt.case_key now store.handle.tables
                    (outage_evidence json attempt.effect_id id cause error r ∷ [])
                  ≡ ok t)
                is_retry noted;
          held =
              subst
                (λ r. hold_effect t.outbox attempt.effect_id owner r (unavailable_id id) ≡ ok rows)
                is_retry held;
          handle_after = sym (ap (λ s. s.handle) is_store);
        }

    -- A report is the first of its attempt, or a repetition that changes nothing.
    pub record_direct_unavailability_with_cause_lem :
        record_direct_unavailability_with_cause json store id owner now error cause
          ≡ ok (store', retry_at)
        → ((existing_evidence store.handle.tables.evidence (unavailable_id id) ≡ none)
            × ((attempt : StoredDirectAttempt String) × (attempt_row store.attempts id
                  ≡ some attempt)
                × IsReported json store store' id owner now error cause retry_at attempt))
          ⊎ ((store' ≡ store)
              × ((row : EvidenceRow Value) × (existing_evidence store.handle.tables.evidence
                      (unavailable_id id)
                    ≡ some row)
                  × (json.retry_at_of row.evidence.payload ≡ some retry_at)))
    unfolding record_direct_unavailability_with_cause
    record_direct_unavailability_with_cause_lem h =
        let (_, h1) = >>-eq-ok (ensure_writable store.handle) _ h in
        let (_, h2) =
          >>-eq-ok
            (fail_if (not (is_cause cause)) (invalid_input "stable unavailability cause required"))
            _ h1 in
        let (_, h3) = >>-eq-ok (check_failure id owner error _) _ h2 in
        let (_, h4) = >>-eq-ok (sql_u64 id) _ h3 in
        let (attempt, found, h5) =
          >>=-eq-ok (ok_or (attempt_row store.attempts id) database) _ h4 in
        let (_, h6) =
          >>-eq-ok
            (fail_if (not (str_eq attempt.lease_owner owner)) (lease_lost (unavailable_id id))) _
            h5 in
        elim (Option-cases (existing_evidence store.handle.tables.evidence (unavailable_id id))) [
          | inl new ↦ inl (
            new,
            (
              attempt,
              ok_or-eq-ok _ database found,
              first_unavailability-IsReported attempt (
                  subst
                    (λ o.
                      settle_unavailability json store id owner now error cause attempt o
                      ≡ ok (store', retry_at))
                    new h6),
            ),
          )
          | inr (row, old) ↦
              let again =
                subst
                  (λ o.
                    settle_unavailability json store id owner now error cause attempt o
                    ≡ ok (store', retry_at))
                  old h6 in
              let (_, h7) =
                >>-eq-ok
                  (fail_if (not (same_error json error (json.error_of row.evidence.payload)))
                    (idempotency_conflict (unavailable_id id)))
                  _ again in
              let (retry, read, h8) =
                >>=-eq-ok (ok_or (json.retry_at_of row.evidence.payload) _) _ h7 in
              inr (
                sym (ap (λ p. p.0) (ok_injective h8)),
                (
                  row,
                  old,
                  ok_or-eq-ok (json.retry_at_of row.evidence.payload)
                        (invalid_input "invalid cooldown") read
                      ∙ ap some (ap (λ p. p.1) (ok_injective h8)),
                ),
              )
        ]
