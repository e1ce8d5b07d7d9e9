-- ===== src/Store/Attempts/Repeats.antt =====
-- crates/pip-store/src/lib.rs: a report of an outage that is made again.
use agent_p1p.Controller.Ledger.{EffectPayload}
use agent_p1p.Store.{OutboxRow, Stored}
use agent_p1p.Store.Checks.{Codec, Guards}
use agent_p1p.Store.Attempts.Steps.{Run}
use agent_p1p.Store.Attempts.Kept.{Run-Keeps}
use agent_p1p.Store.Attempts.Owners.{IsOwned, Run-IsOwned, end-IsOwned}
use agent_p1p.Store.Attempts.Charges.{insert_evidence-one}
use agent_p1p.Store.Attempts.Steps.{end_attempt_lem}
use text.Mathlib.Text.{◌==◌ as str_eq}
use text.Mathlib.TextEquality.{eq_iff}
use agent_p1p.Prelude.{
  ℕ, ◌≡◌, refl, sym, ◌∙◌, subst, ap, arith, String, true, false, not, Option, some, none, ok, inl,
  inr, >>=-eq-ok, >>-eq-ok, ok_or, ok_or-eq-ok, fail_if,
}
use agent_p1p.Store.Attempts.Reports.{IsReported, record_direct_unavailability_with_cause_lem}
use agent_p1p.Store.{
  EvidenceRow, sql_u64, ensure_writable, invalid_input, database, lease_lost, idempotency_conflict,
}
use agent_p1p.Store.Completion.{existing_evidence}
use agent_p1p.Store.Attempts.{
  StoredDirectAttempt, DirectStore, Json, unavailable_id, outage_evidence, check_failure,
}
use agent_p1p.Store.Attempts.Cooldown.{
  attempt_row, is_cause, same_error, settle_unavailability, record_direct_unavailability_with_cause,
}

-- What serde_json promises of a record that is built and read back.
pub record IsFaithful {Value : Type 0} (json : Json Value) : Type 0 where
  pub error_read :
      (id : ℕ) (cause error : String) (retry_at : ℕ)
      → json.error_of (json.outage id cause error retry_at) ≡ some error
  pub retry_read :
      (id : ℕ) (cause error : String) (retry_at : ℕ)
      → json.retry_at_of (json.outage id cause error retry_at) ≡ some retry_at

module _ {Value : Type 0} (json : Json Value) where
  -- What a repetition reads: the handle is writable, and the attempt and its outage are there.
  pub record IsNoted (store : DirectStore Value) (id : ℕ) (owner error : String) (retry_at : ℕ)
      : Type 0 where
    pub row : EvidenceRow Value
    pub writable : store.handle.is_read_only ≡ false
    pub owned : IsOwned store.attempts id owner
    pub stored : existing_evidence store.handle.tables.evidence (unavailable_id id) ≡ some row
    pub error_is : json.error_of row.evidence.payload ≡ some error
    pub retry_is : json.retry_at_of row.evidence.payload ≡ some retry_at

  IsNoted-repeats :
      (store : DirectStore Value) (id : ℕ) (owner error cause : String) (now retry_at : ℕ)
      → IsNoted store id owner error retry_at
      → is_cause cause ≡ true
      → check_failure id owner error "bounded runtime failure required" ≡ ok tt
      → sql_u64 id ≡ ok tt
      → record_direct_unavailability_with_cause json store id owner now error cause
        ≡ ok (store, retry_at)
  unfolding record_direct_unavailability_with_cause
  IsNoted-repeats store id owner error cause now retry_at noted cause_ok bounded in_range =
      let (attempt, found, owner_is) = noted.owned in
      rw
        (
          noted.writable,
          cause_ok,
          bounded,
          in_range,
          found,
          (eq_iff attempt.lease_owner owner).1 owner_is,
          noted.stored,
          noted.error_is,
          noted.retry_is,
          (eq_iff error error).1 refl,
        )
        refl

  -- What a report that was accepted has passed.
  record IsAccepted (store : DirectStore Value) (id : ℕ) (owner error : String) : Type 0 where
    writable : store.handle.is_read_only ≡ false
    bounded : check_failure id owner error "bounded runtime failure required" ≡ ok tt
    in_range : sql_u64 id ≡ ok tt
    owned : IsOwned store.attempts id owner
    same :
        (row : EvidenceRow Value)
        → existing_evidence store.handle.tables.evidence (unavailable_id id) ≡ some row
        → json.error_of row.evidence.payload ≡ some error

  is_same_error :
      (error : String) (old : Option String) → same_error json error old ≡ true → old ≡ some error
  is_same_error error none h = cc
  is_same_error error (some old) h = ap some ((eq_iff old error).0 h)

  settled_same :
      (store after : DirectStore Value) (id : ℕ) (owner : String) (now : ℕ) (error cause : String)
      (retry_at : ℕ) (attempt : StoredDirectAttempt String) (row : EvidenceRow Value)
      → settle_unavailability json store id owner now error cause attempt (some row)
        ≡ ok (after, retry_at)
      → json.error_of row.evidence.payload ≡ some error
  settled_same store after id owner now error cause retry_at attempt row h =
      let (same, _) =
        >>-eq-ok
          (fail_if (not (same_error json error (json.error_of row.evidence.payload)))
            (idempotency_conflict (unavailable_id id)))
          _ h in
      is_same_error error (json.error_of row.evidence.payload) (ground arith)

  accepted :
      (store after : DirectStore Value) (id : ℕ) (owner : String) (now : ℕ) (error cause : String)
      (retry_at : ℕ)
      → record_direct_unavailability_with_cause json store id owner now error cause
        ≡ ok (after, retry_at)
      → IsAccepted store id owner error
  unfolding record_direct_unavailability_with_cause
  accepted store after id owner now error cause retry_at h =
      let (writable, h1) = >>-eq-ok (ensure_writable store.handle) _ h in
      let (_, h2) =
        >>-eq-ok
          (fail_if (not (is_cause cause)) (invalid_input "stable unavailability cause required")) _
          h1 in
      let (bounded, h3) =
        >>-eq-ok (check_failure id owner error "bounded runtime failure required") _ h2 in
      let (in_range, h4) = >>-eq-ok (sql_u64 id) _ h3 in
      let (attempt, found, h5) = >>=-eq-ok (ok_or (attempt_row store.attempts id) database) _ h4 in
      let (owned, h6) =
        >>-eq-ok (fail_if (not (str_eq attempt.lease_owner owner)) (lease_lost (unavailable_id id)))
          _ h5 in
      record {
        writable = ground arith;
        bounded = bounded;
        in_range = in_range;
        owned = (
          attempt,
          ok_or-eq-ok (attempt_row store.attempts id) database found,
          (eq_iff attempt.lease_owner owner).0 (ground arith),
        );
        same = λ row old. settled_same store after id owner now error cause retry_at attempt row (
            subst
              (λ o.
                settle_unavailability json store id owner now error cause attempt o
                ≡ ok (after, retry_at))
              old h6);
      }

  module _ (faithful : IsFaithful json) where
    first-IsNoted :
        (store after : DirectStore Value) (id : ℕ) (owner : String) (now : ℕ) (error cause : String)
        (retry_at : ℕ) (attempt : StoredDirectAttempt String)
        → IsAccepted store id owner error
        → IsReported json store after id owner now error cause retry_at attempt
        → IsNoted after id owner error retry_at
    first-IsNoted store after id owner now error cause retry_at attempt accepts reported =
        let (_, ended) =
          end_attempt_lem store.attempts after.attempts id owner now error _ reported.ended in
        let noted =
          insert_evidence-one json.is_object attempt.case_key now store.handle.tables
            reported.tables (outage_evidence json attempt.effect_id id cause error retry_at)
            reported.noted in
        record {
          row = record {
            evidence = outage_evidence json attempt.effect_id id cause error retry_at;
            case_key = attempt.case_key;
            observed_at = now;
          };
          writable = rw reported.handle_after accepts.writable;
          owned =
              subst (λ rows. IsOwned rows id owner) (sym ended)
                (end-IsOwned store.attempts id owner owner now error accepts.owned);
          stored =
              rw
                (
                  reported.handle_after,
                  noted,
                  (eq_iff (unavailable_id id) (unavailable_id id)).1 refl,
                )
                refl;
          error_is = faithful.error_read id cause error retry_at;
          retry_is = faithful.retry_read id cause error retry_at;
        }

    reported-IsNoted :
        (store after : DirectStore Value) (id : ℕ) (owner : String) (now : ℕ) (error cause : String)
        (retry_at : ℕ)
        → record_direct_unavailability_with_cause json store id owner now error cause
          ≡ ok (after, retry_at)
        → IsAccepted store id owner error
        → IsNoted after id owner error retry_at
    reported-IsNoted store after id owner now error cause retry_at h accepts =
        elim (record_direct_unavailability_with_cause_lem json store after id owner now error cause
          retry_at h) [
            | inl (_, (attempt, _, reported)) ↦
                first-IsNoted store after id owner now error cause retry_at attempt accepts reported
            | inr (same, (row, stored, retry_is)) ↦
                subst (λ s. IsNoted s id owner error retry_at) (sym same)
                  (record {
                    row = row;
                    writable = accepts.writable;
                    owned = accepts.owned;
                    stored = stored;
                    error_is = accepts.same row stored;
                    retry_is = retry_is;
                  })
          ]

    module _ (codec : Codec Value) (guards : Guards Value)
        (read : OutboxRow → Stored EffectPayload) where
      Run-IsNoted :
          (after later : DirectStore Value) (id : ℕ) (owner error : String) (retry_at : ℕ)
          → Run json codec guards read after later
          → IsNoted after id owner error retry_at
          → IsNoted later id owner error retry_at
      Run-IsNoted after later id owner error retry_at run noted =
          let (kept, mode) = Run-Keeps json codec guards read run in
          record {
            row = noted.row;
            writable = mode ∙ noted.writable;
            owned = Run-IsOwned json codec guards read id owner run noted.owned;
            stored = kept (unavailable_id id) noted.row noted.stored;
            error_is = noted.error_is;
            retry_is = noted.retry_is;
          }

      -- A report of an outage that was accepted is accepted again after any further steps of the
      -- store, with the same retry time, and changes nothing, at whatever time and with whatever
      -- valid cause it is repeated.
      pub report_is_repeatable :
          (store after later : DirectStore Value) (id : ℕ) (owner : String) (now now' : ℕ)
          (error cause cause' : String) (retry_at : ℕ)
          → record_direct_unavailability_with_cause json store id owner now error cause
            ≡ ok (after, retry_at)
          → Run json codec guards read after later
          → is_cause cause' ≡ true
          → record_direct_unavailability_with_cause json later id owner now' error cause'
            ≡ ok (later, retry_at)
      report_is_repeatable store after later id owner now now' error cause cause' retry_at h run
            cause_ok =
          let accepts = accepted store after id owner now error cause retry_at h in
          IsNoted-repeats later id owner error cause' now' retry_at
            (Run-IsNoted after later id owner error retry_at run
              (reported-IsNoted store after id owner now error cause retry_at h accepts))
            cause_ok accepts.bounded accepts.in_range
