-- ===== src/Store/Attempts/Outbox.antt =====
-- crates/pip-store/src/lib.rs: what the steps on direct attempts make of the outbox: the rows keep
-- their effects, and each effect its one row.
use agent_p1p.Prelude.{
  ℕ, ◌≡◌, refl, sym, subst, ap, arith, String, List, [], ◌∷◌, ok, inl, inr, filter, ok_or,
  >>=-eq-ok, >>-eq-ok, ok_injective,
}
use agent_p1p.Prelude.Text.{trim}
use agent_p1p.Core.Domain.{checked_add_u64}
use agent_p1p.Controller.Ledger.{EffectPayload}
use agent_p1p.Store.{
  OutboxRow, Stored, Tables, ensure_writable, sql_u64, invalid_integer, lease_lost,
}
use agent_p1p.Store.Statements.{insert_evidence}
use agent_p1p.Store.Checks.{Codec, Guards}
use agent_p1p.Store.Step.Facts.{Same, Same-trans, insert_evidence-Same}
use agent_p1p.Store.Apply.{with_tables}
use agent_p1p.Store.Outbox.{ClaimedEffect}
use agent_p1p.Store.Outbox.Rows.{IsUnique}
use agent_p1p.Store.Moves.Leases.{Move-IsUnique}
use agent_p1p.Store.Attempts.{
  StoredDirectAttempt, DirectStore, Json, record_expired, is_expired, expire, outage_evidence,
  check_claim, check_lease, check_completion, check_failure, insert_attempt, complete_attempt,
  end_attempt, attempt_name, begin_direct_attempt, complete_direct_attempt, fail_direct_attempt,
}
use agent_p1p.Store.Attempts.Cooldown.{
  attempt_row, hold_effect, record_direct_unavailability_with_cause,
  fail_direct_attempt_with_cooldown,
}
use agent_p1p.Store.Attempts.Reports.{record_direct_unavailability_with_cause_lem}
use agent_p1p.Store.Attempts.Steps.{
  Step, begins, finishes, fails, reports, cools, moves, Run, start, then_step, empty_store,
}
use agent_p1p.Store.Attempts.Delays.{hold_effect-IsUnique}

module _ {Value : Type 0} where
  pub record_expired-Same :
      (json : Json Value) (effect_id : String) (now : ℕ) (t t' : Tables Value)
      (attempts : List (StoredDirectAttempt String))
      → record_expired json effect_id now t attempts ≡ ok t'
      → Same t t'
  unfolding record_expired
  record_expired-Same json effect_id now t t' [] h =
      subst (Same t) (ok_injective h) (refl, refl, refl)
  record_expired-Same json effect_id now t t' (attempt ∷ attempts) h =
      let (u, one, rest) =
        >>=-eq-ok
          (insert_evidence json.is_object attempt.case_key now t (
            outage_evidence json effect_id attempt.attempt_id "LEASE_EXPIRED"
              "worker lease expired before completion" now
            ∷ []))
          _ h in
      Same-trans t u t' (insert_evidence-Same json.is_object attempt.case_key now t u _ one)
        (record_expired-Same json effect_id now u t' attempts rest)

  pub begin_direct_attempt-handle :
      (json : Json Value) (store store' : DirectStore Value) (claim : ClaimedEffect)
      (task_id : String) (at id : ℕ)
      → begin_direct_attempt json store claim task_id at ≡ ok (store', id)
      → (t : Tables Value) × (record_expired json claim.effect_id at store.handle.tables
            (filter (is_expired claim.effect_id at) store.attempts)
          ≡ ok t)
        × (store'.handle ≡ with_tables store.handle t)
  unfolding begin_direct_attempt
  begin_direct_attempt-handle json store store' claim task_id at id h =
      let (_, h1) = >>-eq-ok (ensure_writable store.handle) _ h in
      let (_, h2) = >>-eq-ok (check_claim claim task_id at) _ h1 in
      let (_, h3) = >>-eq-ok (check_lease claim at store.handle.tables.outbox) _ h2 in
      let (t, expired, h4) =
        >>=-eq-ok
          (record_expired json claim.effect_id at store.handle.tables
            (filter (is_expired claim.effect_id at) store.attempts))
          _ h3 in
      let (_, _, h5) =
        >>=-eq-ok (insert_attempt (expire claim.effect_id at store.attempts) claim task_id at) _
          h4 in
      (t, expired, sym (ap (λ p. p.0.handle) (ok_injective h5)))

  pub complete_direct_attempt-handle :
      (json : Json Value) (store store' : DirectStore Value) (id : ℕ) (owner : String) (now : ℕ)
      (result : Value)
      → complete_direct_attempt json store id owner now result ≡ ok store'
      → store'.handle ≡ store.handle
  unfolding complete_direct_attempt
  complete_direct_attempt-handle json store store' id owner now result h =
      let (_, h1) = >>-eq-ok (ensure_writable store.handle) _ h in
      let (_, h2) = >>-eq-ok (check_completion json id owner result) _ h1 in
      let (rows, _, h3) =
        >>=-eq-ok (complete_attempt json store.attempts id owner now result) _ h2 in
      sym (ap (λ s. s.handle) (ok_injective h3))

  pub fail_direct_attempt-handle :
      (store store' : DirectStore Value) (id : ℕ) (owner : String) (now : ℕ) (error : String)
      → fail_direct_attempt store id owner now error ≡ ok store'
      → store'.handle ≡ store.handle
  unfolding fail_direct_attempt
  fail_direct_attempt-handle store store' id owner now error h =
      let (_, h1) = >>-eq-ok (ensure_writable store.handle) _ h in
      let (_, h2) = >>-eq-ok (check_failure id owner (trim error) _) _ h1 in
      let (_, _, h3) =
        >>=-eq-ok (end_attempt store.attempts id owner now (trim error) (attempt_name id)) _ h2 in
      sym (ap (λ s. s.handle) (ok_injective h3))

  pub fail_direct_attempt_with_cooldown-handle :
      (store store' : DirectStore Value) (id : ℕ) (owner : String) (now : ℕ) (error : String)
      (cooldown retry_at : ℕ)
      → fail_direct_attempt_with_cooldown store id owner now error cooldown ≡ ok (store', retry_at)
      → (effect_id : String) × (until : ℕ) × (rows : List OutboxRow) × (hold_effect
            store.handle.tables.outbox effect_id owner until
            (attempt_name id)
          ≡ ok rows)
        × (store'.handle ≡ with_tables store.handle (record store.handle.tables { outbox = rows }))
  unfolding fail_direct_attempt_with_cooldown
  fail_direct_attempt_with_cooldown-handle store store' id owner now error cooldown retry_at h =
      let (_, h1) = >>-eq-ok (ensure_writable store.handle) _ h in
      let (_, h2) = >>-eq-ok (check_failure id owner (trim error) _) _ h1 in
      let (retry, _, h3) = >>=-eq-ok (ok_or (checked_add_u64 now cooldown) invalid_integer) _ h2 in
      let (_, h4) = >>-eq-ok (sql_u64 id) _ h3 in
      let (attempt, _, h5) =
        >>=-eq-ok (ok_or (attempt_row store.attempts id) (lease_lost (attempt_name id))) _ h4 in
      let (_, _, h6) =
        >>=-eq-ok (end_attempt store.attempts id owner now (trim error) (attempt_name id)) _ h5 in
      let (rows, held, h7) =
        >>=-eq-ok
          (hold_effect store.handle.tables.outbox attempt.effect_id owner retry (attempt_name id)) _
          h6 in
      (attempt.effect_id, retry, rows, held, sym (ap (λ p. p.0.handle) (ok_injective h7)))

  reported-IsUnique :
      (json : Json Value) (store store' : DirectStore Value) (id : ℕ) (owner : String) (now : ℕ)
      (error cause : String) (retry_at : ℕ)
      → record_direct_unavailability_with_cause json store id owner now error cause
        ≡ ok (store', retry_at)
      → IsUnique store.handle.tables.outbox
      → IsUnique store'.handle.tables.outbox
  reported-IsUnique json store store' id owner now error cause retry_at h unique =
      elim (record_direct_unavailability_with_cause_lem json store store' id owner now error cause
        retry_at h) [
          | inl (_, (attempt, _, reported)) ↦
              let (_, _, same) =
                insert_evidence-Same json.is_object attempt.case_key now store.handle.tables
                  reported.tables _ reported.noted in
              subst (λ g. IsUnique g.tables.outbox) (sym reported.handle_after)
                (hold_effect-IsUnique reported.tables.outbox reported.rows _ owner retry_at _
                  reported.held (subst IsUnique (sym same) unique))
          | inr (same, _) ↦ subst (λ s. IsUnique s.handle.tables.outbox) (sym same) unique
        ]

  module _ (json : Json Value) (codec : Codec Value) (guards : Guards Value)
      (read : OutboxRow → Stored EffectPayload) where
    Step-IsUnique :
        {store store' : DirectStore Value}
        → Step json codec guards read store store'
        → IsUnique store.handle.tables.outbox
        → IsUnique store'.handle.tables.outbox
    Step-IsUnique {store} {store'} (begins claim task_id at id h) unique =
        let (t, expired, after) =
          begin_direct_attempt-handle json store store' claim task_id at id h in
        let (_, _, same) =
          record_expired-Same json claim.effect_id at store.handle.tables t _ expired in
        subst (λ g. IsUnique g.tables.outbox) (sym after) (subst IsUnique (sym same) unique)
    Step-IsUnique {store} {store'} (finishes id owner now result h) unique =
        subst (λ g. IsUnique g.tables.outbox)
          (sym (complete_direct_attempt-handle json store store' id owner now result h)) unique
    Step-IsUnique {store} {store'} (fails id owner now error h) unique =
        subst (λ g. IsUnique g.tables.outbox)
          (sym (fail_direct_attempt-handle store store' id owner now error h)) unique
    Step-IsUnique {store} {store'} (reports id owner now error cause retry_at h) unique =
        reported-IsUnique json store store' id owner now error cause retry_at h unique
    Step-IsUnique {store} {store'} (cools id owner now error cooldown retry_at h) unique =
        let (effect_id, until, rows, held, after) =
          fail_direct_attempt_with_cooldown-handle store store' id owner now error cooldown retry_at
            h in
        subst (λ g. IsUnique g.tables.outbox) (sym after)
          (hold_effect-IsUnique store.handle.tables.outbox rows effect_id owner until _ held unique)
    Step-IsUnique (moves move _) unique = Move-IsUnique codec guards read move unique

    pub Run-IsUnique :
        {store : DirectStore Value}
        → Run json codec guards read empty_store store
        → IsUnique store.handle.tables.outbox
    Run-IsUnique start = λ id. omega arith
    Run-IsUnique (then_step run step) = Step-IsUnique step (Run-IsUnique run)
