-- ===== src/Store/Attempts/Steps.antt =====
-- crates/pip-store/src/lib.rs: the operations on direct attempts as steps of the store, among the
-- moves of the ledger, and what each makes of the rows of the attempts.
use agent_p1p.Prelude.{
  ℕ, ◌+◌, ◌≡◌, sym, ◌∙◌, subst, ap, String, false, true, List, [], ◌∷◌, any, ok, ◌==◌, >>=-eq-ok,
  >>-eq-ok, ok_injective, ok_or, filter, arith, inl, inr,
}
use agent_p1p.Prelude.Text.{trim}
use agent_p1p.Controller.Ledger.{EffectPayload}
use agent_p1p.Core.Domain.{checked_add_u64}
use agent_p1p.Store.{OutboxRow, Stored, ensure_writable, sql_u64, invalid_integer, lease_lost}
use agent_p1p.Store.Statements.{update, count}
use agent_p1p.Store.Checks.{Codec, Guards}
use agent_p1p.Store.Outbox.{ClaimedEffect}
use agent_p1p.Store.Moves.{Move, empty_handle}
use agent_p1p.Store.Attempts.{
  StoredDirectAttempt, payload_digest, DirectStore, Json, is_running_of, is_conflict, is_current,
  complete_attempt, check_claim, check_lease, check_completion, fail_row, complete_row, last_id,
  new_attempt, insert_attempt, record_expired, is_expired, check_failure, expire,
  begin_direct_attempt, complete_direct_attempt, end_attempt, attempt_name, fail_direct_attempt,
}
use agent_p1p.Store.Attempts.Reports.{record_direct_unavailability_with_cause_lem}
use agent_p1p.Store.Attempts.Cooldown.{
  hold_effect, attempt_row, record_direct_unavailability_with_cause,
  fail_direct_attempt_with_cooldown,
}

module _ {Value : Type 0} where
  -- What an operation makes of the rows.
  pub data Change (rows rows' : List (StoredDirectAttempt Value)) : Type 0 where
    unchanged : rows' ≡ rows → Change rows rows'
    began :
        (claim : ClaimedEffect) (task_id : String) (at : ℕ)
        → any (is_running_of claim.effect_id) (expire claim.effect_id at rows) ≡ false
        → (rows'
            ≡ new_attempt claim task_id at (last_id (expire claim.effect_id at rows) + 1)
              ∷ expire claim.effect_id at rows)
        → Change rows rows'
    gave_up :
        (id : ℕ) (owner : String) (now : ℕ) (error : String)
        → rows' ≡ update (is_current id owner now) (fail_row now error) rows
        → Change rows rows'
    completed :
        (id : ℕ) (owner : String) (now : ℕ) (result : Value) (digest : String)
        → any (is_conflict rows id owner now) rows ≡ false
        → (count (is_current id owner now) rows == 1) ≡ true
        → rows' ≡ update (is_current id owner now) (complete_row now result digest) rows
        → Change rows rows'

module _ {Value : Type 0} where
  abbrev pub empty_store : DirectStore Value
  empty_store = record { handle = empty_handle; attempts = [] }

  module _ (json : Json Value) (codec : Codec Value) (guards : Guards Value)
      (read : OutboxRow → Stored EffectPayload) where
    pub data Step (store store' : DirectStore Value) : Type 0 where
      begins :
          (claim : ClaimedEffect) (task_id : String) (at id : ℕ)
          → begin_direct_attempt json store claim task_id at ≡ ok (store', id)
          → Step store store'
      finishes :
          (id : ℕ) (owner : String) (now : ℕ) (result : Value)
          → complete_direct_attempt json store id owner now result ≡ ok store'
          → Step store store'
      fails :
          (id : ℕ) (owner : String) (now : ℕ) (error : String)
          → fail_direct_attempt store id owner now error ≡ ok store'
          → Step store store'
      reports :
          (id : ℕ) (owner : String) (now : ℕ) (error cause : String) (retry_at : ℕ)
          → record_direct_unavailability_with_cause json store id owner now error cause
            ≡ ok (store', retry_at)
          → Step store store'
      cools :
          (id : ℕ) (owner : String) (now : ℕ) (error : String) (cooldown retry_at : ℕ)
          → fail_direct_attempt_with_cooldown store id owner now error cooldown
            ≡ ok (store', retry_at)
          → Step store store'
      moves :
          Move codec guards read store.handle store'.handle
          → store'.attempts ≡ store.attempts
          → Step store store'

    pub data Run (store : DirectStore Value) : DirectStore Value → Type 0 where
      start : Run store store
      then_step : {s s' : DirectStore Value} → Run store s → Step s s' → Run store s'

module _ {Value : Type 0} where
  insert_attempt_lem :
      (rows rows' : List (StoredDirectAttempt Value)) (claim : ClaimedEffect) (task_id : String)
      (at id : ℕ)
      → insert_attempt rows claim task_id at ≡ ok (rows', id)
      → (any (is_running_of claim.effect_id) rows ≡ false)
        × (rows' ≡ new_attempt claim task_id at (last_id rows + 1) ∷ rows)
  unfolding insert_attempt
  insert_attempt_lem rows rows' claim task_id at id h = ground arith

  pub end_attempt_lem :
      (rows rows' : List (StoredDirectAttempt Value)) (id : ℕ) (owner : String) (now : ℕ)
      (error name : String)
      → end_attempt rows id owner now error name ≡ ok rows'
      → ((count (is_current id owner now) rows == 1) ≡ true)
        × (rows' ≡ update (is_current id owner now) (fail_row now error) rows)
  unfolding end_attempt
  end_attempt_lem rows rows' id owner now error name h = ground arith

  end_attempt-Change :
      (rows rows' : List (StoredDirectAttempt Value)) (id : ℕ) (owner : String) (now : ℕ)
      (error name : String)
      → end_attempt rows id owner now error name ≡ ok rows'
      → Change rows rows'
  end_attempt-Change rows rows' id owner now error name h =
      let (_, after) = end_attempt_lem rows rows' id owner now error name h in
      gave_up id owner now error after

module _ {Value : Type 0} where
  begin_direct_attempt-Change :
      (json : Json Value) (store store' : DirectStore Value) (claim : ClaimedEffect)
      (task_id : String) (at id : ℕ)
      → begin_direct_attempt json store claim task_id at ≡ ok (store', id)
      → Change store.attempts store'.attempts
  unfolding begin_direct_attempt
  begin_direct_attempt-Change json store store' claim task_id at id h =
      let (_, h1) = >>-eq-ok (ensure_writable store.handle) _ h in
      let (_, h2) = >>-eq-ok (check_claim claim task_id at) _ h1 in
      let (_, h6) = >>-eq-ok (check_lease claim at store.handle.tables.outbox) _ h2 in
      let (t, _, h7) =
        >>=-eq-ok
          (record_expired json claim.effect_id at store.handle.tables
            (filter (is_expired claim.effect_id at) store.attempts))
          _ h6 in
      let ((rows, new), inserted, h8) =
        >>=-eq-ok (insert_attempt (expire claim.effect_id at store.attempts) claim task_id at) _
          h7 in
      let (none_of, after) =
        insert_attempt_lem (expire claim.effect_id at store.attempts) rows claim task_id at new
          inserted in
      began claim task_id at none_of (sym (ap (λ p. p.0.attempts) (ok_injective h8)) ∙ after)

  complete_attempt_lem :
      (json : Json Value) (rows rows' : List (StoredDirectAttempt String)) (id : ℕ) (owner : String)
      (now : ℕ) (result : Value)
      → complete_attempt json rows id owner now result ≡ ok rows'
      → (any (is_conflict rows id owner now) rows ≡ false)
        × ((count (is_current id owner now) rows == 1) ≡ true)
        × (rows'
            ≡ update
                (is_current id owner now)
                (complete_row now (json.text result) (payload_digest json result))
                rows)
  unfolding complete_attempt
  complete_attempt_lem json rows rows' id owner now result h = ground arith

  pub complete_direct_attempt_lem :
      (json : Json Value) (store store' : DirectStore Value) (id : ℕ) (owner : String) (now : ℕ)
      (result : Value)
      → complete_direct_attempt json store id owner now result ≡ ok store'
      → (any (is_conflict store.attempts id owner now) store.attempts ≡ false)
        × ((count (is_current id owner now) store.attempts == 1) ≡ true)
        × (store'.attempts
            ≡ update
                (is_current id owner now)
                (complete_row now (json.text result) (payload_digest json result))
                store.attempts)
  unfolding complete_direct_attempt
  complete_direct_attempt_lem json store store' id owner now result h =
      let (_, h1) = >>-eq-ok (ensure_writable store.handle) _ h in
      let (_, h2) = >>-eq-ok (check_completion json id owner result) _ h1 in
      let (rows, written, h3) =
        >>=-eq-ok (complete_attempt json store.attempts id owner now result) _ h2 in
      let (none_of, one, after) =
        complete_attempt_lem json store.attempts rows id owner now result written in
      (none_of, one, sym (ap (λ s. s.attempts) (ok_injective h3)) ∙ after)

  fail_direct_attempt-Change :
      (store store' : DirectStore Value) (id : ℕ) (owner : String) (now : ℕ) (error : String)
      → fail_direct_attempt store id owner now error ≡ ok store'
      → Change store.attempts store'.attempts
  unfolding fail_direct_attempt
  fail_direct_attempt-Change store store' id owner now error h =
      let (_, h1) = >>-eq-ok (ensure_writable store.handle) _ h in
      let (_, h2) =
        >>-eq-ok
          (check_failure id owner (trim error) "attempt, owner, and bounded error are required") _
          h1 in
      let (rows, written, h3) =
        >>=-eq-ok (end_attempt store.attempts id owner now (trim error) _) _ h2 in
      subst (Change store.attempts) (ap (λ s. s.attempts) (ok_injective h3))
        (end_attempt-Change store.attempts rows id owner now (trim error) _ written)

  fail_direct_attempt_with_cooldown-Change :
      (store store' : DirectStore Value) (id : ℕ) (owner : String) (now : ℕ) (error : String)
      (cooldown retry_at : ℕ)
      → fail_direct_attempt_with_cooldown store id owner now error cooldown ≡ ok (store', retry_at)
      → Change store.attempts store'.attempts
  unfolding fail_direct_attempt_with_cooldown
  fail_direct_attempt_with_cooldown-Change store store' id owner now error cooldown retry_at h =
      let (_, h1) = >>-eq-ok (ensure_writable store.handle) _ h in
      let (_, h2) = >>-eq-ok (check_failure id owner (trim error) _) _ h1 in
      let (retry, _, h3) = >>=-eq-ok (ok_or (checked_add_u64 now cooldown) invalid_integer) _ h2 in
      let (_, h4) = >>-eq-ok (sql_u64 id) _ h3 in
      let (attempt, _, h5) =
        >>=-eq-ok (ok_or (attempt_row store.attempts id) (lease_lost (attempt_name id))) _ h4 in
      let (rows, ended, h6) =
        >>=-eq-ok (end_attempt store.attempts id owner now (trim error) (attempt_name id)) _ h5 in
      let (_, _, h7) =
        >>=-eq-ok
          (hold_effect store.handle.tables.outbox attempt.effect_id owner retry (attempt_name id)) _
          h6 in
      subst (Change store.attempts) (ap (λ p. p.0.attempts) (ok_injective h7))
        (end_attempt-Change store.attempts rows id owner now (trim error) _ ended)

  module _ (json : Json Value) (codec : Codec Value) (guards : Guards Value)
      (read : OutboxRow → Stored EffectPayload) where
    reports-Change :
        (store store' : DirectStore Value) (id : ℕ) (owner : String) (now : ℕ)
        (error cause : String) (retry_at : ℕ)
        → record_direct_unavailability_with_cause json store id owner now error cause
          ≡ ok (store', retry_at)
        → Change store.attempts store'.attempts
    reports-Change store store' id owner now error cause retry_at h =
        elim (record_direct_unavailability_with_cause_lem json store store' id owner now error cause
          retry_at h) [
            | inl (_, (attempt, _, reported)) ↦
                end_attempt-Change store.attempts store'.attempts id owner now error _
                  reported.ended
            | inr (same, _) ↦ unchanged (ap (λ s. s.attempts) same)
          ]

    pub Step-Change :
        {store store' : DirectStore Value}
        → Step json codec guards read store store'
        → Change store.attempts store'.attempts
    Step-Change {store} {store'} (begins claim task_id at id h) =
        begin_direct_attempt-Change json store store' claim task_id at id h
    Step-Change {store} {store'} (finishes id owner now result h) =
        let (none_of, one, after) =
          complete_direct_attempt_lem json store store' id owner now result h in
        completed id owner now (json.text result) (payload_digest json result) none_of one after
    Step-Change {store} {store'} (fails id owner now error h) =
        fail_direct_attempt-Change store store' id owner now error h
    Step-Change {store} {store'} (reports id owner now error cause retry_at h) =
        reports-Change store store' id owner now error cause retry_at h
    Step-Change {store} {store'} (cools id owner now error cooldown retry_at h) =
        fail_direct_attempt_with_cooldown-Change store store' id owner now error cooldown retry_at h
    Step-Change (moves move same) = unchanged same
