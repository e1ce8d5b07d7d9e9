-- ===== src/Store/Attempts/Results.antt =====
-- crates/pip-store/src/lib.rs: the result that a completed attempt leaves.
use text.Mathlib.Text.{◌==◌ as str_eq}
use text.Mathlib.TextEquality.{eq_iff}
use agent_p1p.Prelude.{
  ℕ, ◌≤◌, ◌≡◌, refl, sym, subst, arith, String, true, not, List, [], ◌∷◌, some, ==_iff, ok, err,
  fail_if, ◌>>◌, if◌then◌else◌, Bool-cases, inl, inr,
}
use agent_p1p.Prelude.Text.{not_blank}
use agent_p1p.Controller.Ledger.{EffectPayload}
use agent_p1p.Store.{OutboxRow, Stored, idempotency_conflict}
use agent_p1p.Store.Statements.{count}
use agent_p1p.Store.Checks.{Codec, Guards}
use agent_p1p.Store.Attempts.{
  StoredDirectAttempt, DirectStore, Json, is_complete_of, is_current, complete_row,
  complete_direct_attempt, payload_digest, attempt_name,
}
use agent_p1p.Store.Attempts.Cooldown.{attempt_row}
use agent_p1p.Store.Attempts.Rows.{attempt_row-chosen}
use agent_p1p.Store.Attempts.Steps.{
  Step, Run, start, then_step, empty_store, complete_direct_attempt_lem,
}
use agent_p1p.Store.Attempts.Final.{settled_is_final}
use agent_p1p.Store.Attempts.Orderly.{Run-IsOrderly}
use agent_p1p.Store.Attempts.Counts.{complete_row_of, completed_direct_attempt, with_result}

module _ {Value : Type 0} where
  found_is_counted :
      (rows : List (StoredDirectAttempt Value)) (id : ℕ) (row : StoredDirectAttempt Value)
      (e : String)
      → attempt_row rows id ≡ some row
      → is_complete_of e row ≡ true
      → 1 ≤ count (is_complete_of e) rows
  found_is_counted [] id row e found done = cc
  found_is_counted (first ∷ rows) id row e found done =
      ground (arith, found_is_counted rows id row e)

  -- The one complete row is the row of its id.
  complete_row_of-found :
      (rows : List (StoredDirectAttempt Value)) (id : ℕ) (row : StoredDirectAttempt Value)
      (e : String)
      → count (is_complete_of e) rows ≤ 1
      → attempt_row rows id ≡ some row
      → is_complete_of e row ≡ true
      → complete_row_of rows e ≡ some row
  complete_row_of-found [] id row e unique found done = cc
  complete_row_of-found (first ∷ rows) id row e unique found done =
      ground (arith, complete_row_of-found rows id row e, found_is_counted rows id row e)

module _ {Value : Type 0} where
  Run-trans :
      (json : Json Value) (codec : Codec Value) (guards : Guards Value)
      (read : OutboxRow → Stored EffectPayload) {s t u : DirectStore Value}
      → Run json codec guards read s t
      → Run json codec guards read t u
      → Run json codec guards read s u
  Run-trans json codec guards read first start = first
  Run-trans json codec guards read first (then_step rest step) =
      then_step (Run-trans json codec guards read first rest) step

  -- The row of an attempt that was completed, with its result as it is read.
  abbrev pub found_row :
      Json Value → ℕ → Value → Value → StoredDirectAttempt String → StoredDirectAttempt Value
  found_row json now result parsed attempt =
      with_result (complete_row now (json.text result) (payload_digest json result) attempt)
        (some parsed)

  checked :
      (json : Json Value) (now : ℕ) (result parsed : Value) (attempt : StoredDirectAttempt String)
      → (fail_if
            (not (str_eq (payload_digest json result) (payload_digest json parsed)))
            (idempotency_conflict (attempt_name attempt.attempt_id))
          >> ok (some (found_row json now result parsed attempt)))
        ≡ (if str_eq (payload_digest json result) (payload_digest json parsed)
            then ok (some (found_row json now result parsed attempt))
            else err (idempotency_conflict (attempt_name attempt.attempt_id)))
  checked json now result parsed attempt =
      elim (Bool-cases (str_eq (payload_digest json result) (payload_digest json parsed))) [
        | inl same ↦ rw same refl
        | inr other ↦ rw other refl
      ]

  module _ (json : Json Value) (codec : Codec Value) (guards : Guards Value)
      (read : OutboxRow → Stored EffectPayload) where
    -- In a store that began empty, what `completed_direct_attempt` finds for the effect of an attempt
    -- that was completed is, after any further steps of the store, the row of that attempt with the
    -- value that serde_json reads of the text it printed of the result; or a conflict, exactly where
    -- the text that it prints of this value has another digest.
    pub result_is_found :
        (store after later : DirectStore Value) (id : ℕ) (owner : String) (now : ℕ)
        (result parsed : Value) (attempt : StoredDirectAttempt String)
        → Run json codec guards read empty_store store
        → attempt_row store.attempts id ≡ some attempt
        → not_blank attempt.effect_id ≡ true
        → complete_direct_attempt json store id owner now result ≡ ok after
        → json.parse (json.text result) ≡ some parsed
        → Run json codec guards read after later
        → completed_direct_attempt json later attempt.effect_id ≡ (
            if str_eq (payload_digest json result) (payload_digest json parsed)
            then ok (some (found_row json now result parsed attempt))
            else err (idempotency_conflict (attempt_name attempt.attempt_id)))
    unfolding completed_direct_attempt
    result_is_found store after later id owner now result parsed attempt run found named done reads
          rest =
        let row = complete_row now (json.text result) (payload_digest json result) attempt in
        let (none_of, one, rows_after) =
          complete_direct_attempt_lem json store after id owner now result done in
        let orderly = Run-IsOrderly json codec guards read run in
        let (_, written) =
          attempt_row-chosen (is_current id owner now)
            (complete_row now (json.text result) (payload_digest json result)) store.attempts id
            attempt (λ r. refl) (λ r h. ground arith) (orderly.ids id) ((==_iff _ _).0 one) found in
        let written' = subst (λ rows. attempt_row rows id ≡ some row) (sym rows_after) written in
        let kept = settled_is_final json codec guards read id row rest written' refl in
        let all_of =
          Run-trans json codec guards read (then_step run (Step.finishes id owner now result done))
            rest in
        let is_complete : is_complete_of attempt.effect_id row ≡ true =
          rw ((eq_iff attempt.effect_id attempt.effect_id).1 refl) refl in
        rw
          (
            named,
            complete_row_of-found later.attempts id row attempt.effect_id
                ((Run-IsOrderly json codec guards read all_of).complete attempt.effect_id) kept
                is_complete,
            reads,
          )
          (checked json now result parsed attempt)
