-- ===== src/Store/Attempts/Orderly.antt =====
-- crates/pip-store/src/lib.rs: what holds of the rows of the direct attempts in every store, and
-- the result that a completed attempt leaves.
use text.Mathlib.Text.{◌==◌ as str_eq}
use text.Mathlib.TextEquality.{eq_iff}
use agent_p1p.Prelude.{
  ℕ, ◌+◌, ◌≤◌, ◌≡◌, sym, subst, arith, String, Bool, true, false, ◌&&◌, List, [], ◌∷◌, ◌==◌, ==_iff,
  any, Bool-cases, inl, inr,
}
use agent_p1p.Controller.Ledger.{EffectPayload}
use agent_p1p.Store.{OutboxRow, Stored}
use agent_p1p.Store.Statements.{update, count}
use agent_p1p.Store.Checks.{Codec, Guards}
use agent_p1p.Store.Outbox.{ClaimedEffect}
use agent_p1p.Store.Attempts.{
  StoredDirectAttempt, DirectStore, Json, is_running_of, is_complete_of, is_current, is_expired,
  is_conflict, fail_row, complete_row, new_attempt, last_id, expire,
}
use agent_p1p.Store.Attempts.Rows.{
  count-update-le, count-update-add, count-eq-zero, has_attempt_id, count-last_id,
}
use agent_p1p.Store.Attempts.Steps.{
  Change, unchanged, began, gave_up, completed, Step-Change, Run, start, then_step, empty_store,
}

module _ {Value : Type 0} where
  -- An id has one attempt, an effect at most one that runs and one that is complete.
  pub record IsOrderly (rows : List (StoredDirectAttempt Value)) : Type 0 where
    pub ids : (id : ℕ) → count (has_attempt_id id) rows ≤ 1
    pub running : (effect_id : String) → count (is_running_of effect_id) rows ≤ 1
    pub complete : (effect_id : String) → count (is_complete_of effect_id) rows ≤ 1

  -- The rows that are failed.
  failed-IsOrderly :
      (chosen : StoredDirectAttempt Value → Bool) (now : ℕ) (error : String)
      (rows : List (StoredDirectAttempt Value))
      → IsOrderly rows
      → IsOrderly (update chosen (fail_row now error) rows)
  failed-IsOrderly chosen now error rows orderly = record {
    ids = λ id.
        let le =
          count-update-le (has_attempt_id id) chosen (fail_row now error) rows λ row _ h. h in
        omega (arith, orderly.ids id);
    running = λ e.
        let le =
          count-update-le (is_running_of e) chosen (fail_row now error) rows
            λ row _ h. ground arith in
        omega (arith, orderly.running e);
    complete = λ e.
        let le =
          count-update-le (is_complete_of e) chosen (fail_row now error) rows
            λ row _ h. ground arith in
        omega (arith, orderly.complete e);
  }

  begun-IsOrderly :
      (claim : ClaimedEffect) (task_id : String) (at : ℕ) (rows : List (StoredDirectAttempt Value))
      → any (is_running_of claim.effect_id) rows ≡ false
      → IsOrderly rows
      → IsOrderly (new_attempt claim task_id at (last_id rows + 1) ∷ rows)
  begun-IsOrderly claim task_id at rows none_of orderly = record {
    ids = λ id. ground (arith, orderly.ids id, count-last_id rows id);
    running = λ e. elim (Bool-cases (str_eq claim.effect_id e)) [
      | inl same ↦
          let is = subst (λ k. any (is_running_of k) rows ≡ false) ((eq_iff _ e).0 same) none_of in
          let zero_of = count-eq-zero (is_running_of e) rows is in ground arith
      | inr other ↦ ground (arith, orderly.running e)
    ];
    complete = λ e. ground (arith, orderly.complete e);
  }

  -- A row of the effect that completes, or none.
  abbrev completes_for : ℕ → String → ℕ → String → StoredDirectAttempt Value → Bool
  completes_for id owner now e row = is_current id owner now row && str_eq row.effect_id e

  no_conflict :
      (rows all_rows : List (StoredDirectAttempt Value)) (id : ℕ) (owner : String) (now : ℕ)
      (e : String)
      → any (is_conflict all_rows id owner now) rows ≡ false
      → any (completes_for id owner now e) rows ≡ true
      → any (is_complete_of e) all_rows ≡ false
  no_conflict [] all_rows id owner now e none_of some_of = cc
  no_conflict (row ∷ rows) all_rows id owner now e none_of some_of =
      elim (Bool-cases (completes_for id owner now e row)) [
        | inl this ↦
            let same : row.effect_id ≡ e = (eq_iff row.effect_id e).0 (ground arith) in
            subst (λ k. any (is_complete_of k) all_rows ≡ false) same (ground arith)
        | inr other ↦ no_conflict rows all_rows id owner now e (ground arith) (ground arith)
      ]

  others-le :
      (id : ℕ) (owner : String) (now : ℕ) (result : Value) (digest : String) (e : String)
      (rows : List (StoredDirectAttempt Value))
      → any (completes_for id owner now e) rows ≡ false
      → count
          (is_complete_of e)
          (update (is_current id owner now) (complete_row now result digest) rows)
        ≤ count (is_complete_of e) rows
  others-le id owner now result digest e [] none_of = omega arith
  others-le id owner now result digest e (row ∷ rows) none_of =
      ground (arith, others-le id owner now result digest e rows)

  completed_complete :
      (id : ℕ) (owner : String) (now : ℕ) (result : Value) (digest : String) (e : String)
      (rows : List (StoredDirectAttempt Value))
      → any (is_conflict rows id owner now) rows ≡ false
      → (count (is_current id owner now) rows == 1) ≡ true
      → count (is_complete_of e) rows ≤ 1
      → count
          (is_complete_of e)
          (update (is_current id owner now) (complete_row now result digest) rows)
        ≤ 1
  completed_complete id owner now result digest e rows none_of one at_most =
      elim (Bool-cases (any (completes_for id owner now e) rows)) [
        | inl this ↦
            let zero_of =
              count-eq-zero (is_complete_of e) rows
                (no_conflict rows rows id owner now e none_of this) in
            let le =
              count-update-add (is_complete_of e) (is_current id owner now)
                (complete_row now result digest) rows in
            let one' = (==_iff _ _).0 one in omega arith
        | inr other ↦ let le = others-le id owner now result digest e rows other in omega arith
      ]

  completed-IsOrderly :
      (id : ℕ) (owner : String) (now : ℕ) (result : Value) (digest : String)
      (rows : List (StoredDirectAttempt Value))
      → any (is_conflict rows id owner now) rows ≡ false
      → (count (is_current id owner now) rows == 1) ≡ true
      → IsOrderly rows
      → IsOrderly (update (is_current id owner now) (complete_row now result digest) rows)
  completed-IsOrderly id owner now result digest rows none_of one orderly = record {
    ids = λ k.
        let le =
          count-update-le (has_attempt_id k) (is_current id owner now)
            (complete_row now result digest) rows λ row _ h. h in
        omega (arith, orderly.ids k);
    running = λ e.
        let le =
          count-update-le (is_running_of e) (is_current id owner now)
            (complete_row now result digest) rows λ row _ h. ground arith in
        omega (arith, orderly.running e);
    complete =
        λ e. completed_complete id owner now result digest e rows none_of one (orderly.complete e);
  }

  Change-IsOrderly :
      (rows rows' : List (StoredDirectAttempt Value))
      → Change rows rows'
      → IsOrderly rows
      → IsOrderly rows'
  Change-IsOrderly rows rows' (unchanged same) orderly = subst IsOrderly (sym same) orderly
  Change-IsOrderly rows rows' (began claim task_id at none_of after) orderly =
      subst IsOrderly (sym after) (
        begun-IsOrderly claim task_id at (expire claim.effect_id at rows) none_of
          (failed-IsOrderly (is_expired claim.effect_id at) at _ rows orderly))
  Change-IsOrderly rows rows' (gave_up id owner now error after) orderly =
      subst IsOrderly (sym after)
        (failed-IsOrderly (is_current id owner now) now error rows orderly)
  Change-IsOrderly rows rows' (completed id owner now result digest none_of one after) orderly =
      subst IsOrderly (sym after)
        (completed-IsOrderly id owner now result digest rows none_of one orderly)

module _ {Value : Type 0} where
  module _ (json : Json Value) (codec : Codec Value) (guards : Guards Value)
      (read : OutboxRow → Stored EffectPayload) where
    -- From an empty store on, an attempt id has at most one row, and an effect at most one attempt
    -- that is running and at most one that is complete.
    pub Run-IsOrderly :
        {store : DirectStore Value}
        → Run json codec guards read empty_store store
        → IsOrderly store.attempts
    Run-IsOrderly start = record {
      ids = λ _. omega arith;
      running = λ _. omega arith;
      complete = λ _. omega arith;
    }
    Run-IsOrderly {store} (then_step {s} run step) =
        Change-IsOrderly s.attempts store.attempts (Step-Change json codec guards read step)
          (Run-IsOrderly run)
