-- ===== src/Store/Attempts/Final.antt =====
-- crates/pip-store/src/lib.rs: a direct attempt that has ended, over the life of a store.
use agent_p1p.Prelude.{ℕ, ◌+◌, ◌≡◌, refl, sym, subst, arith, String, false, List, ◌∷◌, some}
use agent_p1p.Controller.Ledger.{EffectPayload}
use agent_p1p.Store.{OutboxRow, Stored}
use agent_p1p.Store.Checks.{Codec, Guards}
use agent_p1p.Store.Attempts.{
  StoredDirectAttempt, DirectStore, Json, is_running_status, is_current, is_expired, fail_row,
  complete_row, new_attempt, last_id, expire,
}
use agent_p1p.Store.Attempts.Cooldown.{attempt_row}
use agent_p1p.Store.Attempts.Rows.{attempt_row-le-last_id, attempt_row-update}
use agent_p1p.Store.Attempts.Steps.{
  Change, unchanged, began, gave_up, completed, Step-Change, Run, start, then_step,
}

module _ {Value : Type 0} where
  -- The row of an attempt that is no longer running.
  abbrev pub IsSettled : List (StoredDirectAttempt Value) → ℕ → StoredDirectAttempt Value → Type 0
  IsSettled rows id row = (attempt_row rows id ≡ some row) × (is_running_status row.status ≡ false)

  spared_by_current :
      (id : ℕ) (owner : String) (now : ℕ) (row : StoredDirectAttempt Value)
      → is_running_status row.status ≡ false
      → is_current id owner now row ≡ false
  spared_by_current id owner now row settled = ground arith

  spared_by_expired :
      (effect_id : String) (now : ℕ) (row : StoredDirectAttempt Value)
      → is_running_status row.status ≡ false
      → is_expired effect_id now row ≡ false
  spared_by_expired effect_id now row settled = ground arith

  cons-IsSettled :
      (first row : StoredDirectAttempt Value) (rows : List (StoredDirectAttempt Value)) (id : ℕ)
      → first.attempt_id ≡ last_id rows + 1
      → IsSettled rows id row
      → IsSettled (first ∷ rows) id row
  cons-IsSettled first row rows id new (found, settled) =
      (ground (arith, attempt_row-le-last_id rows id row found), settled)

  Change-IsSettled :
      (rows rows' : List (StoredDirectAttempt Value)) (id : ℕ) (row : StoredDirectAttempt Value)
      → Change rows rows'
      → IsSettled rows id row
      → IsSettled rows' id row
  Change-IsSettled rows rows' id row (unchanged same) held =
      subst (λ r. IsSettled r id row) (sym same) held
  Change-IsSettled rows rows' id row (began claim task_id at _ after) (found, settled) =
      subst (λ r. IsSettled r id row) (sym after)
        (cons-IsSettled
          (new_attempt claim task_id at (last_id (expire claim.effect_id at rows) + 1)) row
          (expire claim.effect_id at rows) id refl
          (
            attempt_row-update (is_expired claim.effect_id at)
                (fail_row at "worker lease expired before completion") rows id row (λ r. refl)
                (spared_by_expired claim.effect_id at row settled) found,
            settled,
          ))
  Change-IsSettled rows rows' id row (gave_up id' owner now error after) (found, settled) =
      subst (λ r. IsSettled r id row) (sym after)
        (
          attempt_row-update (is_current id' owner now) (fail_row now error) rows id row (λ r. refl)
              (spared_by_current id' owner now row settled) found,
          settled,
        )
  Change-IsSettled rows rows' id row (completed id' owner now result digest _ _ after)
        (found, settled) =
      subst (λ r. IsSettled r id row) (sym after)
        (
          attempt_row-update (is_current id' owner now) (complete_row now result digest) rows id row
              (λ r. refl) (spared_by_current id' owner now row settled) found,
          settled,
        )

module _ {Value : Type 0} where
  module _ (json : Json Value) (codec : Codec Value) (guards : Guards Value)
      (read : OutboxRow → Stored EffectPayload) where
    -- An attempt that has ended, completed or failed, keeps its row, with its result, its error and
    -- its times, whatever attempts are begun, completed, failed and reported, and whatever moves of
    -- Store/Moves.antt are made.
    pub settled_is_final :
        {store store' : DirectStore Value} (id : ℕ) (row : StoredDirectAttempt String)
        → Run json codec guards read store store'
        → attempt_row store.attempts id ≡ some row
        → is_running_status row.status ≡ false
        → attempt_row store'.attempts id ≡ some row
    settled_is_final id row start found settled = found
    settled_is_final {store} {store'} id row (then_step {s} run step) found settled =
        let kept = settled_is_final id row run found settled in
        (Change-IsSettled s.attempts store'.attempts id row
          (Step-Change json codec guards read step) (kept, settled)).0
