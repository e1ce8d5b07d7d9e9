-- ===== src/Store/Attempts/Owners.antt =====
-- crates/pip-store/src/lib.rs: an attempt keeps its id and its owner, whatever becomes of it.
use agent_p1p.Prelude.{
  ℕ, ◌+◌, ◌≡◌, refl, sym, ◌∙◌, subst, ap, arith, String, Bool, true, false, some, List, [], ◌∷◌,
  ◌==◌, Bool-cases, inl, inr, if-true, if-false, some_injective,
}
use agent_p1p.Controller.Ledger.{EffectPayload}
use agent_p1p.Store.{OutboxRow, Stored}
use agent_p1p.Store.Statements.{update}
use agent_p1p.Store.Checks.{Codec, Guards}
use agent_p1p.Store.Attempts.{
  StoredDirectAttempt, DirectStore, Json, is_current, is_expired, fail_row, complete_row,
  new_attempt, last_id, expire,
}
use agent_p1p.Store.Attempts.Cooldown.{attempt_row}
use agent_p1p.Store.Attempts.Rows.{attempt_row-le-last_id}
use agent_p1p.Store.Attempts.Steps.{
  Change, unchanged, began, gave_up, completed, Step-Change, Run, start, then_step,
}

module _ {Value : Type 0} where
  -- The attempt of an id is there, with its owner.
  abbrev pub IsOwned : List (StoredDirectAttempt Value) → ℕ → String → Type 0
  IsOwned rows id owner =
      (a : StoredDirectAttempt Value) × (attempt_row rows id ≡ some a) × (a.lease_owner ≡ owner)

  -- A change that keeps both.
  abbrev pub KeepsName : (StoredDirectAttempt Value → StoredDirectAttempt Value) → Type 0
  KeepsName change =
      (row : StoredDirectAttempt Value)
      → ((change row).attempt_id ≡ row.attempt_id) × ((change row).lease_owner ≡ row.lease_owner)

  cons-IsOwned :
      (first : StoredDirectAttempt Value) (rows : List (StoredDirectAttempt Value)) (id : ℕ)
      (owner : String)
      → (first.attempt_id == id) ≡ false
      → IsOwned rows id owner
      → IsOwned (first ∷ rows) id owner
  cons-IsOwned first rows id owner other (a, found, is) = (a, if-false _ _ other ∙ found, is)

  head-IsOwned :
      (first : StoredDirectAttempt Value) (rows : List (StoredDirectAttempt Value)) (id : ℕ)
      (owner : String)
      → (first.attempt_id == id) ≡ true
      → first.lease_owner ≡ owner
      → IsOwned (first ∷ rows) id owner
  head-IsOwned first rows id owner this is = (first, if-true _ _ this, is)

  update-IsOwned :
      (chosen : StoredDirectAttempt Value → Bool)
      (change : StoredDirectAttempt Value → StoredDirectAttempt Value)
      (rows : List (StoredDirectAttempt Value)) (id : ℕ) (owner : String)
      → KeepsName change
      → IsOwned rows id owner
      → IsOwned (update chosen change rows) id owner
  update-IsOwned chosen change [] id owner keeps (a, found, is) = absurd cc
  update-IsOwned chosen change (row ∷ rows) id owner keeps (a, found, is) =
      let (id_is, owner_is) = keeps row in
      elim (Bool-cases (row.attempt_id == id)) [
        | inl this ↦
            let first : row ≡ a = some_injective (sym (if-true _ _ this) ∙ found) in
            let mine = ap (λ r. r.lease_owner) first ∙ is in
            elim (Bool-cases (chosen row)) [
              | inl yes_it ↦ rw yes_it (
                  head-IsOwned (change row) (update chosen change rows) id owner
                    (subst (λ k. (k == id) ≡ true) (sym id_is) this) (owner_is ∙ mine))
              | inr no_not ↦
                  rw no_not (head-IsOwned row (update chosen change rows) id owner this mine)
            ]
        | inr other ↦
            let rest =
              update-IsOwned chosen change rows id owner keeps
                (a, sym (if-false _ _ other) ∙ found, is) in
            elim (Bool-cases (chosen row)) [
              | inl yes_it ↦ rw yes_it (
                  cons-IsOwned (change row) (update chosen change rows) id owner
                    (subst (λ k. (k == id) ≡ false) (sym id_is) other) rest)
              | inr no_not ↦
                  rw no_not (cons-IsOwned row (update chosen change rows) id owner other rest)
            ]
      ]

  new_is_other :
      (first : StoredDirectAttempt Value) (rows : List (StoredDirectAttempt Value)) (id : ℕ)
      (owner : String)
      → first.attempt_id ≡ last_id rows + 1
      → IsOwned rows id owner
      → (first.attempt_id == id) ≡ false
  new_is_other first rows id owner new (a, found, _) =
      ground (arith, attempt_row-le-last_id rows id a found)

  Change-IsOwned :
      (rows rows' : List (StoredDirectAttempt Value)) (id : ℕ) (owner : String)
      → Change rows rows'
      → IsOwned rows id owner
      → IsOwned rows' id owner
  Change-IsOwned rows rows' id owner (unchanged same) owned =
      subst (λ r. IsOwned r id owner) (sym same) owned
  Change-IsOwned rows rows' id owner (began claim task_id at _ after) owned =
      let kept =
        update-IsOwned (is_expired claim.effect_id at)
          (fail_row at "worker lease expired before completion") rows id owner (λ r. (refl, refl))
          owned in
      let first = new_attempt claim task_id at (last_id (expire claim.effect_id at rows) + 1) in
      subst (λ r. IsOwned r id owner) (sym after)
        (cons-IsOwned first (expire claim.effect_id at rows) id owner
          (new_is_other first (expire claim.effect_id at rows) id owner refl kept) kept)
  Change-IsOwned rows rows' id owner (gave_up id' owner' now error after) owned =
      subst (λ r. IsOwned r id owner) (sym after)
        (update-IsOwned (is_current id' owner' now) (fail_row now error) rows id owner
          (λ r. (refl, refl)) owned)
  Change-IsOwned rows rows' id owner (completed id' owner' now result digest _ _ after) owned =
      subst (λ r. IsOwned r id owner) (sym after)
        (update-IsOwned (is_current id' owner' now) (complete_row now result digest) rows id owner
          (λ r. (refl, refl)) owned)

  pub end-IsOwned :
      (rows : List (StoredDirectAttempt Value)) (id : ℕ) (owner holder : String) (now : ℕ)
      (error : String)
      → IsOwned rows id holder
      → IsOwned (update (is_current id owner now) (fail_row now error) rows) id holder
  end-IsOwned rows id owner holder now error owned =
      update-IsOwned (is_current id owner now) (fail_row now error) rows id holder
        (λ r. (refl, refl)) owned

module _ {Value : Type 0} where
  pub Run-IsOwned :
      (json : Json Value) (codec : Codec Value) (guards : Guards Value)
      (read : OutboxRow → Stored EffectPayload) {store store' : DirectStore Value} (id : ℕ)
      (owner : String)
      → Run json codec guards read store store'
      → IsOwned store.attempts id owner
      → IsOwned store'.attempts id owner
  Run-IsOwned json codec guards read id owner start owned = owned
  Run-IsOwned json codec guards read {store} {store'} id owner (then_step {s} run step) owned =
      Change-IsOwned s.attempts store'.attempts id owner (Step-Change json codec guards read step)
        (Run-IsOwned json codec guards read id owner run owned)
