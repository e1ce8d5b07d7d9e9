-- ===== src/Store/Attempts/Rows.antt =====
-- crates/pip-store/src/lib.rs: counts of rows under an update, and the row of one attempt id.
use agent_p1p.Prelude.{
  ℕ, ◌+◌, ◌≤◌, ◌<◌, ◌≡◌, refl, arith, Bool, true, false, List, [], ◌∷◌, any, ◌==◌, some,
}
use agent_p1p.Store.Statements.{update, count}
use agent_p1p.Store.Attempts.{StoredDirectAttempt, last_id}
use agent_p1p.Store.Attempts.Cooldown.{attempt_row}

-- Rows that a change makes pass had passed.
pub count-update-le {ℓ} :
    {A : Type ℓ} (p chosen : A → Bool) (change : A → A) (rows : List A)
    → ((row : A) → chosen row ≡ true → p (change row) ≡ true → p row ≡ true)
    → count p (update chosen change rows) ≤ count p rows
count-update-le p chosen change [] keeps = omega arith
count-update-le p chosen change (row ∷ rows) keeps =
    ground (arith, count-update-le p chosen change rows keeps, keeps row)

-- Each row that changes may pass.
pub count-update-add {ℓ} :
    {A : Type ℓ} (p chosen : A → Bool) (change : A → A) (rows : List A)
    → count p (update chosen change rows) ≤ count p rows + count chosen rows
count-update-add p chosen change [] = omega arith
count-update-add p chosen change (row ∷ rows) =
    ground (arith, count-update-add p chosen change rows)

pub count-eq-zero {ℓ} :
    {A : Type ℓ} (p : A → Bool) (rows : List A) → any p rows ≡ false → count p rows ≡ 0
count-eq-zero p [] none_of = refl
count-eq-zero p (row ∷ rows) none_of = ground (arith, count-eq-zero p rows)

pub count_mono {ℓ} :
    {A : Type ℓ} (p q : A → Bool) (rows : List A)
    → ((row : A) → q row ≡ true → p row ≡ true)
    → count q rows ≤ count p rows
count_mono p q [] h = omega arith
count_mono p q (row ∷ rows) h = ground (arith, count_mono p q rows h, h row)

-- A row that is chosen, and what is not asked of any chosen row.
pub any-false-chosen {ℓ} :
    {A : Type ℓ} (p : A → Bool) (rows : List A) (row : A)
    → any p (row ∷ rows) ≡ false
    → (p row ≡ false) × (any p rows ≡ false)
any-false-chosen p rows row none_of = ground arith

module _ {Value : Type 0} where
  abbrev pub has_attempt_id : ℕ → StoredDirectAttempt Value → Bool
  has_attempt_id id row = row.attempt_id == id

  -- A change that keeps the ids.
  abbrev pub KeepsAttemptId : (StoredDirectAttempt Value → StoredDirectAttempt Value) → Type 0
  KeepsAttemptId change =
      (row : StoredDirectAttempt Value) → (change row).attempt_id ≡ row.attempt_id

  pub attempt_row-le-last_id :
      (rows : List (StoredDirectAttempt Value)) (id : ℕ) (row : StoredDirectAttempt Value)
      → attempt_row rows id ≡ some row
      → id ≤ last_id rows
  attempt_row-le-last_id [] id row found = cc
  attempt_row-le-last_id (first ∷ rows) id row found =
      ground (arith, attempt_row-le-last_id rows id row)

  pub count-last_id :
      (rows : List (StoredDirectAttempt Value)) (id : ℕ)
      → last_id rows < id
      → count (has_attempt_id id) rows ≡ 0
  count-last_id [] id above = refl
  count-last_id (first ∷ rows) id above = ground (arith, count-last_id rows id)

  -- A row that is not chosen is found as it was.
  pub attempt_row-update :
      (chosen : StoredDirectAttempt Value → Bool)
      (change : StoredDirectAttempt Value → StoredDirectAttempt Value)
      (rows : List (StoredDirectAttempt Value)) (id : ℕ) (row : StoredDirectAttempt Value)
      → KeepsAttemptId change
      → chosen row ≡ false
      → attempt_row rows id ≡ some row
      → attempt_row (update chosen change rows) id ≡ some row
  attempt_row-update chosen change [] id row keeps spared found = cc
  attempt_row-update chosen change (first ∷ rows) id row keeps spared found =
      ground (arith, attempt_row-update chosen change rows id row, keeps first)

  -- The row that is chosen, where its id has no other.
  pub attempt_row-chosen :
      (chosen : StoredDirectAttempt Value → Bool)
      (change : StoredDirectAttempt Value → StoredDirectAttempt Value)
      (rows : List (StoredDirectAttempt Value)) (id : ℕ) (row : StoredDirectAttempt Value)
      → KeepsAttemptId change
      → ((r : StoredDirectAttempt Value) → chosen r ≡ true → has_attempt_id id r ≡ true)
      → count (has_attempt_id id) rows ≤ 1
      → count chosen rows ≡ 1
      → attempt_row rows id ≡ some row
      → (chosen row ≡ true) × (attempt_row (update chosen change rows) id ≡ some (change row))
  attempt_row-chosen chosen change [] id row keeps has unique one found = cc
  attempt_row-chosen chosen change (first ∷ rows) id row keeps has unique one found = ground (
    arith,
    attempt_row-chosen chosen change rows id row keeps has,
    has first,
    keeps first,
    count_mono (has_attempt_id id) chosen rows has,
  )
