-- ===== src/Store/Outbox/Once.antt =====
-- crates/pip-store/src/lib.rs: an update of the one row that passes its test.
use agent_p1p.Prelude.{
  ℕ, ◌≡◌, refl, ◌∙◌, arith, String, Bool, true, false, List, [], ◌∷◌, any, ◌==◌, ==_iff, All,
  Bool-cases, inl, inr,
}
use agent_p1p.Store.{OutboxRow}
use agent_p1p.Store.Statements.{update, count}
use agent_p1p.Store.Outbox.{is_leasable, is_claimable}
use agent_p1p.Store.Outbox.Rows.{has_id, IsUnique, KeepsId, Each, Holds, count-one-All, any-update}

any-count {ℓ} :
    {A : Type ℓ} (p q : A → Bool) (xs : List A)
    → ((x : A) → q x ≡ true → p x ≡ true)
    → count q xs ≡ 1
    → any p xs ≡ true
any-count p q [] h one = ground arith
any-count p q (x ∷ xs) h one = ground (arith, h x, any-count p q xs h)

module _ (id : String) (P : OutboxRow → Type 0) where
  update-chosen :
      (chosen : OutboxRow → Bool) (change : OutboxRow → OutboxRow) (rows : List OutboxRow)
      → KeepsId change
      → ((row : OutboxRow) → chosen row ≡ true → P (change row))
      → All (λ row. has_id id row ≡ true → chosen row ≡ true) rows
      → Each id P (update chosen change rows)
  update-chosen chosen change [] keeps makes all_chosen = tt
  update-chosen chosen change (row ∷ rows) keeps makes (one, rest) = (
    elim (Bool-cases (chosen row)) [
      | inl this ↦ rw this (λ same. makes row this)
      | inr other ↦ rw other (λ same. let this = one same in cc)
    ],
    update-chosen chosen change rows keeps makes rest,
  )

  -- The row that is updated is the only one of its id.
  pub update-once :
      (chosen : OutboxRow → Bool) (change : OutboxRow → OutboxRow) (rows : List OutboxRow)
      → KeepsId change
      → ((row : OutboxRow) → chosen row ≡ true → has_id id row ≡ true)
      → ((row : OutboxRow) → chosen row ≡ true → P (change row))
      → IsUnique rows
      → (count chosen rows == 1) ≡ true
      → Holds id P (update chosen change rows)
  update-once chosen change rows keeps has makes unique one =
      let one' = (==_iff _ _).0 one in
      (
        any-update id chosen change rows keeps ∙ any-count (has_id id) chosen rows has one',
        update-chosen chosen change rows keeps makes
            (count-one-All (has_id id) chosen rows has (unique id) one'),
      )

-- Where no row of an id can be claimed, none is leased.
pub count-is_leasable :
    (id : String) (now : ℕ) (rows : List OutboxRow)
    → Each id (λ row. is_claimable now row ≡ false) rows
    → count (is_leasable id now) rows ≡ 0
count-is_leasable id now [] each = refl
count-is_leasable id now (row ∷ rows) (one, rest) =
    rw (count-is_leasable id now rows rest) (elim (Bool-cases (has_id id row)) [
      | inl same ↦ rw (same, one same) refl
      | inr other ↦ rw other refl
    ])

pub Each-mono :
    (id : String) (P Q : OutboxRow → Type 0) (rows : List OutboxRow)
    → ((row : OutboxRow) → P row → Q row)
    → Each id P rows
    → Each id Q rows
Each-mono id P Q [] weaker each = tt
Each-mono id P Q (row ∷ rows) weaker (one, rest) =
    (λ same. weaker row (one same), Each-mono id P Q rows weaker rest)
