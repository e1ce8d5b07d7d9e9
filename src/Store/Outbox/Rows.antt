-- ===== src/Store/Outbox/Rows.antt =====
-- crates/pip-store/src/lib.rs: the rows of the outbox that have one effect id.
use text.Mathlib.Text.{◌==◌ as str_eq}
use text.Mathlib.TextEquality.{eq_iff}
use agent_p1p.Prelude.{
  ℕ, ◌≤◌, ◌≡◌, refl, ◌∙◌, subst, arith, String, Bool, true, false, List, [], ◌∷◌, any, ok, All,
  or_right, Bool-cases, inl, inr, ok_injective,
}
use agent_p1p.Controller.Ledger.{EffectInput}
use agent_p1p.Store.{OutboxRow}
use agent_p1p.Store.Statements.{update, count, insert_effects, new_effect}

count-eq-zero {ℓ} : {A : Type ℓ} (p : A → Bool) (xs : List A) → any p xs ≡ false → count p xs ≡ 0
count-eq-zero p [] h = refl
count-eq-zero p (x ∷ xs) h = ground (arith, count-eq-zero p xs)

count_mono {ℓ} :
    {A : Type ℓ} (p q : A → Bool) (xs : List A)
    → ((x : A) → q x ≡ true → p x ≡ true)
    → count q xs ≤ count p xs
count_mono p q [] h = omega arith
count_mono p q (x ∷ xs) h = ground (arith, count_mono p q xs h, h x)

count-zero-All {ℓ} :
    {A : Type ℓ} (p q : A → Bool) (xs : List A)
    → count p xs ≤ 0
    → All (λ x. p x ≡ true → q x ≡ true) xs
count-zero-All p q [] none_of = tt
count-zero-All p q (x ∷ xs) none_of = (λ h. ground arith, count-zero-All p q xs (ground arith))

-- Where at most one row passes the wider test, and one the narrower, none passes only the wider.
pub count-one-All {ℓ} :
    {A : Type ℓ} (p q : A → Bool) (xs : List A)
    → ((x : A) → q x ≡ true → p x ≡ true)
    → count p xs ≤ 1
    → count q xs ≡ 1
    → All (λ x. p x ≡ true → q x ≡ true) xs
count-one-All p q [] h at_most one = tt
count-one-All p q (x ∷ xs) h at_most one =
    let rest = count_mono p q xs h in
    elim (Bool-cases (p x)) [
      | inl chosen ↦ (λ _. ground (arith, rest), count-zero-All p q xs (ground (arith, rest)))
      | inr other ↦
          let other' = h x in
          (
            λ chosen. ground arith,
            count-one-All p q xs h (ground (arith, h x)) (ground (arith, h x)),
          )
    ]

abbrev pub has_id : String → OutboxRow → Bool
has_id id row = str_eq row.effect_id id

-- `effect_id TEXT PRIMARY KEY`
abbrev pub IsUnique : List OutboxRow → Type 0
IsUnique rows = (id : String) → count (has_id id) rows ≤ 1

-- A change that keeps the ids.
abbrev pub KeepsId : (OutboxRow → OutboxRow) → Type 0
KeepsId change = (row : OutboxRow) → (change row).effect_id ≡ row.effect_id

count-update :
    (chosen : OutboxRow → Bool) (change : OutboxRow → OutboxRow) (id : String)
    (rows : List OutboxRow)
    → KeepsId change
    → count (has_id id) (update chosen change rows) ≡ count (has_id id) rows
count-update chosen change id [] keeps = refl
count-update chosen change id (row ∷ rows) keeps = elim (Bool-cases (chosen row)) [
  | inl this ↦ rw (this, count-update chosen change id rows keeps, keeps row) refl
  | inr other ↦ rw (other, count-update chosen change id rows keeps) refl
]

insert_effects-nil :
    (key : String) (revision at : ℕ) (rows rows' : List OutboxRow)
    → insert_effects key revision at rows [] ≡ ok rows'
    → rows ≡ rows'
unfolding insert_effects
insert_effects-nil key revision at rows rows' h = ok_injective h

pub insert_effects-cons :
    (key : String) (revision at : ℕ) (rows rows' : List OutboxRow) (effect : EffectInput)
    (effects : List EffectInput)
    → insert_effects key revision at rows (effect ∷ effects) ≡ ok rows'
    → (any (has_id effect.effect_id) rows ≡ false)
      × (insert_effects key revision at (new_effect key revision at effect ∷ rows) effects
          ≡ ok rows')
unfolding insert_effects
insert_effects-cons key revision at rows rows' effect effects h = ground arith

cons-IsUnique :
    (row : OutboxRow) (rows : List OutboxRow)
    → any (has_id row.effect_id) rows ≡ false
    → IsUnique rows
    → IsUnique (row ∷ rows)
cons-IsUnique row rows new unique id = elim (Bool-cases (has_id id row)) [
  | inl same ↦
      let zero_of = count-eq-zero (has_id row.effect_id) rows new in
      let is = subst (λ k. count (has_id k) rows ≡ 0) ((eq_iff row.effect_id id).0 same) zero_of in
      rw (same, is) (omega arith)
  | inr other ↦ rw other (unique id)
]

pub insert_effects-IsUnique :
    (key : String) (revision at : ℕ) (rows rows' : List OutboxRow) (effects : List EffectInput)
    → insert_effects key revision at rows effects ≡ ok rows'
    → IsUnique rows
    → IsUnique rows'
insert_effects-IsUnique key revision at rows rows' [] h unique =
    subst IsUnique (insert_effects-nil key revision at rows rows' h) unique
insert_effects-IsUnique key revision at rows rows' (effect ∷ effects) h unique =
    let (new, rest) = insert_effects-cons key revision at rows rows' effect effects h in
    insert_effects-IsUnique key revision at (new_effect key revision at effect ∷ rows) rows' effects
      rest (cons-IsUnique (new_effect key revision at effect) rows new unique)

pub update-IsUnique :
    (chosen : OutboxRow → Bool) (change : OutboxRow → OutboxRow) (rows : List OutboxRow)
    → KeepsId change
    → IsUnique rows
    → IsUnique (update chosen change rows)
update-IsUnique chosen change rows keeps unique id =
    rw (count-update chosen change id rows keeps) (unique id)

pub any-update :
    (id : String) (chosen : OutboxRow → Bool) (change : OutboxRow → OutboxRow)
    (rows : List OutboxRow)
    → KeepsId change
    → any (has_id id) (update chosen change rows) ≡ any (has_id id) rows
any-update id chosen change [] keeps = refl
any-update id chosen change (row ∷ rows) keeps = elim (Bool-cases (chosen row)) [
  | inl this ↦ rw (this, any-update id chosen change rows keeps, keeps row) refl
  | inr other ↦ rw (other, any-update id chosen change rows keeps) refl
]

-- The rows of one effect, and what is known of each of them.
module _ (id : String) (P : OutboxRow → Type 0) where
  abbrev pub Each : List OutboxRow → Type 0
  Each rows = All (λ row. has_id id row ≡ true → P row) rows

  abbrev pub Holds : List OutboxRow → Type 0
  Holds rows = (any (has_id id) rows ≡ true) × Each rows

  update-Each :
      (chosen : OutboxRow → Bool) (change : OutboxRow → OutboxRow) (rows : List OutboxRow)
      → KeepsId change
      → ((row : OutboxRow) → has_id id row ≡ true → P row → chosen row ≡ true → P (change row))
      → Each rows
      → Each (update chosen change rows)
  update-Each chosen change [] keeps holds each = tt
  update-Each chosen change (row ∷ rows) keeps holds (one, rest) = (
    elim (Bool-cases (chosen row)) [
      | inl this ↦ rw this (λ same.
          let same' = subst (λ k. str_eq k id ≡ true) (keeps row) same in
          holds row same' (one same') this)
      | inr other ↦ rw other one
    ],
    update-Each chosen change rows keeps holds rest,
  )

  pub update-Holds :
      (chosen : OutboxRow → Bool) (change : OutboxRow → OutboxRow) (rows : List OutboxRow)
      → KeepsId change
      → ((row : OutboxRow) → has_id id row ≡ true → P row → chosen row ≡ true → P (change row))
      → Holds rows
      → Holds (update chosen change rows)
  update-Holds chosen change rows keeps holds (known, each) = (
    any-update id chosen change rows keeps ∙ known,
    update-Each chosen change rows keeps holds each,
  )

  cons-Holds :
      (row : OutboxRow) (rows : List OutboxRow)
      → any (has_id row.effect_id) rows ≡ false
      → Holds rows
      → Holds (row ∷ rows)
  cons-Holds row rows new (known, each) = (
    or_right (has_id id row) _ known,
    (
      λ same.
          let none_of =
            subst (λ k. any (has_id k) rows ≡ false) ((eq_iff row.effect_id id).0 same) new in
          cc,
      each,
    ),
  )

  pub insert_effects-Holds :
      (key : String) (revision at : ℕ) (rows rows' : List OutboxRow) (effects : List EffectInput)
      → insert_effects key revision at rows effects ≡ ok rows'
      → Holds rows
      → Holds rows'
  insert_effects-Holds key revision at rows rows' [] h holds =
      subst Holds (insert_effects-nil key revision at rows rows' h) holds
  insert_effects-Holds key revision at rows rows' (effect ∷ effects) h holds =
      let (new, rest) = insert_effects-cons key revision at rows rows' effect effects h in
      insert_effects-Holds key revision at (new_effect key revision at effect ∷ rows) rows' effects
        rest (cons-Holds (new_effect key revision at effect) rows new holds)
