-- ===== src/Store/Moves/Leases.antt =====
-- crates/pip-store/src/lib.rs: a lease is exclusive, and a delivery final.
use text.Mathlib.TextEquality.{eq_iff}
use agent_p1p.Prelude.{
  some_injective, ℕ, ◌+◌, ◌≤◌, ◌≡◌, ◌≢◌, refl, sym, ◌∙◌, subst, ap, arith, String, false, Option,
  none, some, List, ok, inl, inr, ==_iff,
}
use agent_p1p.Controller.Ledger.{EffectPayload}
use agent_p1p.Store.{OutboxRow, Handle, Stored}
use agent_p1p.Store.Statements.{count, is_open}
use agent_p1p.Store.Checks.{Codec, Guards}
use agent_p1p.Store.Step.{supersede_row}
use agent_p1p.Store.Outbox.{
  ClaimedEffect, is_claimable, is_leasable, is_held, is_held_at, with_lease, deliver,
  claim_effect_inner,
}
use agent_p1p.Store.Outbox.Facts.{claim_effect_inner-IsClaim}
use agent_p1p.Store.Outbox.Rows.{
  IsUnique, insert_effects-IsUnique, update-IsUnique, Holds, update-Holds, insert_effects-Holds,
}
use agent_p1p.Store.Outbox.Once.{count-is_leasable}
use agent_p1p.Store.Moves.{
  Move, creates, applies, repairs, leases, completes, acknowledges, releases,
}
use agent_p1p.Store.Moves.Rows.{IsClosed, Spares, Move-outbox}

module _ (Value : Type 0) where
  IsUnique-IsClosed : IsClosed Value IsUnique
  IsUnique-IsClosed = record {
    inserted = insert_effects-IsUnique;
    superseded =
        λ chosen input rows. update-IsUnique chosen (supersede_row input) rows (λ row. refl);
    delivered = λ id owner now rows.
        update-IsUnique (is_held_at id owner now) (deliver now) rows (λ row. refl);
  }

  -- The rows of an effect that cannot be claimed at a time.
  abbrev pub IsTaken : String → ℕ → List OutboxRow → Type 0
  IsTaken id at = Holds id (λ row. is_claimable at row ≡ false)

  pub IsTaken-IsClosed : (id : String) (at : ℕ) → IsClosed Value (IsTaken id at)
  IsTaken-IsClosed id at = record {
    inserted = insert_effects-Holds id _;
    superseded = λ chosen input rows.
        update-Holds id _ chosen (supersede_row input) rows (λ row. refl)
          (λ row same taken this. ground arith);
    delivered = λ id' owner now rows.
        update-Holds id _ (is_held_at id' owner now) (deliver now) rows (λ row. refl)
          (λ row same taken this. refl);
  }

  -- The rows of an effect that is delivered, or was superseded.
  abbrev pub IsOver : String → List OutboxRow → Type 0
  IsOver id = Holds id (λ row. is_open row ≡ false)

  pub IsOver-IsClosed : (id : String) → IsClosed Value (IsOver id)
  IsOver-IsClosed id = record {
    inserted = insert_effects-Holds id _;
    superseded = λ chosen input rows.
        update-Holds id _ chosen (supersede_row input) rows (λ row. refl)
          (λ row same over this. ground arith);
    delivered = λ id' owner now rows.
        update-Holds id _ (is_held_at id' owner now) (deliver now) rows (λ row. refl)
          (λ row same over this. refl);
  }

-- What cannot be claimed at a time could not be claimed before it.
pub is_claimable_mono :
    (now at : ℕ) (row : OutboxRow)
    → now ≤ at
    → is_claimable at row ≡ false
    → is_claimable now row ≡ false
is_claimable_mono now at row earlier taken = ground arith

pub claim_effect_inner-held :
    {Value : Type 0} (read : OutboxRow → Stored EffectPayload) (h h' : Handle Value)
    (owner id : String) (now seconds : ℕ) (types : Option (List String)) (repository : Option ℕ)
    (key : Option String) (claim : ClaimedEffect)
    → Holds id (λ row. is_claimable now row ≡ false) h.tables.outbox
    → claim_effect_inner read h owner now seconds types repository key ≡ ok (h', some claim)
    → claim.effect_id ≢ id
claim_effect_inner-held read h h' owner id now seconds types repository key claim (_, each) e same =
    elim (claim_effect_inner-IsClaim read h owner now seconds types repository key h' (some claim)
      e) [
        | inl (_, is_none) ↦ cc
        | inr (row, _, leased) ↦
            let claimed_is = some_injective leased.claim_is in
            let id_is = sym (ap (λ c. c.effect_id) claimed_is) ∙ same in
            let one =
              subst (λ k. count (is_leasable k now) h.tables.outbox ≡ 1) id_is
                ((==_iff _ _).0 leased.is_one) in
            let zero_of = count-is_leasable id now h.tables.outbox each in omega arith
      ]

module _ {Value : Type 0} (codec : Codec Value) (guards : Guards Value)
    (read : OutboxRow → Stored EffectPayload) where
  unique_spared :
      {h h' : Handle Value} (move : Move codec guards read h h')
      → Spares IsUnique (IsUnique-IsClosed Value) codec guards read move
  unique_spared (leases owner now seconds _ _ _ _ _) = λ id rows.
      update-IsUnique (is_leasable id now) (with_lease (some (owner, now + seconds))) rows
        (λ row. refl)
  unique_spared (releases id owner _) =
      λ rows. update-IsUnique (is_held id owner) (with_lease none) rows (λ row. refl)
  unique_spared (creates _ _ _) = tt
  unique_spared (applies _ _ _ _) = tt
  unique_spared (repairs _ _) = tt
  unique_spared (acknowledges _ _ _ _) = tt
  unique_spared (completes _ _ _ _ _ _ _) = tt

  pub Move-IsUnique :
      {h h' : Handle Value}
      → Move codec guards read h h'
      → IsUnique h.tables.outbox
      → IsUnique h'.tables.outbox
  Move-IsUnique move =
      Move-outbox IsUnique (IsUnique-IsClosed Value) codec guards read move (unique_spared move)

  pub over_spared :
      (id : String) {h h' : Handle Value} (move : Move codec guards read h h')
      → Spares (IsOver Value id) (IsOver-IsClosed Value id) codec guards read move
  over_spared id (leases owner now seconds _ _ _ _ _) = λ id' rows.
      update-Holds id _ (is_leasable id' now) (with_lease (some (owner, now + seconds))) rows
        (λ row. refl) (λ row same over this. ground arith)
  over_spared id (releases id' owner _) = λ rows.
      update-Holds id _ (is_held id' owner) (with_lease none) rows (λ row. refl)
        (λ row same over this. ground arith)
  over_spared id (creates _ _ _) = tt
  over_spared id (applies _ _ _ _) = tt
  over_spared id (repairs _ _) = tt
  over_spared id (acknowledges _ _ _ _) = tt
  over_spared id (completes _ _ _ _ _ _ _) = tt

  -- The effect is not released, and no claim is made after the time.
  abbrev pub Undisturbed : String → ℕ → {h h' : Handle Value} → Move codec guards read h h' → Type 0
  Undisturbed id at (leases _ now _ _ _ _ _ _) = now ≤ at
  Undisturbed id at (releases id' _ _) = id' ≢ id
  Undisturbed id at _ = Unit {0}

  pub taken_spared :
      (id : String) (at : ℕ) {h h' : Handle Value} (move : Move codec guards read h h')
      → Undisturbed id at move
      → Spares (IsTaken Value id at) (IsTaken-IsClosed Value id at) codec guards read move
  taken_spared id at (leases owner now seconds _ _ _ _ _) earlier = λ id' rows.
      update-Holds id _ (is_leasable id' now) (with_lease (some (owner, now + seconds))) rows
        (λ row. refl)
        (λ row same taken this.
          let taken' = is_claimable_mono now at row earlier taken in ground arith)
  taken_spared id at (releases id' owner _) apart = λ rows.
      update-Holds id _ (is_held id' owner) (with_lease none) rows (λ row. refl)
        (λ row same taken this. ground (arith, eq_iff row.effect_id id', eq_iff row.effect_id id))
  taken_spared id at (creates _ _ _) _ = tt
  taken_spared id at (applies _ _ _ _) _ = tt
  taken_spared id at (repairs _ _) _ = tt
  taken_spared id at (acknowledges _ _ _ _) _ = tt
  taken_spared id at (completes _ _ _ _ _ _ _) _ = tt
