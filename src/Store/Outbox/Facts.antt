-- ===== src/Store/Outbox/Facts.antt =====
-- crates/pip-store/src/lib.rs: what each operation on a lease has done when it succeeds.
use agent_p1p.Prelude.{
  ℕ, ◌+◌, ◌≡◌, refl, sym, ◌∙◌, subst, ap, arith, String, Bool, true, not, Option, none, some, List,
  ok, >>=-eq-ok, >>-eq-ok, ok_injective, ok_or-eq-ok, ◌⊎◌, inl, inr, Bool-cases, if-true, if-false,
  ok_or, is_none_or, ◌||◌, ◌==◌, fail_if,
}
use agent_p1p.Core.Domain.{checked_add_u64}
use agent_p1p.Controller.Ledger.{EffectPayload}
use agent_p1p.Store.{
  lease_lost, invalid_input, invalid_integer, OutboxRow, Handle, Stored, sql_u64, sql_option,
  ensure_writable,
}
use agent_p1p.Prelude.Text.{not_blank}
use agent_p1p.Store.Step.Facts.{checked_add_u64_lem}
use agent_p1p.Store.Statements.{update, count}
use agent_p1p.Store.Outbox.{
  ClaimedEffect, first_candidate, claims, claimed, with_lease, lease_row, with_outbox, check_types,
  is_leasable, is_held, is_held_at, deliver, take_lease, claim_effect_inner, is_zero,
  acknowledge_effect, release_effect,
}

passes : {E : Type 0} (b : Bool) (e : E) → fail_if (not b) e ≡ ok tt → b ≡ true
passes b e h = ground arith

module _ {Value : Type 0} where
  module _ (read : OutboxRow → Stored EffectPayload) (handle : Handle Value) (owner : String)
      (now : ℕ) where
    -- A row that has been leased.
    pub record IsLeased (until : ℕ) (row : OutboxRow) (handle' : Handle Value)
        (claim : Option ClaimedEffect) : Type 0 where
      pub payload : EffectPayload
      pub is_read : read row ≡ ok payload
      pub is_one : (count (is_leasable row.effect_id now) handle.tables.outbox == 1) ≡ true
      pub handle_after :
          handle'
          ≡ with_outbox handle (
              update
                (is_leasable row.effect_id now)
                (with_lease (some (owner, until)))
                handle.tables.outbox)
      pub claim_is : claim ≡ some (claimed row payload owner until)

    lease_row_lem :
        (until : ℕ) (row : OutboxRow) (handle' : Handle Value) (claim : Option ClaimedEffect)
        → (count (is_leasable row.effect_id now) handle.tables.outbox == 1) ≡ true
        → lease_row read handle owner now until row ≡ ok (handle', claim)
        → IsLeased until row handle' claim
    lease_row_lem until row handle' claim one h =
        let (payload, is_read, h1) = >>=-eq-ok _ _ h in
        let e = ok_injective h1 in
        record {
          payload = payload;
          is_read = is_read;
          is_one = one;
          handle_after = sym (ap (λ p. p.0) e);
          claim_is = sym (ap (λ p. p.1) e);
        }

    unleased :
        (handle' : Handle Value) (claim : Option ClaimedEffect)
        → ◌≡◌ {A = Stored (Handle Value × Option ClaimedEffect)}
            (ok (handle, none))
            (ok (handle', claim))
        → (handle' ≡ handle) × (claim ≡ none)
    unleased handle' claim h =
        let e = ok_injective h in (sym (ap (λ p. p.0) e), sym (ap (λ p. p.1) e))

    -- Nothing was leased, or the row that was found.
    abbrev pub IsClaim : ℕ → Option OutboxRow → Handle Value → Option ClaimedEffect → Type 0
    IsClaim until found handle' claim =
        ((handle' ≡ handle) × (claim ≡ none))
        ⊎ ((row : OutboxRow) × (found ≡ some row) × IsLeased until row handle' claim)

    take_lease-cases :
        (until : ℕ) (found : Option OutboxRow) (handle' : Handle Value)
        (claim : Option ClaimedEffect)
        → take_lease read handle owner now until found ≡ ok (handle', claim)
        → IsClaim until found handle' claim
    unfolding take_lease
    take_lease-cases until none handle' claim h = inl (unleased handle' claim h)
    take_lease-cases until (some row) handle' claim h =
        let (_, h1) = >>-eq-ok (sql_u64 until) _ h in
        elim (Bool-cases (count (is_leasable row.effect_id now) handle.tables.outbox == 1)) [
          | inl one ↦
              inr
                (row, refl, lease_row_lem until row handle' claim one (sym (if-true _ _ one) ∙ h1))
          | inr other ↦ inl (unleased handle' claim (sym (if-false _ _ other) ∙ h1))
        ]

    -- A claim that succeeds found nothing, or leased the first candidate.
    pub claim_effect_inner-IsClaim :
        (seconds : ℕ) (types : Option (List String)) (repository : Option ℕ) (key : Option String)
        (handle' : Handle Value) (claim : Option ClaimedEffect)
        → claim_effect_inner read handle owner now seconds types repository key
          ≡ ok (handle', claim)
        → IsClaim
            (now + seconds)
            (first_candidate (claims handle.tables now types repository key) handle.tables.outbox)
            handle'
            claim
    unfolding claim_effect_inner
    claim_effect_inner-IsClaim seconds types repository key handle' claim h =
        let (_, h1) = >>-eq-ok (ensure_writable handle) _ h in
        let (_, h2) =
          >>-eq-ok
            (fail_if
              (not (not_blank owner)
                || seconds == 0
                || is_zero repository
                || not (is_none_or not_blank key))
              (invalid_input "owner, positive lease and valid repository scope are required"))
            _ h1 in
        let (_, h3) = >>-eq-ok (check_types types) _ h2 in
        let (until, added, h4) =
          >>=-eq-ok (ok_or (checked_add_u64 now seconds) invalid_integer) _ h3 in
        let (_, h5) = >>-eq-ok (sql_u64 now) _ h4 in
        let (_, h6) = >>-eq-ok (sql_option repository) _ h5 in
        let found =
          first_candidate (claims handle.tables now types repository key) handle.tables.outbox in
        subst (λ n. IsClaim n found handle' claim)
          (checked_add_u64_lem now seconds until (ok_or-eq-ok _ _ added))
          (take_lease-cases until found handle' claim h6)

  pub acknowledge_effect_lem :
      (handle handle' : Handle Value) (id owner : String) (now : ℕ)
      → acknowledge_effect handle id owner now ≡ ok handle'
      → handle'
        ≡ with_outbox handle (update (is_held_at id owner now) (deliver now) handle.tables.outbox)
  unfolding acknowledge_effect
  acknowledge_effect_lem handle handle' id owner now h =
      let (_, h1) = >>-eq-ok (ensure_writable handle) _ h in
      let (_, h2) = >>-eq-ok (sql_u64 now) _ h1 in
      let (_, h3) = >>-eq-ok _ _ h2 in sym (ok_injective h3)

  pub acknowledge_effect-count :
      (handle handle' : Handle Value) (id owner : String) (now : ℕ)
      → acknowledge_effect handle id owner now ≡ ok handle'
      → (count (is_held_at id owner now) handle.tables.outbox == 1) ≡ true
  unfolding acknowledge_effect
  acknowledge_effect-count handle handle' id owner now h =
      let (_, h1) = >>-eq-ok (ensure_writable handle) _ h in
      let (_, h2) = >>-eq-ok (sql_u64 now) _ h1 in
      let (one, _) = >>-eq-ok _ _ h2 in passes _ (lease_lost id) one

  pub release_effect_lem :
      (handle handle' : Handle Value) (id owner : String)
      → release_effect handle id owner ≡ ok handle'
      → handle'
        ≡ with_outbox handle (update (is_held id owner) (with_lease none) handle.tables.outbox)
  unfolding release_effect
  release_effect_lem handle handle' id owner h =
      let (_, h1) = >>-eq-ok (ensure_writable handle) _ h in
      let (_, h2) =
        >>-eq-ok
          (fail_if (not (not_blank id) || not (not_blank owner))
            (invalid_input "effect id and lease owner are required"))
          _ h1 in
      let (_, h3) = >>-eq-ok _ _ h2 in sym (ok_injective h3)
