-- ===== src/Store/Outbox/Scope.antt =====
-- crates/pip-store/src/lib.rs: a claim stays in the scope that it names.
use text.Mathlib.Text.{◌==◌ as str_eq}
use text.Mathlib.TextEquality.{eq_iff}
use mathlib.Core.List.{Memᴰ}
use agent_p1p.Prelude.{
  ℕ, ◌+◌, ◌≡◌, refl, sym, ◌∙◌, subst, arith, String, Bool, true, false, Option, none, some, List,
  [], ◌∷◌, any, ok, ap, if◌then◌else◌, Bool-cases, if-true, if-false, some_injective, is_none_or,
  inl, inr,
}
use agent_p1p.Controller.Ledger.{EffectPayload}
use agent_p1p.Store.{OutboxRow, Handle, Stored}
use agent_p1p.Store.Outbox.{
  ClaimedEffect, in_repository, is_before, earlier, first_candidate, claims,
  claim_repository_case_effect_matching, claimed, is_claimable, is_leasable, with_lease,
}
use agent_p1p.Store.Statements.{update}
use agent_p1p.Store.Outbox.Facts.{claim_effect_inner-IsClaim}

earlier-chosen :
    (chosen : OutboxRow → Bool) (row : OutboxRow) (best : Option OutboxRow)
    → chosen row ≡ true
    → ((b : OutboxRow) → best ≡ some b → chosen b ≡ true)
    → chosen (earlier row best) ≡ true
earlier-chosen chosen row none h hs = h
earlier-chosen chosen row (some b) h hs = elim (Bool-cases (is_before b row)) [
  | inl before ↦ rw before (hs b refl)
  | inr after ↦ rw after h
]

first_candidate-chosen :
    (chosen : OutboxRow → Bool) (rows : List OutboxRow) (row : OutboxRow)
    → first_candidate chosen rows ≡ some row
    → chosen row ≡ true
first_candidate-chosen chosen [] row h = cc
first_candidate-chosen chosen (r ∷ rows) row h = elim (Bool-cases (chosen r)) [
  | inl this ↦
      subst (λ x. chosen x ≡ true) (some_injective (sym (if-true _ _ this) ∙ h))
        (earlier-chosen chosen r (first_candidate chosen rows) this
          (first_candidate-chosen chosen rows))
  | inr other ↦ first_candidate-chosen chosen rows row (sym (if-false _ _ other) ∙ h)
]

earlier-Mem :
    (first : OutboxRow) (rows : List OutboxRow) (row : OutboxRow) (best : Option OutboxRow)
    → some (earlier first best) ≡ some row
    → (best ≡ some row → Memᴰ row rows)
    → Memᴰ row (first ∷ rows)
earlier-Mem first rows row none h rest = Memᴰ.head (sym (some_injective h))
earlier-Mem first rows row (some b) h rest = elim (Bool-cases (is_before b first)) [
  | inl before ↦ Memᴰ.tail (rest (ap some (sym (if-true _ _ before) ∙ some_injective h)))
  | inr after ↦ Memᴰ.head (sym (sym (if-false _ _ after) ∙ some_injective h))
]

first_candidate-Mem :
    (chosen : OutboxRow → Bool) (rows : List OutboxRow) (row : OutboxRow)
    → first_candidate chosen rows ≡ some row
    → Memᴰ row rows
first_candidate-Mem chosen [] row h = cc
first_candidate-Mem chosen (r ∷ rows) row h = elim (Bool-cases (chosen r)) [
  | inl this ↦
      earlier-Mem r rows row (first_candidate chosen rows) (sym (if-true _ _ this) ∙ h)
        (first_candidate-Mem chosen rows row)
  | inr other ↦ Memᴰ.tail (first_candidate-Mem chosen rows row (sym (if-false _ _ other) ∙ h))
]

-- A row of the table, as the update leaves it.
update-Mem :
    (chosen : OutboxRow → Bool) (change : OutboxRow → OutboxRow) (rows : List OutboxRow)
    (row : OutboxRow)
    → Memᴰ row rows
    → Memᴰ (if chosen row then change row else row) (update chosen change rows)
update-Mem chosen change [] row there = elim there [ ]
update-Mem chosen change (r ∷ rows) row (Memᴰ.head e) =
    Memᴰ.head (ap (λ x. if chosen x then change x else x) e)
update-Mem chosen change (r ∷ rows) row (Memᴰ.tail m) =
    Memᴰ.tail (update-Mem chosen change rows row m)

module _ {Value : Type 0} (read : OutboxRow → Stored EffectPayload) where
  -- The row that a claim leases, in the outbox before and after it.
  pub record IsInScope (h h' : Handle Value) (repository : ℕ) (key : Option String) (owner : String)
      (now until : ℕ) (types : List String) (claim : ClaimedEffect) : Type 0 where
    pub row : OutboxRow
    pub was_there : Memᴰ row h.tables.outbox
    pub was_claimable : is_claimable now row ≡ true
    pub repository_is : in_repository h.tables.cases (some repository) row.case_key ≡ true
    pub case_is : is_none_or (str_eq row.case_key) key ≡ true
    pub type_is : any (str_eq row.effect_type) types ≡ true
    pub payload_is : read row ≡ ok claim.payload
    pub claim_is : claim ≡ claimed row claim.payload owner until
    pub is_leased : Memᴰ (with_lease (some (owner, until)) row) h'.tables.outbox
    pub others_stay :
        (other : OutboxRow)
        → Memᴰ other h.tables.outbox
        → str_eq other.effect_id row.effect_id ≡ false
        → Memᴰ other h'.tables.outbox

  claimed-IsInScope :
      (h h' : Handle Value) (repository : ℕ) (key : Option String) (owner : String) (now until : ℕ)
      (types : List String) (row : OutboxRow) (payload : EffectPayload)
      → claims h.tables now (some types) (some repository) key row ≡ true
      → Memᴰ row h.tables.outbox
      → read row ≡ ok payload
      → h'.tables.outbox
        ≡ update (is_leasable row.effect_id now) (with_lease (some (owner, until))) h.tables.outbox
      → IsInScope h h' repository key owner now until types (claimed row payload owner until)
  claimed-IsInScope h h' repository key owner now until types row payload chosen there is_read
        after =
      let chosen_row = is_leasable row.effect_id now in
      let leased = with_lease (some (owner, until)) in
      let claimable : is_claimable now row ≡ true = ground arith in
      let this : chosen_row row ≡ true =
        rw ((eq_iff row.effect_id row.effect_id).1 refl, claimable) refl in
      record {
        row = row;
        was_there = there;
        was_claimable = claimable;
        repository_is = ground arith;
        case_is = ground arith;
        type_is = ground arith;
        payload_is = is_read;
        claim_is = refl;
        is_leased = subst (Memᴰ (leased row)) (sym after) (
            subst (λ r. Memᴰ r (update chosen_row leased h.tables.outbox)) (if-true _ _ this)
              (update-Mem chosen_row leased h.tables.outbox row there));
        others_stay = λ other m differs. subst (Memᴰ other) (sym after) (
            subst (λ r. Memᴰ r (update chosen_row leased h.tables.outbox))
              (if-false {b = chosen_row other} _ _ (rw differs refl))
              (update-Mem chosen_row leased h.tables.outbox other m));
      }

  -- A claim for a repository, a case if it names one, and some effect types, that gives an effect,
  -- found a row of the outbox that could be claimed, of that repository and case and of one of the
  -- types. It tells the effect, the payload, the owner and the end of the lease of this row; the
  -- outbox has the row, leased by the claimant until the time asked for, and every row of another
  -- effect as it was.
  pub claim-IsInScope :
      (h h' : Handle Value) (repository : ℕ) (key : Option String) (owner : String)
      (now seconds : ℕ) (types : List String) (claim : ClaimedEffect)
      → claim_repository_case_effect_matching read h repository key owner now seconds types
        ≡ ok (h', some claim)
      → IsInScope h h' repository key owner now (now + seconds) types claim
  claim-IsInScope h h' repository key owner now seconds types claim e =
      elim (claim_effect_inner-IsClaim read h owner now seconds (some types) (some repository) key
        h' (some claim) e) [
          | inl (_, is_none) ↦ cc
          | inr (row, found, leased) ↦
              subst (IsInScope h h' repository key owner now (now + seconds) types)
                (sym (some_injective leased.claim_is))
                (claimed-IsInScope h h' repository key owner now (now + seconds) types row
                  leased.payload (first_candidate-chosen _ h.tables.outbox row found)
                  (first_candidate-Mem _ h.tables.outbox row found) leased.is_read
                  (ap (λ g. g.tables.outbox) leased.handle_after))
        ]
