-- ===== src/Store/Moves/Projected.antt =====
-- crates/pip-store/src/lib.rs: the projections agree with the events, whatever was done.
use text.Mathlib.Text.{◌==◌ as str_eq}
use text.Mathlib.TextEquality.{eq_iff}
use agent_p1p.Prelude.{
  ℕ, Bool, ◌≡◌, refl, sym, subst, String, true, Option, none, List, [], ◌∷◌, ok, inl, inr,
  Bool-cases, >>=-eq-ok, >>-eq-ok, ok_injective, ◌⊎◌,
}
use agent_p1p.Controller.Ledger.{EffectPayload}
use agent_p1p.Controller.Ledger.Batch.{ApplyResult}
use agent_p1p.Store.{FaultPoint, NewCase, OutboxRow, Tables, Handle, Stored}
use agent_p1p.Store.Statements.{query_case}
use agent_p1p.Store.Checks.{Transition, Codec, Guards}
use agent_p1p.Store.Creation.{first_event, first_row}
use agent_p1p.Store.Creation.Facts.{IsCreated, create_case-cases}
use agent_p1p.Store.Apply.{apply_all}
use agent_p1p.Store.Apply.Facts.{IsOutcome, apply_transition_batch-IsOutcome}
use agent_p1p.Store.History.{latest, join_case, projection_matches_history}
use agent_p1p.Store.History.Agreement.{Agrees, apply_one-Agrees}
use agent_p1p.Store.History.Repair.{repair-Agrees, AgreesAt-matches}
use agent_p1p.Store.Outbox.Facts.{acknowledge_effect_lem, release_effect_lem}
use agent_p1p.Store.Completion.{IsCompletion, complete_effect_evidence-IsCompletion}
use agent_p1p.Store.Moves.{
  Move, creates, applies, repairs, leases, completes, acknowledges, releases, Reach, here, next,
  empty_handle,
}
use agent_p1p.Store.Moves.Kept.{claim_effect_inner-OnlyOutbox}

module _ {Value : Type 0} (codec : Codec Value) (guards : Guards Value) where
  apply_all-Agrees :
      (fault : Option FaultPoint) (t t' : Tables Value) (inputs : List (Transition Value))
      → apply_all codec guards fault t inputs ≡ ok t'
      → Agrees t
      → Agrees t'
  unfolding apply_all
  apply_all-Agrees fault t t' [] h agrees = subst Agrees (ok_injective h) agrees
  apply_all-Agrees fault t t' (input ∷ inputs) h agrees =
      let (t1, one, h1) = >>=-eq-ok _ _ h in
      let (_, rest) = >>-eq-ok _ _ h1 in
      apply_all-Agrees fault t1 t' inputs rest
        (apply_one-Agrees codec guards fault t t1 input one agrees)

  IsOutcome-Agrees :
      (fault : Option FaultPoint) (h h' : Handle Value) (inputs : List (Transition Value))
      (result : ApplyResult)
      → IsOutcome codec guards fault h inputs h' result
      → Agrees h.tables
      → Agrees h'.tables
  IsOutcome-Agrees fault h h' inputs result (inl (same, _, _)) agrees =
      subst (λ g. Agrees g.tables) (sym same) agrees
  IsOutcome-Agrees fault h h' inputs result (inr applied) agrees =
      subst (λ g. Agrees g.tables) (sym applied.handle_after)
        (apply_all-Agrees fault h.tables applied.tables inputs applied.ran agrees)

  created-AgreesAt :
      (h : Handle Value) (input : NewCase Value) (key : String)
      → query_case h.tables.cases input.case_key ≡ none
      → Agrees h.tables
      → (join_case
            (query_case (first_row input ∷ h.tables.cases) key)
            (latest key none (first_event input (codec.hash_new_case input) ∷ h.tables.events))
          ≡ query_case (first_row input ∷ h.tables.cases) key)
        × (query_case (first_row input ∷ h.tables.cases) key ≡ none
            → latest key none (first_event input (codec.hash_new_case input) ∷ h.tables.events)
              ≡ none)
  created-AgreesAt h input key is_new agrees = elim (Bool-cases (str_eq input.case_key key)) [
    | inl same ↦
        let key_is = (eq_iff input.case_key key).0 same in
        let no_event =
          (agrees key).1 (subst (λ k. query_case h.tables.cases k ≡ none) key_is is_new) in
        (rw (same, no_event) refl, rw same (λ e. cc))
    | inr other ↦ rw other (agrees key)
  ]

  created-Agrees :
      (h h' : Handle Value) (input : NewCase Value)
      → ((h' ≡ h) ⊎ IsCreated codec h input h')
      → Agrees h.tables
      → Agrees h'.tables
  created-Agrees h h' input (inl same) agrees = subst (λ g. Agrees g.tables) (sym same) agrees
  created-Agrees h h' input (inr created) agrees =
      subst (λ g. Agrees g.tables) (sym created.handle_after)
        (λ key. created-AgreesAt h input key created.case_is_new agrees)

  completed-Agrees :
      (h h' : Handle Value) (same_value : Value → Value → Bool) (id owner : String) (now : ℕ)
      → IsCompletion same_value codec.is_object h id owner now h'
      → Agrees h.tables
      → Agrees h'.tables
  completed-Agrees h h' same_value id owner now (inl same) agrees =
      subst (λ g. Agrees g.tables) (sym same) agrees
  completed-Agrees h h' same_value id owner now (inr (t, (cases, events, _), _, after)) agrees =
      subst (λ g. Agrees g.tables) (sym after) (λ key. rw (cases, events) (agrees key))

  module _ (read : OutboxRow → Stored EffectPayload) where
    Move-Agrees :
        {h h' : Handle Value} → Move codec guards read h h' → Agrees h.tables → Agrees h'.tables
    Move-Agrees {h} {h'} (creates input result e) agrees =
        created-Agrees h h' input (create_case-cases codec h input h' result e) agrees
    Move-Agrees {h} {h'} (applies fault inputs result e) agrees =
        let (_, outcome) =
          apply_transition_batch-IsOutcome codec guards fault h inputs h' result e in
        IsOutcome-Agrees fault h h' inputs result outcome agrees
    Move-Agrees {h} {h'} (repairs key e) agrees = repair-Agrees h h' key e agrees
    Move-Agrees {h} {h'} (leases owner now seconds types repository key claim e) agrees =
        let (_, same) =
          claim_effect_inner-OnlyOutbox read h h' owner now seconds types repository key claim e in
        subst (λ g. Agrees g.tables) (sym same) agrees
    Move-Agrees {h} {h'} (acknowledges id owner now e) agrees =
        subst (λ g. Agrees g.tables) (sym (acknowledge_effect_lem h h' id owner now e)) agrees
    Move-Agrees {h} {h'} (completes same_value id owner now evidence result e) agrees =
        completed-Agrees h h' same_value id owner now
          (complete_effect_evidence-IsCompletion same_value codec.is_object h h' id owner now
            evidence result e)
          agrees
    Move-Agrees {h} {h'} (releases id owner e) agrees =
        subst (λ g. Agrees g.tables) (sym (release_effect_lem h h' id owner e)) agrees

    pub Reach-Agrees :
        {h h' : Handle Value} → Reach codec guards read h h' → Agrees h.tables → Agrees h'.tables
    Reach-Agrees here agrees = agrees
    Reach-Agrees (next reach move) agrees = Move-Agrees move (Reach-Agrees reach agrees)

    -- Whatever is created, applied, repaired, leased, acknowledged, completed with evidence and
    -- released from an empty ledger on, the projection of every case matches its history.
    pub Reach-projection_matches_history :
        (h : Handle Value) (key : String)
        → Reach codec guards read empty_handle h
        → projection_matches_history h.tables key ≡ true
    Reach-projection_matches_history h key reach =
        AgreesAt-matches h.tables key (Reach-Agrees reach (λ k. (refl, λ e. refl)) key).0
