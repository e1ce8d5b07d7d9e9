-- ===== src/Store/Moves/Kept.antt =====
-- crates/pip-store/src/lib.rs: what every operation keeps of the events and of the projections.
use agent_p1p.Prelude.{
  Bool, ℕ, ◌≡◌, refl, sym, ◌∙◌, subst, ap, String, Option, some, List, ok, inl, inr, ◌⊎◌,
}
use agent_p1p.Controller.Ledger.{EffectPayload}
use agent_p1p.Controller.Ledger.Batch.{ApplyResult}
use agent_p1p.Store.{FaultPoint, NewCase, OutboxRow, Handle, Stored}
use agent_p1p.Store.Statements.{existing_event}
use agent_p1p.Store.Checks.{Transition, Codec, Guards}
use agent_p1p.Store.Creation.Facts.{IsCreated, create_case-cases}
use agent_p1p.Store.Creation.{first_event}
use agent_p1p.Store.Apply.Facts.{IsOutcome, apply_transition_batch-IsOutcome}
use agent_p1p.Store.Apply.Replay.{existing_event-cons, apply_all-existing_event}
use agent_p1p.Store.History.Repair.{repair_case_projection_lem}
use agent_p1p.Store.Outbox.{ClaimedEffect, claim_effect_inner, with_outbox}
use agent_p1p.Store.Outbox.Facts.{
  claim_effect_inner-IsClaim, acknowledge_effect_lem, release_effect_lem,
}
use agent_p1p.Store.Completion.{IsCompletion, complete_effect_evidence-IsCompletion}
use agent_p1p.Store.Moves.{
  Move, creates, applies, repairs, leases, completes, acknowledges, releases, Reach, here, next,
}

module _ {Value : Type 0} where
  -- Nothing but the outbox is written.
  abbrev pub OnlyOutbox : Handle Value → Handle Value → Type 0
  OnlyOutbox h h' = (rows : List OutboxRow) × (h' ≡ with_outbox h rows)

  module _ (read : OutboxRow → Stored EffectPayload) where
    pub claim_effect_inner-OnlyOutbox :
        (h h' : Handle Value) (owner : String) (now seconds : ℕ) (types : Option (List String))
        (repository : Option ℕ) (key : Option String) (claim : Option ClaimedEffect)
        → claim_effect_inner read h owner now seconds types repository key ≡ ok (h', claim)
        → OnlyOutbox h h'
    claim_effect_inner-OnlyOutbox h h' owner now seconds types repository key claim e =
        elim (claim_effect_inner-IsClaim read h owner now seconds types repository key h' claim e) [
          | inl (same, _) ↦ (h.tables.outbox, same)
          | inr (row, _, leased) ↦ (_, leased.handle_after)
        ]

  -- What is asked of a move: the events that were recorded are found as they were.
  abbrev pub KeepsEvents : Handle Value → Handle Value → Type 0
  KeepsEvents h h' =
      (id : String) (found : String × String)
      → existing_event h.tables.events id ≡ some found
      → existing_event h'.tables.events id ≡ some found

  OnlyOutbox-KeepsEvents : (h h' : Handle Value) → OnlyOutbox h h' → KeepsEvents h h'
  OnlyOutbox-KeepsEvents h h' (rows, same) id found old =
      subst (λ g. existing_event g.tables.events id ≡ some found) (sym same) old

  module _ (codec : Codec Value) (guards : Guards Value)
      (read : OutboxRow → Stored EffectPayload) where
    creates-KeepsEvents :
        (h h' : Handle Value) (input : NewCase Value)
        → ((h' ≡ h) ⊎ IsCreated codec h input h')
        → KeepsEvents h h'
    creates-KeepsEvents h h' input (inl same) id found old =
        subst (λ g. existing_event g.tables.events id ≡ some found) (sym same) old
    creates-KeepsEvents h h' input (inr created) id found old =
        subst (λ g. existing_event g.tables.events id ≡ some found) (sym created.handle_after)
          (existing_event-cons (first_event input (codec.hash_new_case input)) h.tables.events id
            found created.event_is_new old)

    applies-KeepsEvents :
        (h h' : Handle Value) (fault : Option FaultPoint) (inputs : List (Transition Value))
        (result : ApplyResult)
        → IsOutcome codec guards fault h inputs h' result
        → KeepsEvents h h'
    applies-KeepsEvents h h' fault inputs result (inl (same, _, _)) id found old =
        subst (λ g. existing_event g.tables.events id ≡ some found) (sym same) old
    applies-KeepsEvents h h' fault inputs result (inr applied) id found old =
        subst (λ g. existing_event g.tables.events id ≡ some found) (sym applied.handle_after)
          (apply_all-existing_event codec guards fault h.tables applied.tables inputs id found
            applied.ran old)

    completes-KeepsEvents :
        (h h' : Handle Value) (same_value : Value → Value → Bool) (id owner : String) (now : ℕ)
        → IsCompletion same_value codec.is_object h id owner now h'
        → KeepsEvents h h'
    completes-KeepsEvents h h' same_value id owner now (inl same) other found old =
        subst (λ g. existing_event g.tables.events other ≡ some found) (sym same) old
    completes-KeepsEvents h h' same_value id owner now (inr (t, (_, events, _), _, after)) other
          found old =
        subst (λ g. existing_event g.tables.events other ≡ some found) (sym after)
          (subst (λ rows. existing_event rows other ≡ some found) (sym events) old)

    pub Move-is_read_only :
        {h h' : Handle Value} → Move codec guards read h h' → h'.is_read_only ≡ h.is_read_only
    Move-is_read_only {h} {h'} (creates input result e) =
        elim (create_case-cases codec h input h' result e) [
          | inl same ↦ ap (λ g. g.is_read_only) same
          | inr created ↦ ap (λ g. g.is_read_only) created.handle_after
        ]
    Move-is_read_only {h} {h'} (applies fault inputs result e) =
        let (_, outcome) =
          apply_transition_batch-IsOutcome codec guards fault h inputs h' result e in
        elim outcome [
          | inl (same, _, _) ↦ ap (λ g. g.is_read_only) same
          | inr applied ↦ ap (λ g. g.is_read_only) applied.handle_after
        ]
    Move-is_read_only {h} {h'} (repairs key e) =
        let (_, _, after) = repair_case_projection_lem h h' key e in ap (λ g. g.is_read_only) after
    Move-is_read_only {h} {h'} (leases owner now seconds types repository key claim e) =
        let (_, same) =
          claim_effect_inner-OnlyOutbox read h h' owner now seconds types repository key claim e in
        ap (λ g. g.is_read_only) same
    Move-is_read_only {h} {h'} (acknowledges id owner now e) =
        ap (λ g. g.is_read_only) (acknowledge_effect_lem h h' id owner now e)
    Move-is_read_only {h} {h'} (completes same_value id owner now evidence result e) =
        elim (complete_effect_evidence-IsCompletion same_value codec.is_object h h' id owner now
          evidence result e) [
            | inl same ↦ ap (λ g. g.is_read_only) same
            | inr (t, _, _, after) ↦ ap (λ g. g.is_read_only) after
          ]
    Move-is_read_only {h} {h'} (releases id owner e) =
        ap (λ g. g.is_read_only) (release_effect_lem h h' id owner e)

    pub Reach-is_read_only :
        {h h' : Handle Value} → Reach codec guards read h h' → h'.is_read_only ≡ h.is_read_only
    Reach-is_read_only here = refl
    Reach-is_read_only (next reach move) = Move-is_read_only move ∙ Reach-is_read_only reach

    Move-KeepsEvents : {h h' : Handle Value} → Move codec guards read h h' → KeepsEvents h h'
    Move-KeepsEvents {h} {h'} (creates input result e) =
        creates-KeepsEvents h h' input (create_case-cases codec h input h' result e)
    Move-KeepsEvents {h} {h'} (applies fault inputs result e) =
        let (_, outcome) =
          apply_transition_batch-IsOutcome codec guards fault h inputs h' result e in
        applies-KeepsEvents h h' fault inputs result outcome
    Move-KeepsEvents {h} {h'} (repairs key e) =
        let (_, _, after) = repair_case_projection_lem h h' key e in
        λ id found old. subst (λ g. existing_event g.tables.events id ≡ some found) (sym after) old
    Move-KeepsEvents {h} {h'} (leases owner now seconds types repository key claim e) =
        OnlyOutbox-KeepsEvents h h'
          (claim_effect_inner-OnlyOutbox read h h' owner now seconds types repository key claim e)
    Move-KeepsEvents {h} {h'} (acknowledges id owner now e) =
        OnlyOutbox-KeepsEvents h h' (_, acknowledge_effect_lem h h' id owner now e)
    Move-KeepsEvents {h} {h'} (completes same_value id owner now evidence result e) =
        completes-KeepsEvents h h' same_value id owner now (
          complete_effect_evidence-IsCompletion same_value codec.is_object h h' id owner now
            evidence result e)
    Move-KeepsEvents {h} {h'} (releases id owner e) =
        OnlyOutbox-KeepsEvents h h' (_, release_effect_lem h h' id owner e)

    pub Reach-KeepsEvents : {h h' : Handle Value} → Reach codec guards read h h' → KeepsEvents h h'
    Reach-KeepsEvents here id found old = old
    Reach-KeepsEvents (next reach move) id found old =
        Move-KeepsEvents move id found (Reach-KeepsEvents reach id found old)
