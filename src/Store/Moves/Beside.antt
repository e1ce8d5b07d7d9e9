-- ===== src/Store/Moves/Beside.antt =====
-- crates/pip-store/src/lib.rs: what stands beside the events, the runs and the evidence, under every
-- operation of the ledger. A relation of the tables that a stored transition and a completed effect
-- satisfy is satisfied by every operation.
use agent_p1p.Prelude.{
  ℕ, ◌≡◌, refl, sym, subst, ap, String, Bool, Option, List, [], ◌∷◌, ok, inl, inr, ◌⊎◌, >>=-eq-ok,
  >>-eq-ok, ok_injective,
}
use agent_p1p.Controller.Ledger.{EffectPayload}
use agent_p1p.Controller.Ledger.Batch.{ApplyResult}
use agent_p1p.Store.{FaultPoint, NewCase, OutboxRow, Tables, Handle, Stored}
use agent_p1p.Store.Checks.{Transition, Codec, Guards}
use agent_p1p.Store.Step.{apply_one}
use agent_p1p.Store.Creation.Facts.{IsCreated, create_case-cases}
use agent_p1p.Store.Apply.{apply_all}
use agent_p1p.Store.Apply.Facts.{IsOutcome, apply_transition_batch-IsOutcome}
use agent_p1p.Store.History.Repair.{repair_case_projection_lem}
use agent_p1p.Store.Outbox.Facts.{acknowledge_effect_lem, release_effect_lem}
use agent_p1p.Store.Completion.{Adds, IsCompletion, complete_effect_evidence-IsCompletion}
use agent_p1p.Store.Moves.{
  Move, creates, applies, repairs, leases, completes, acknowledges, releases,
}
use agent_p1p.Store.Moves.Kept.{claim_effect_inner-OnlyOutbox}

module _ {Value : Type 0} (codec : Codec Value) (guards : Guards Value)
    (Keeps : Tables Value → Tables Value → Type 0) where
  pub record IsBeside : Type 0 where
    pub same : (t t' : Tables Value) → t'.runs ≡ t.runs → t'.evidence ≡ t.evidence → Keeps t t'
    pub joins : (t u v : Tables Value) → Keeps t u → Keeps u v → Keeps t v
    pub stored :
        (fault : Option FaultPoint) (t t' : Tables Value) (input : Transition Value)
        → apply_one codec guards fault t input ≡ ok t'
        → Keeps t t'
    pub completed : (t t' : Tables Value) → Adds t t' → Keeps t t'

  module _ (beside : IsBeside) where
    pub apply_all-Keeps :
        (fault : Option FaultPoint) (t t' : Tables Value) (inputs : List (Transition Value))
        → apply_all codec guards fault t inputs ≡ ok t'
        → Keeps t t'
    unfolding apply_all
    apply_all-Keeps fault t t' [] h = subst (Keeps t) (ok_injective h) (beside.same t t refl refl)
    apply_all-Keeps fault t t' (input ∷ inputs) h =
        let (t1, one, h1) = >>=-eq-ok _ _ h in
        let (_, rest) = >>-eq-ok _ _ h1 in
        beside.joins t t1 t' (beside.stored fault t t1 input one)
          (apply_all-Keeps fault t1 t' inputs rest)

    outcome-Keeps :
        (fault : Option FaultPoint) (h h' : Handle Value) (inputs : List (Transition Value))
        (result : ApplyResult)
        → IsOutcome codec guards fault h inputs h' result
        → Keeps h.tables h'.tables
    outcome-Keeps fault h h' inputs result (inl (same, _, _)) =
        beside.same h.tables h'.tables (ap (λ g. g.tables.runs) same)
          (ap (λ g. g.tables.evidence) same)
    outcome-Keeps fault h h' inputs result (inr applied) =
        subst (λ g. Keeps h.tables g.tables) (sym applied.handle_after)
          (apply_all-Keeps fault h.tables applied.tables inputs applied.ran)

    created-Keeps :
        (h h' : Handle Value) (input : NewCase Value)
        → ((h' ≡ h) ⊎ IsCreated codec h input h')
        → Keeps h.tables h'.tables
    created-Keeps h h' input (inl same) =
        beside.same h.tables h'.tables (ap (λ g. g.tables.runs) same)
          (ap (λ g. g.tables.evidence) same)
    created-Keeps h h' input (inr created) =
        beside.same h.tables h'.tables (ap (λ g. g.tables.runs) created.handle_after)
          (ap (λ g. g.tables.evidence) created.handle_after)

    completed-Keeps :
        (h h' : Handle Value) (same_value : Value → Value → Bool) (id owner : String) (now : ℕ)
        → IsCompletion same_value codec.is_object h id owner now h'
        → Keeps h.tables h'.tables
    completed-Keeps h h' same_value id owner now (inl same) =
        beside.same h.tables h'.tables (ap (λ g. g.tables.runs) same)
          (ap (λ g. g.tables.evidence) same)
    completed-Keeps h h' same_value id owner now (inr (t, _, kept, after)) =
        subst (λ g. Keeps h.tables g.tables) (sym after)
          (beside.joins h.tables t _ (beside.completed h.tables t kept) (beside.same t _ refl refl))

    pub Move-Keeps :
        (read : OutboxRow → Stored EffectPayload) {h h' : Handle Value}
        → Move codec guards read h h'
        → Keeps h.tables h'.tables
    Move-Keeps read {h} {h'} (creates input result e) =
        created-Keeps h h' input (create_case-cases codec h input h' result e)
    Move-Keeps read {h} {h'} (applies fault inputs result e) =
        let (_, outcome) =
          apply_transition_batch-IsOutcome codec guards fault h inputs h' result e in
        outcome-Keeps fault h h' inputs result outcome
    Move-Keeps read {h} {h'} (repairs key e) =
        let (_, _, after) = repair_case_projection_lem h h' key e in
        beside.same h.tables h'.tables (ap (λ g. g.tables.runs) after)
          (ap (λ g. g.tables.evidence) after)
    Move-Keeps read {h} {h'} (leases owner now seconds types repository key claim e) =
        let (_, after) =
          claim_effect_inner-OnlyOutbox read h h' owner now seconds types repository key claim e in
        beside.same h.tables h'.tables (ap (λ g. g.tables.runs) after)
          (ap (λ g. g.tables.evidence) after)
    Move-Keeps read {h} {h'} (acknowledges id owner now e) =
        beside.same h.tables h'.tables
          (ap (λ g. g.tables.runs) (acknowledge_effect_lem h h' id owner now e))
          (ap (λ g. g.tables.evidence) (acknowledge_effect_lem h h' id owner now e))
    Move-Keeps read {h} {h'} (completes same_value id owner now evidence result e) =
        completed-Keeps h h' same_value id owner now (
          complete_effect_evidence-IsCompletion same_value codec.is_object h h' id owner now
            evidence result e)
    Move-Keeps read {h} {h'} (releases id owner e) =
        beside.same h.tables h'.tables
          (ap (λ g. g.tables.runs) (release_effect_lem h h' id owner e))
          (ap (λ g. g.tables.evidence) (release_effect_lem h h' id owner e))
