-- ===== src/Store/Moves/Rows.antt =====
-- crates/pip-store/src/lib.rs: what is kept of the rows of the outbox by every operation.
use agent_p1p.Prelude.{
  ℕ, ◌+◌, ◌≡◌, sym, subst, String, Bool, Option, none, some, List, [], ◌∷◌, ok, inl, inr, ◌⊎◌,
  >>=-eq-ok, >>-eq-ok, ok_injective,
}
use agent_p1p.Controller.Ledger.{EffectPayload, EffectInput}
use agent_p1p.Controller.Ledger.Batch.{ApplyResult}
use agent_p1p.Store.{FaultPoint, NewCase, OutboxRow, Tables, Handle, Stored}
use agent_p1p.Store.Statements.{update, insert_effects}
use agent_p1p.Store.Checks.{Transition, Codec, Guards}
use agent_p1p.Store.Step.{supersede_row}
use agent_p1p.Store.Step.Facts.{apply_one-IsStored}
use agent_p1p.Store.Creation.Facts.{IsCreated, create_case-cases}
use agent_p1p.Store.Apply.{apply_all}
use agent_p1p.Store.Apply.Facts.{IsOutcome, apply_transition_batch-IsOutcome}
use agent_p1p.Store.History.Repair.{repair_case_projection_lem}
use agent_p1p.Store.Outbox.{ClaimedEffect, with_lease, is_leasable, is_held, is_held_at, deliver}
use agent_p1p.Store.Outbox.Facts.{
  IsClaim, claim_effect_inner-IsClaim, acknowledge_effect_lem, release_effect_lem,
}
use agent_p1p.Store.Completion.{IsCompletion, complete_effect_evidence-IsCompletion}
use agent_p1p.Store.Moves.{
  Move, creates, applies, repairs, leases, completes, acknowledges, releases,
}

-- What new rows, superseded rows and delivered rows leave true of the outbox.
pub record IsClosed (Value : Type 0) (Q : List OutboxRow → Type 0) : Type 0 where
  pub inserted :
      (key : String) (revision at : ℕ) (rows rows' : List OutboxRow) (effects : List EffectInput)
      → insert_effects key revision at rows effects ≡ ok rows'
      → Q rows
      → Q rows'
  pub superseded :
      (chosen : OutboxRow → Bool) (input : Transition Value) (rows : List OutboxRow)
      → Q rows
      → Q (update chosen (supersede_row input) rows)
  pub delivered :
      (id owner : String) (now : ℕ) (rows : List OutboxRow)
      → Q rows
      → Q (update (is_held_at id owner now) (deliver now) rows)

module _ {Value : Type 0} (Q : List OutboxRow → Type 0) (closed : IsClosed Value Q)
    (codec : Codec Value) (guards : Guards Value) where
  apply_all-outbox :
      (fault : Option FaultPoint) (t t' : Tables Value) (inputs : List (Transition Value))
      → apply_all codec guards fault t inputs ≡ ok t'
      → Q t.outbox
      → Q t'.outbox
  unfolding apply_all
  apply_all-outbox fault t t' [] h q = subst (λ u. Q u.outbox) (ok_injective h) q
  apply_all-outbox fault t t' (input ∷ inputs) h q =
      let (t1, one, h1) = >>=-eq-ok _ _ h in
      let (_, rest) = >>-eq-ok _ _ h1 in
      let stored = apply_one-IsStored codec guards fault t t1 input one in
      apply_all-outbox fault t1 t' inputs rest (
        closed.inserted _ _ _ _ t1.outbox input.effects stored.outbox
          (closed.superseded _ input t.outbox q))

  outcome-outbox :
      (fault : Option FaultPoint) (h h' : Handle Value) (inputs : List (Transition Value))
      (result : ApplyResult)
      → IsOutcome codec guards fault h inputs h' result
      → Q h.tables.outbox
      → Q h'.tables.outbox
  outcome-outbox fault h h' inputs result (inl (same, _, _)) q =
      subst (λ g. Q g.tables.outbox) (sym same) q
  outcome-outbox fault h h' inputs result (inr applied) q =
      subst (λ g. Q g.tables.outbox) (sym applied.handle_after)
        (apply_all-outbox fault h.tables applied.tables inputs applied.ran q)

  created-outbox :
      (h h' : Handle Value) (input : NewCase Value)
      → ((h' ≡ h) ⊎ IsCreated codec h input h')
      → Q h.tables.outbox
      → Q h'.tables.outbox
  created-outbox h h' input (inl same) q = subst (λ g. Q g.tables.outbox) (sym same) q
  created-outbox h h' input (inr created) q =
      subst (λ g. Q g.tables.outbox) (sym created.handle_after)
        (closed.inserted _ _ _ _ created.outbox input.effects created.effects q)

  claimed-outbox :
      (read : OutboxRow → Stored EffectPayload) (h h' : Handle Value) (owner : String)
      (now until : ℕ) (found : Option OutboxRow) (claim : Option ClaimedEffect)
      → ((id : String) (rows : List OutboxRow)
          → Q rows
          → Q (update (is_leasable id now) (with_lease (some (owner, until))) rows))
      → IsClaim read h owner now until found h' claim
      → Q h.tables.outbox
      → Q h'.tables.outbox
  claimed-outbox read h h' owner now until found claim spares (inl (same, _)) q =
      subst (λ g. Q g.tables.outbox) (sym same) q
  claimed-outbox read h h' owner now until found claim spares (inr (row, _, leased)) q =
      subst (λ g. Q g.tables.outbox) (sym leased.handle_after)
        (spares row.effect_id h.tables.outbox q)

  completed-outbox :
      (h h' : Handle Value) (same_value : Value → Value → Bool) (id owner : String) (now : ℕ)
      → IsCompletion same_value codec.is_object h id owner now h'
      → Q h.tables.outbox
      → Q h'.tables.outbox
  completed-outbox h h' same_value id owner now (inl same) q =
      subst (λ g. Q g.tables.outbox) (sym same) q
  completed-outbox h h' same_value id owner now (inr (t, (_, _, outbox), _, after)) q =
      subst (λ g. Q g.tables.outbox) (sym after)
        (closed.delivered id owner now t.outbox (subst Q (sym outbox) q))

  module _ (read : OutboxRow → Stored EffectPayload) where
    -- What the leases and their ends are asked to leave true.
    abbrev pub Spares : {h h' : Handle Value} → Move codec guards read h h' → Type 0
    Spares (leases owner now seconds _ _ _ _ _) =
        (id : String) (rows : List OutboxRow)
        → Q rows
        → Q (update (is_leasable id now) (with_lease (some (owner, now + seconds))) rows)
    Spares (releases id owner _) =
        (rows : List OutboxRow) → Q rows → Q (update (is_held id owner) (with_lease none) rows)
    Spares _ = Unit {0}

    pub Move-outbox :
        {h h' : Handle Value} (move : Move codec guards read h h')
        → Spares move
        → Q h.tables.outbox
        → Q h'.tables.outbox
    Move-outbox {h} {h'} (creates input result e) spares q =
        created-outbox h h' input (create_case-cases codec h input h' result e) q
    Move-outbox {h} {h'} (applies fault inputs result e) spares q =
        let (_, outcome) =
          apply_transition_batch-IsOutcome codec guards fault h inputs h' result e in
        outcome-outbox fault h h' inputs result outcome q
    Move-outbox {h} {h'} (repairs key e) spares q =
        let (_, _, after) = repair_case_projection_lem h h' key e in
        subst (λ g. Q g.tables.outbox) (sym after) q
    Move-outbox {h} {h'} (leases owner now seconds types repository key claim e) spares q =
        claimed-outbox read h h' owner now (now + seconds) _ claim spares
          (claim_effect_inner-IsClaim read h owner now seconds types repository key h' claim e) q
    Move-outbox {h} {h'} (acknowledges id owner now e) spares q =
        subst (λ g. Q g.tables.outbox) (sym (acknowledge_effect_lem h h' id owner now e))
          (closed.delivered id owner now h.tables.outbox q)
    Move-outbox {h} {h'} (completes same_value id owner now evidence result e) spares q =
        completed-outbox h h' same_value id owner now
          (complete_effect_evidence-IsCompletion same_value codec.is_object h h' id owner now
            evidence result e)
          q
    Move-outbox {h} {h'} (releases id owner e) spares q =
        subst (λ g. Q g.tables.outbox) (sym (release_effect_lem h h' id owner e))
          (spares h.tables.outbox q)
