-- ===== src/Store/Moves/Replayed.antt =====
-- crates/pip-store/src/lib.rs: a batch that was accepted is replayed whatever was done since.
use agent_p1p.Prelude.{
  ◌≡◌, sym, ◌∙◌, subst, Bool, Option, List, [], ◌∷◌, ok, inl, inr, All, if◌then◌else◌, err,
}
use agent_p1p.Controller.Ledger.{EffectPayload}
use agent_p1p.Controller.Ledger.Batch.{ApplyResult, replayed}
use agent_p1p.Store.{FaultPoint, OutboxRow, Handle, Stored, read_only}
use agent_p1p.Store.Checks.{Transition, Codec, Guards}
use agent_p1p.Store.Apply.{apply_transition_batch}
use agent_p1p.Store.Apply.Facts.{IsOutcome, apply_transition_batch-IsOutcome, replay_again}
use agent_p1p.Store.Apply.Replay.{IsRecorded, replay_all_iff, all-is_recorded, apply_all-IsRecorded}
use agent_p1p.Store.Moves.{Reach, here, next, applies}
use agent_p1p.Store.Moves.Kept.{Reach-is_read_only, Reach-KeepsEvents, KeepsEvents}

abbrev IsWritable : Bool → Type 0
IsWritable b = ◌≡◌ {A = Stored (Unit {0})} (if b then err read_only else ok tt) (ok tt)

module _ {Value : Type 0} (codec : Codec Value) (guards : Guards Value) where
  IsOutcome-IsRecorded :
      (fault : Option FaultPoint) (h h' : Handle Value) (inputs : List (Transition Value))
      (result : ApplyResult)
      → IsOutcome codec guards fault h inputs h' result
      → All (IsRecorded codec h'.tables.events) inputs
  IsOutcome-IsRecorded fault h h' inputs result (inl (same, _, replays)) =
      subst (λ g. All (IsRecorded codec g.tables.events) inputs) (sym same)
        ((replay_all_iff codec h.tables.events inputs).0 replays)
  IsOutcome-IsRecorded fault h h' inputs result (inr applied) =
      subst (λ g. All (IsRecorded codec g.tables.events) inputs) (sym applied.handle_after)
        (apply_all-IsRecorded codec guards fault h.tables applied.tables inputs applied.ran)

  kept-IsRecorded :
      (h h' : Handle Value) (inputs : List (Transition Value))
      → KeepsEvents h h'
      → All (IsRecorded codec h.tables.events) inputs
      → All (IsRecorded codec h'.tables.events) inputs
  kept-IsRecorded h h' [] keeps recorded = tt
  kept-IsRecorded h h' (input ∷ inputs) keeps (one, rest) =
      (keeps _ _ one, kept-IsRecorded h h' inputs keeps rest)

  -- A batch that the ledger has accepted is accepted again as a replay that changes nothing, whatever
  -- moves of Store/Moves.antt were made in between.
  pub accepted_is_replayed :
      (read : OutboxRow → Stored EffectPayload) (fault fault' : Option FaultPoint)
      (h h' later : Handle Value) (inputs : List (Transition Value)) (result : ApplyResult)
      → apply_transition_batch codec guards fault h inputs ≡ ok (h', result)
      → Reach codec guards read h' later
      → apply_transition_batch codec guards fault' later inputs ≡ ok (later, replayed)
  accepted_is_replayed read fault fault' h h' later inputs result e reach =
      let ((writable, key, first, valid), outcome) =
        apply_transition_batch-IsOutcome codec guards fault h inputs h' result e in
      let recorded =
        kept-IsRecorded h' later inputs (Reach-KeepsEvents codec guards read reach)
          (IsOutcome-IsRecorded fault h h' inputs result outcome) in
      let mode =
        Reach-is_read_only codec guards read reach
        ∙ Reach-is_read_only codec guards read (next here (applies fault inputs result e)) in
      replay_again codec guards fault' later inputs
        (subst IsWritable (sym mode) writable, key, first, valid)
        (all-is_recorded codec later.tables.events inputs recorded)
        ((replay_all_iff codec later.tables.events inputs).1 recorded)
