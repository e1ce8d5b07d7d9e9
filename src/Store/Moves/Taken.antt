-- ===== src/Store/Moves/Taken.antt =====
-- crates/pip-store/src/lib.rs: a revision of a case is taken once, whatever is done later.
use text.Mathlib.TextEquality.{eq_iff}
use mathlib.Core.List.{Memᴰ}
use agent_p1p.Prelude.{
  ℕ, ◌+◌, ◌≡◌, ◌≢◌, refl, sym, ◌∙◌, subst, ap, String, Bool, true, Option, List, [], ◌∷◌, ok,
  ==_iff, or_right, inl, inr, >>=-eq-ok, >>-eq-ok, ok_injective,
}
use agent_p1p.Controller.Ledger.{EffectPayload}
use agent_p1p.Controller.Ledger.Batch.{ApplyResult, applied}
use agent_p1p.Store.{FaultPoint, EventRow, OutboxRow, Tables, Handle, Stored}
use agent_p1p.Store.Checks.{Transition, Codec, Guards}
use agent_p1p.Store.Step.Facts.{is_taken, IsStored, apply_one-IsStored}
use agent_p1p.Store.Creation.Facts.{create_case-cases}
use agent_p1p.Store.Apply.{apply_all, apply_transition_batch}
use agent_p1p.Store.Apply.Facts.{IsOutcome, apply_transition_batch-IsOutcome}
use agent_p1p.Store.History.Repair.{repair_case_projection_lem}
use agent_p1p.Store.Outbox.Facts.{acknowledge_effect_lem, release_effect_lem}
use agent_p1p.Store.Completion.{IsCompletion, complete_effect_evidence-IsCompletion}
use agent_p1p.Store.Moves.{
  Move, creates, applies, repairs, leases, completes, acknowledges, releases, Reach, here, next,
}
use agent_p1p.Store.Moves.Kept.{claim_effect_inner-OnlyOutbox}

module _ {Value : Type 0} where
  -- What is asked of a move: a revision that is taken stays so.
  abbrev KeepsTaken : List (EventRow Value) → List (EventRow Value) → Type 0
  KeepsTaken events events' =
      (key : String) (n : ℕ) → is_taken key n events ≡ true → is_taken key n events' ≡ true

  same-KeepsTaken :
      (events events' : List (EventRow Value)) → events' ≡ events → KeepsTaken events events'
  same-KeepsTaken events events' same key n taken = ap (is_taken key n) same ∙ taken

  grown-KeepsTaken :
      (row : EventRow Value) (events events' : List (EventRow Value))
      → events' ≡ row ∷ events
      → KeepsTaken events events'
  grown-KeepsTaken row events events' grown key n taken =
      ap (is_taken key n) grown ∙ or_right _ _ taken

  module _ (codec : Codec Value) (guards : Guards Value) where
    stored-is_taken :
        (t t' : Tables Value) (input : Transition Value)
        → IsStored codec guards t t' input
        → is_taken input.case_key (input.expected_revision + 1) t'.events ≡ true
    stored-is_taken t t' input stored =
        ap (is_taken input.case_key (input.expected_revision + 1)) stored.events
        ∙ rw
            (
              (eq_iff input.case_key input.case_key).1 refl,
              (==_iff (input.expected_revision + 1) (input.expected_revision + 1)).1 refl,
            )
            refl

    apply_all-KeepsTaken :
        (fault : Option FaultPoint) (t t' : Tables Value) (inputs : List (Transition Value))
        → apply_all codec guards fault t inputs ≡ ok t'
        → KeepsTaken t.events t'.events
    unfolding apply_all
    apply_all-KeepsTaken fault t t' [] h key n taken =
        same-KeepsTaken t.events t'.events (sym (ap (λ u. u.events) (ok_injective h))) key n taken
    apply_all-KeepsTaken fault t t' (input ∷ inputs) h key n taken =
        let (t1, one, h1) = >>=-eq-ok _ _ h in
        let (_, rest) = >>-eq-ok _ _ h1 in
        let stored = apply_one-IsStored codec guards fault t t1 input one in
        apply_all-KeepsTaken fault t1 t' inputs rest key n
          (grown-KeepsTaken _ t.events t1.events stored.events key n taken)

    -- Every transition of a batch takes a revision that was free.
    apply_all-takes :
        (fault : Option FaultPoint) (t t' : Tables Value) (inputs : List (Transition Value))
        (input : Transition Value)
        → apply_all codec guards fault t inputs ≡ ok t'
        → Memᴰ input inputs
        → (is_taken input.case_key (input.expected_revision + 1) t.events ≢ true)
          × (is_taken input.case_key (input.expected_revision + 1) t'.events ≡ true)
    unfolding apply_all
    apply_all-takes fault t t' [] input h there = elim there [ ]
    apply_all-takes fault t t' (first ∷ inputs) input h (Memᴰ.head e) =
        let (t1, one, h1) = >>=-eq-ok _ _ h in
        let (_, rest) = >>-eq-ok _ _ h1 in
        let stored = apply_one-IsStored codec guards fault t t1 first one in
        subst
          (λ i.
            (is_taken i.case_key (i.expected_revision + 1) t.events ≢ true)
            × (is_taken i.case_key (i.expected_revision + 1) t'.events ≡ true))
          (sym e)
          (
            λ taken. let free = stored.revision_is_new in cc,
            apply_all-KeepsTaken fault t1 t' inputs rest _ _ (stored-is_taken t t1 first stored),
          )
    apply_all-takes fault t t' (first ∷ inputs) input h (Memᴰ.tail m) =
        let (t1, one, h1) = >>=-eq-ok _ _ h in
        let (_, rest) = >>-eq-ok _ _ h1 in
        let stored = apply_one-IsStored codec guards fault t t1 first one in
        let (free, taken) = apply_all-takes fault t1 t' inputs input rest m in
        (λ before. free (grown-KeepsTaken _ t.events t1.events stored.events _ _ before), taken)

    outcome-KeepsTaken :
        (fault : Option FaultPoint) (h h' : Handle Value) (inputs : List (Transition Value))
        (result : ApplyResult)
        → IsOutcome codec guards fault h inputs h' result
        → KeepsTaken h.tables.events h'.tables.events
    outcome-KeepsTaken fault h h' inputs result (inl (same, _, _)) =
        same-KeepsTaken h.tables.events h'.tables.events (ap (λ g. g.tables.events) same)
    outcome-KeepsTaken fault h h' inputs result (inr done) =
        subst (λ g. KeepsTaken h.tables.events g.tables.events) (sym done.handle_after)
          (apply_all-KeepsTaken fault h.tables done.tables inputs done.ran)

    completed-KeepsTaken :
        (h h' : Handle Value) (same_value : Value → Value → Bool) (id owner : String) (now : ℕ)
        → IsCompletion same_value codec.is_object h id owner now h'
        → h'.tables.events ≡ h.tables.events
    completed-KeepsTaken h h' same_value id owner now (inl same) = ap (λ g. g.tables.events) same
    completed-KeepsTaken h h' same_value id owner now (inr (t, (_, events, _), _, after)) =
        ap (λ g. g.tables.events) after ∙ events

    module _ (read : OutboxRow → Stored EffectPayload) where
      Move-KeepsTaken :
          {h h' : Handle Value}
          → Move codec guards read h h'
          → KeepsTaken h.tables.events h'.tables.events
      Move-KeepsTaken {h} {h'} (creates input result e) =
          elim (create_case-cases codec h input h' result e) [
            | inl same ↦ same-KeepsTaken _ _ (ap (λ g. g.tables.events) same)
            | inr created ↦ grown-KeepsTaken _ _ _ (ap (λ g. g.tables.events) created.handle_after)
          ]
      Move-KeepsTaken {h} {h'} (applies fault inputs result e) =
          let (_, outcome) =
            apply_transition_batch-IsOutcome codec guards fault h inputs h' result e in
          outcome-KeepsTaken fault h h' inputs result outcome
      Move-KeepsTaken {h} {h'} (repairs key e) =
          let (_, _, after) = repair_case_projection_lem h h' key e in
          same-KeepsTaken _ _ (ap (λ g. g.tables.events) after)
      Move-KeepsTaken {h} {h'} (leases owner now seconds types repository key claim e) =
          let (_, after) =
            claim_effect_inner-OnlyOutbox read h h' owner now seconds types repository key claim
              e in
          same-KeepsTaken _ _ (ap (λ g. g.tables.events) after)
      Move-KeepsTaken {h} {h'} (acknowledges id owner now e) =
          same-KeepsTaken _ _
            (ap (λ g. g.tables.events) (acknowledge_effect_lem h h' id owner now e))
      Move-KeepsTaken {h} {h'} (completes same_value id owner now evidence result e) =
          same-KeepsTaken _ _ (
            completed-KeepsTaken h h' same_value id owner now (
              complete_effect_evidence-IsCompletion same_value codec.is_object h h' id owner now
                evidence result e))
      Move-KeepsTaken {h} {h'} (releases id owner e) =
          same-KeepsTaken _ _ (ap (λ g. g.tables.events) (release_effect_lem h h' id owner e))

      Reach-KeepsTaken :
          {h h' : Handle Value}
          → Reach codec guards read h h'
          → KeepsTaken h.tables.events h'.tables.events
      Reach-KeepsTaken here key n taken = taken
      Reach-KeepsTaken (next reach move) key n taken =
          Move-KeepsTaken move key n (Reach-KeepsTaken reach key n taken)

      applied-takes :
          (fault : Option FaultPoint) (h h' : Handle Value) (inputs : List (Transition Value))
          (input : Transition Value)
          → apply_transition_batch codec guards fault h inputs ≡ ok (h', applied)
          → Memᴰ input inputs
          → (is_taken input.case_key (input.expected_revision + 1) h.tables.events ≢ true)
            × (is_taken input.case_key (input.expected_revision + 1) h'.tables.events ≡ true)
      applied-takes fault h h' inputs input e m =
          elim (apply_transition_batch-IsOutcome codec guards fault h inputs h' applied e).1 [
            | inl (_, is, _) ↦ cc
            | inr done ↦
                let (free, taken) =
                  apply_all-takes fault h.tables done.tables inputs input done.ran m in
                (
                  free,
                  ap (λ g. is_taken input.case_key (input.expected_revision + 1) g.tables.events)
                        done.handle_after
                      ∙ taken,
                )
          ]

      -- Of all transitions that expect one revision of a case only one is ever applied: where a batch
      -- was applied, and whatever moves of Store/Moves.antt came after, no batch is applied that has a
      -- transition of the same case and the same expected revision as one of that batch.
      pub revision_is_taken_once :
          (fault fault' : Option FaultPoint) (h h' later last : Handle Value)
          (inputs inputs' : List (Transition Value)) (input input' : Transition Value)
          → apply_transition_batch codec guards fault h inputs ≡ ok (h', applied)
          → Memᴰ input inputs
          → Reach codec guards read h' later
          → Memᴰ input' inputs'
          → input'.case_key ≡ input.case_key
          → input'.expected_revision ≡ input.expected_revision
          → apply_transition_batch codec guards fault' later inputs' ≢ ok (last, applied)
      revision_is_taken_once fault fault' h h' later last inputs inputs' input input' first m reach
            m' key revision second =
          let (_, taken) = applied-takes fault h h' inputs input first m in
          let (free, _) = applied-takes fault' later last inputs' input' second m' in
          free (
            subst (λ k. is_taken k (input'.expected_revision + 1) later.tables.events ≡ true)
              (sym key)
              (subst (λ n. is_taken input.case_key (n + 1) later.tables.events ≡ true)
                (sym revision)
                (Reach-KeepsTaken reach input.case_key (input.expected_revision + 1) taken)))
