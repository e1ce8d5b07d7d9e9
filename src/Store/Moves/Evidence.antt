-- ===== src/Store/Moves/Evidence.antt =====
-- crates/pip-store/src/lib.rs: every operation of the ledger keeps the evidence that was stored.
use agent_p1p.Prelude.{
  ℕ, ◌≡◌, sym, subst, ap, arith, String, Bool, Option, none, some, List, [], ◌∷◌, ok, >>=-eq-ok,
  >>-eq-ok, ok_injective, ok_or, fail_if, not, ◌==◌,
}
use agent_p1p.Core.Domain.{checked_add_u64}
use agent_p1p.Controller.Ledger.{EffectPayload}
use agent_p1p.Store.{
  FaultPoint, RunInput, FindingInput, OutboxRow, Tables, Handle, Stored, missing_case,
  stale_revision, invalid_integer, after_event, after_projection,
}
use agent_p1p.Store.Statements.{
  query_case, inject, insert_event, insert_run, insert_runs, add_finding, insert_findings,
}
use agent_p1p.Store.Checks.{Transition, Codec, Guards, admit}
use agent_p1p.Store.Step.{event_row, update_case, insert_results, apply_one}
use agent_p1p.Store.Step.Facts.{insert_event_lem, update_case_lem, replace_effects_lem}
use agent_p1p.Store.Completion.{existing_evidence, KeepsEvidence, insert_evidence-KeepsEvidence}
use agent_p1p.Store.Moves.{Move}
use agent_p1p.Store.Moves.Beside.{IsBeside, Move-Keeps}

module _ {Value : Type 0} where
  insert_runs-evidence :
      (t t' : Tables Value) (run : Option (RunInput Value)) (key id : String) (at : ℕ)
      → insert_runs t run key id at ≡ ok t'
      → t'.evidence ≡ t.evidence
  unfolding insert_run
  insert_runs-evidence t t' none key id at h = ground arith
  insert_runs-evidence t t' (some run) key id at h = ground arith

  insert_findings-evidence :
      (is_object : Value → Bool) (key : String) (at : ℕ) (id : String) (t t' : Tables Value)
      (items : List (FindingInput Value))
      → insert_findings is_object key at id t items ≡ ok t'
      → t'.evidence ≡ t.evidence
  unfolding insert_findings
  insert_findings-evidence is_object key at id t t' [] h = ground arith
  insert_findings-evidence is_object key at id t t' (item ∷ items) h = ground (
    arith,
    insert_findings-evidence is_object key at id (add_finding is_object key at id item t) t' items,
  )

  -- Tables with the same evidence.
  pub same-KeepsEvidence : (t t' : Tables Value) → t'.evidence ≡ t.evidence → KeepsEvidence t t'
  same-KeepsEvidence t t' same id row found =
      subst (λ rows. existing_evidence rows id ≡ some row) (sym same) found

  insert_results-KeepsEvidence :
      (codec : Codec Value) (fault : Option FaultPoint) (input : Transition Value)
      (t t' : Tables Value)
      → insert_results codec fault input t ≡ ok t'
      → KeepsEvidence t t'
  unfolding insert_results
  insert_results-KeepsEvidence codec fault input t t' h id row found =
      let (ran, runs, h1) = >>=-eq-ok _ _ h in
      let (_, h2) = >>-eq-ok _ _ h1 in
      let (proven, evidence, h3) = >>=-eq-ok _ _ h2 in
      let (last, findings, h4) = >>=-eq-ok _ _ h3 in
      let (_, h5) = >>-eq-ok _ _ h4 in
      subst (λ u. existing_evidence u.evidence id ≡ some row) (ok_injective h5)
        (same-KeepsEvidence proven last
          (insert_findings-evidence codec.is_object _ _ _ proven last input.findings findings) id
          row
          (insert_evidence-KeepsEvidence codec.is_object _ _ ran proven input.evidence evidence id
            row
            (same-KeepsEvidence t ran (insert_runs-evidence t ran input.run _ _ _ runs) id row
              found)))

  module _ (codec : Codec Value) (guards : Guards Value) where
    apply_one-KeepsEvidence :
        (fault : Option FaultPoint) (t t' : Tables Value) (input : Transition Value)
        → apply_one codec guards fault t input ≡ ok t'
        → KeepsEvidence t t'
    unfolding apply_one
    apply_one-KeepsEvidence fault t t' input h id row found =
        let (current, _, h1) =
          >>=-eq-ok (ok_or (query_case t.cases input.case_key) (missing_case input.case_key)) _ h in
        let (_, h2) =
          >>-eq-ok
            (fail_if (not (current.state_revision == input.expected_revision))
              (stale_revision input.expected_revision current.state_revision))
            _ h1 in
        let (next, _, h3) =
          >>=-eq-ok (ok_or (checked_add_u64 input.expected_revision 1) invalid_integer) _ h2 in
        let (policy, _, h4) = >>=-eq-ok (admit guards t current input) _ h3 in
        let new = event_row current input (codec.hash_transition input) next policy in
        let (recorded, event, h5) = >>=-eq-ok (insert_event t new) _ h4 in
        let (_, h6) = >>-eq-ok (inject fault after_event) _ h5 in
        let (results, inserted, h7) = >>=-eq-ok (insert_results codec fault input recorded) _ h6 in
        let (projected, updated, h8) =
          >>=-eq-ok (update_case results current input next policy) _ h7 in
        let (_, h9) = >>-eq-ok (inject fault after_projection) _ h8 in
        let (t1, _, _, _) = insert_event_lem t recorded new event in
        let t3 = update_case_lem results projected current input next policy updated in
        let (t4, _) = replace_effects_lem fault current input next projected t' h9 in
        same-KeepsEvidence projected t' (ap (λ u. u.evidence) t4) id row (
          same-KeepsEvidence results projected (ap (λ u. u.evidence) t3) id row (
            insert_results-KeepsEvidence codec fault input recorded results inserted id row
              (same-KeepsEvidence t recorded (ap (λ u. u.evidence) t1) id row found)))

    evidence-IsBeside : IsBeside codec guards KeepsEvidence
    evidence-IsBeside = record {
      same = λ t t' _ same. same-KeepsEvidence t t' same;
      joins = λ t u v first second id row found. second id row (first id row found);
      stored = apply_one-KeepsEvidence;
      completed = λ t t' added. added.0;
    }

    pub Move-KeepsEvidence :
        (read : OutboxRow → Stored EffectPayload) {h h' : Handle Value}
        → Move codec guards read h h'
        → KeepsEvidence h.tables h'.tables
    Move-KeepsEvidence read move = Move-Keeps codec guards KeepsEvidence evidence-IsBeside read move
