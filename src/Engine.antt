-- ===== src/Engine.antt =====
-- crates/pip-controller/src/ledger.rs on crates/pip-store/src/lib.rs: the controller that applies
-- its batches to the ledger.
pub mod Ingest
mod Tests
use agent_p1p.Prelude.{
  ℕ, suc, ◌+◌, ◌≡◌, refl, sym, ◌∙◌, subst, ap, arith, String, Bool, Option, none, some, List, [],
  ◌∷◌, length, All, Result, ok, err, >>=-eq-ok, >>-eq-ok, ok_injective, inl, inr, map_err,
}
use agent_p1p.Core.Domain.{case_key}
use agent_p1p.Core.StateMachine.{CaseState, Event, TransitionContext}
use agent_p1p.Core.StateMachine.Runs.{run}
use agent_p1p.Core.StateMachine.Wire.{state_name}
use agent_p1p.Core.Revision.{CasePolicy}
use agent_p1p.Controller.Ledger.{
  Json, WorkflowCommand, StoredCase, ControllerError, store, Prepared,
}
use agent_p1p.Controller.Ledger.Batch.{
  Store, ApplyResult, applied, replayed, prepare_batch, prepare_from, apply_batch, effective_policy,
  commit,
}
use agent_p1p.Controller.Ledger.Batch.Chains.{
  IsRun, IsUnder, kinds_of, events_of, nothing_left, batch-IsRun, batch_prepared, first_prepared,
  final_state,
}
use agent_p1p.Controller.Ledger.Transition.Rounds.{prepared}
use agent_p1p.Controller.Results.Commands.{Command}
use agent_p1p.Store.{
  FaultPoint, StoreError, Stored, RunInput, EvidenceInput, FindingInput, Handle, Tables,
}
use agent_p1p.Store.Statements.{query_case}
use agent_p1p.Store.Checks.{Transition, Codec, Guards}
use agent_p1p.Store.Control.{granted_remediation_rounds}
use agent_p1p.Store.Apply.{apply_transition_batch, first_key, validate_batch}
use agent_p1p.Store.Apply.Facts.{apply_transition_batch-IsOutcome}
use agent_p1p.Store.Apply.Final.{validate_batch-keys, apply_all-IsFinal, IsFinal}

revision_is_counted : (a b c n m : ℕ) → a ≡ b + 1 + n → b ≡ c → suc n ≡ suc m → a ≡ c + suc m
revision_is_counted a b c n m h h' h'' = omega arith

module _ {Value : Type 0} where
  -- The commit of a transaction. One that fails is dropped before it, which SQLite's `Transaction`
  -- answers with a rollback: the handle is as it was.
  abbrev pub committed :
      Handle Value
      → Stored (Handle Value × ApplyResult)
      → Handle Value × Result ApplyResult StoreError
  committed handle (ok (after, result)) = (after, ok result)
  committed handle (err failure) = (handle, err failure)

  -- The three operations that the controller calls.
  abbrev pub pip_store :
      Codec Value
      → Guards Value
      → (Value → Option ℕ)
      → Store (Handle Value) StoreError (Transition Value)
  pip_store codec guards granted_rounds = record {
    case = λ handle key. ok (query_case handle.tables.cases key);
    granted_remediation_rounds =
        λ handle key. granted_remediation_rounds granted_rounds handle.tables key;
    apply_transition_batch =
        λ handle inputs. committed handle (apply_transition_batch codec guards none handle inputs);
  }

  pub committed-ok :
      (handle handle' : Handle Value) (outcome : Stored (Handle Value × ApplyResult))
      (result : ApplyResult)
      → committed handle outcome ≡ (handle', ok result)
      → outcome ≡ ok (handle', result)
  committed-ok handle handle' (ok (after, r)) result h = cc
  committed-ok handle handle' (err failure) result h = cc

  taken :
      {handle' : Handle Value} {answer : ApplyResult}
      (outcome : Handle Value × Result ApplyResult StoreError)
      → ◌≡◌ {A = Handle Value × Prepared StoreError ApplyResult}
          (outcome.0, map_err store outcome.1)
          (handle', ok answer)
      → outcome ≡ (handle', ok answer)
  taken (after, ok result) h = cc
  taken (after, err failure) h = let e = ap (λ p. p.1) h in cc

  -- The chain from commands to rows: what the first command asks is where the batch starts.
  first_input :
      {StoreError : Type 0} (json : Json Value) (policy : CasePolicy) (w : Command Value)
      (ws : List (Command Value)) (ts : List (Transition Value))
      → prepare_from {StoreError = StoreError} json policy none (w ∷ ws) ≡ ok ts
      → (t : Transition Value) × (rest : List (Transition Value)) × (ts ≡ t ∷ rest)
        × (t.case_key ≡ case_key w.case_id)
        × (t.expected_revision ≡ w.expected_state_revision)
  first_input json policy w ws ts h =
      let (t, rest, _, made, _, split) = first_prepared json policy none w ws ts h in
      let (_, _, from) = prepared json policy w t made in (t, rest, split, from.key, from.revision)

  prepare_from-length :
      {StoreError : Type 0} (json : Json Value) (policy : CasePolicy)
      (previous : Option (Transition Value)) (ws : List (Command Value))
      (ts : List (Transition Value))
      → prepare_from {StoreError = StoreError} json policy previous ws ≡ ok ts
      → length ts ≡ length ws
  prepare_from-length json policy previous [] ts h =
      ap length (nothing_left json policy previous ts h)
  prepare_from-length json policy previous (w ∷ ws) ts h =
      let (t, rest, _, _, more, split) = first_prepared json policy previous w ws ts h in
      rw (split, prepare_from-length json policy (some t) ws rest more) refl

  pub commit-ok :
      (ops : Store (Handle Value) StoreError (Transition Value)) (handle handle' : Handle Value)
      (answer : ApplyResult) (made : Prepared StoreError (List (Transition Value)))
      → commit ops handle made ≡ (handle', ok answer)
      → (ts : List (Transition Value)) × (made ≡ ok ts)
        × (ops.apply_transition_batch handle ts ≡ (handle', ok answer))
  commit-ok ops handle handle' answer (err failure) h = let e = ap (λ p. p.1) h in cc
  commit-ok ops handle handle' answer (ok ts) h =
      (ts, refl, taken (ops.apply_transition_batch handle ts) h)

  committed_batch :
      (codec : Codec Value) (guards : Guards Value) (handle handle' : Handle Value)
      (t : Transition Value) (rest : List (Transition Value))
      → apply_transition_batch codec guards none handle (t ∷ rest) ≡ ok (handle', applied)
      → IsFinal handle'.tables t.case_key t rest
  committed_batch codec guards handle handle' t rest h =
      let ((_, key, is_first, valid), outcome) =
        apply_transition_batch-IsOutcome codec guards none handle (t ∷ rest) handle' applied h in
      elim outcome [
        | inl (_, is_replayed, _) ↦ cc
        | inr done ↦
            subst (λ g. IsFinal g.tables t.case_key t rest) (sym done.handle_after)
              (apply_all-IsFinal codec guards none t.case_key handle.tables done.tables t rest
                (validate_batch-keys codec t.case_key [] none (t ∷ rest) (
                  subst (λ k. validate_batch codec k [] none (t ∷ rest) ≡ ok tt)
                    (sym (ok_injective is_first)) valid))
                done.ran)
      ]

  -- The state of a stored case is the one that a run of the state machine ends in.
  abbrev pub IsRunOf : CasePolicy → List (Command Value) → Command Value → Tables Value → Type 0
  IsRunOf policy ws w t =
      (es : List (Event × TransitionContext)) × (end : CaseState) × (case : StoredCase) × (run
          w.expected_state es
        ≡ ok end)
      × (kinds_of es ≡ events_of (w ∷ ws))
      × All (IsUnder policy) es
      × (query_case t.cases (case_key w.case_id) ≡ some case)
      × (case.state ≡ state_name end)
      × (case.state_revision ≡ w.expected_state_revision + length (w ∷ ws))

  -- A batch of commands that the controller applies to the ledger leaves the stored case in the state
  -- in which a run of the state machine ends, over the events of the commands and under the merge
  -- mode and budget of the effective policy, from the state of the first command. The revision of
  -- the case has grown by one for each command.
  pub applied_batch_is_run :
      (codec : Codec Value) (guards : Guards Value) (granted_rounds : Value → Option ℕ)
      (json : Json Value) (policy : CasePolicy) (handle handle' : Handle Value) (w : Command Value)
      (ws : List (Command Value))
      → apply_batch json (pip_store codec guards granted_rounds) handle policy (w ∷ ws)
        ≡ (handle', ok applied)
      → (effective : CasePolicy) × (effective_policy
            (pip_store codec guards granted_rounds)
            handle
            policy
            w
          ≡ ok effective)
        × IsRunOf effective ws w handle'.tables
  unfolding apply_batch
  applied_batch_is_run codec guards granted_rounds json policy handle handle' w ws h =
      let ops = pip_store codec guards granted_rounds in
      let (ts, made, taken) = commit-ok ops handle handle' applied _ h in
      let (effective, granted, chain) = batch-IsRun json ops handle policy w ws ts made in
      let (es, end, runs, kinds, under, ends) = chain in
      let (same, granted', from) = batch_prepared json ops handle policy w ws ts made in
      let (t, rest, split, key_is, revision_is) = first_input json same w ws ts from in
      let count = sym (ap length split) ∙ prepare_from-length json same none (w ∷ ws) ts from in
      let stored =
        subst (λ all. apply_transition_batch codec guards none handle all ≡ ok (handle', applied))
          split (committed-ok handle handle' _ applied taken) in
      let (case, found, state, revision) =
        committed_batch codec guards handle handle' t rest stored in
      (
        effective,
        granted,
        (
          es,
          end,
          case,
          runs,
          kinds,
          under,
          subst (λ k. query_case handle'.tables.cases k ≡ some case) key_is found,
          state
              ∙ subst (λ all. final_state (state_name w.expected_state) all ≡ state_name end) split
                  ends,
          revision_is_counted _ _ _ _ _ revision revision_is count,
        ),
      )
