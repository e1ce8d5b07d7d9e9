-- ===== src/Engine/Ingest/Runs.antt =====
-- crates/pip-controller/src/results.rs: commands that are
-- ingested run the state machine on the case of the binding.
use agent_p1p.Prelude.{
  ℕ, ◌+◌, ◌≡◌, refl, ap, subst, arith, some, List, [], ◌∷◌, length, All, ok, ok_or,
}
use agent_p1p.Core.Domain.{CaseId, case_key, checked_add_u32}
use agent_p1p.Core.StateMachine.{CaseState, Event, TransitionContext}
use agent_p1p.Core.StateMachine.Runs.{run}
use agent_p1p.Core.StateMachine.Wire.{state_name, parse_state}
use agent_p1p.Core.Revision.{CasePolicy}
use agent_p1p.Contracts.{WorkerBinding}
use agent_p1p.Controller.Ledger.{StoredCase, Prepared, ControllerError}
use agent_p1p.Controller.Ledger.Batch.{ApplyResult, effective_policy}
use agent_p1p.Controller.Ledger.Batch.Chains.{IsUnder, kinds_of, events_of}
use agent_p1p.Controller.Results.Commands.{Command, case_id}
use agent_p1p.Store.{StoreError, Handle}
use agent_p1p.Store.Control.{granted_remediation_rounds}
use agent_p1p.Store.Statements.{query_case}
use agent_p1p.Engine.{pip_store, applied_batch_is_run}
use agent_p1p.Engine.Ingest.{World}
use agent_p1p.Engine.Ingest.Outcomes.{Applies}

abbrev pub with_rounds : CasePolicy → ℕ → CasePolicy
with_rounds policy granted = record policy {
  max_remediation_rounds = policy.max_remediation_rounds + granted;
}

added_u32 :
    (a b n : ℕ) (e : ControllerError StoreError)
    → ◌≡◌ {A = Prepared StoreError ℕ} (ok_or (checked_add_u32 a b) e) (ok n)
    → n ≡ a + b
added_u32 a b n e h = ground arith

length-events_of : {Value : Type 0} (ws : List (Command Value)) → length (events_of ws) ≡ length ws
length-events_of [] = refl
length-events_of (w ∷ ws) = rw (length-events_of ws) refl

module _ {Value : Type 0} (world : World Value) where
  granted_policy :
      (handle : Handle Value) (case_policy effective : CasePolicy) (w : Command Value)
      → effective_policy
          (pip_store world.codec world.guards world.granted_rounds)
          handle
          case_policy
          w
        ≡ ok effective
      → (granted : ℕ) × (granted_remediation_rounds world.granted_rounds handle.tables
            (case_key w.case_id)
          ≡ ok granted)
        × (effective ≡ with_rounds case_policy granted)
  unfolding effective_policy
  granted_policy handle case_policy effective w h = ground arith

  module _ (handle handle' : Handle Value) (case_policy : CasePolicy)
      (binding : WorkerBinding) where
    -- The case of the binding, before and after: by a run of the state machine over these events,
    -- under the merge mode of the policy and its budget with the rounds that were granted.
    pub record IsAdvance (events : List Event) (before : StoredCase) : Type 0 where
      pub id : CaseId
      pub id_is : case_id binding ≡ ok id
      pub found : query_case handle.tables.cases (case_key id) ≡ some before
      pub after : StoredCase
      pub found_after : query_case handle'.tables.cases (case_key id) ≡ some after
      pub revision : after.state_revision ≡ before.state_revision + length events
      pub start : CaseState
      pub end : CaseState
      pub start_is : parse_state before.state ≡ ok start
      pub end_is : after.state ≡ state_name end
      pub steps : List (Event × TransitionContext)
      pub runs : run start steps ≡ ok end
      pub kinds : kinds_of steps ≡ events
      pub granted : ℕ
      pub granted_is :
          granted_remediation_rounds world.granted_rounds handle.tables (case_key id) ≡ ok granted
      pub under : All (IsUnder (with_rounds case_policy granted)) steps

    pub advance :
        (id : CaseId) (before : StoredCase) (w : Command Value) (ws : List (Command Value))
        → case_id binding ≡ ok id
        → query_case handle.tables.cases (case_key id) ≡ some before
        → w.case_id ≡ id
        → parse_state before.state ≡ ok w.expected_state
        → w.expected_state_revision ≡ before.state_revision
        → Applies world handle case_policy (w ∷ ws) handle' ApplyResult.applied
        → IsAdvance (events_of (w ∷ ws)) before
    advance id before w ws id_is found of_case state revision applies =
        let (effective, granting, (steps, end, after, runs, kinds, under, shown, ends, at)) =
          applied_batch_is_run world.codec world.guards world.granted_rounds world.json case_policy
            handle handle' w ws applies in
        let (granted, granted_is, policy_is) =
          granted_policy handle case_policy effective w granting in
        let key = ap case_key of_case in
        record {
          id = id;
          id_is = id_is;
          found = found;
          after = after;
          found_after = subst (λ k. query_case handle'.tables.cases k ≡ some after) key shown;
          revision = rw (at, revision, length-events_of ws) refl;
          start = w.expected_state;
          end = end;
          start_is = state;
          end_is = ends;
          steps = steps;
          runs = runs;
          kinds = kinds;
          granted = granted;
          granted_is =
              subst
                (λ k. granted_remediation_rounds world.granted_rounds handle.tables k ≡ ok granted)
                key granted_is;
          under = subst (λ p. All (IsUnder p) steps) policy_is under;
        }
