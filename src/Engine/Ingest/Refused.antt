-- ===== src/Engine/Ingest/Refused.antt =====
-- crates/pip-controller/src/results.rs: an ingest is whole, or changes nothing.
use agent_p1p.Prelude.{ℕ, ◌≡◌, sym, ap, true, Option, none, List, [], ◌∷◌, ok, err}
use agent_p1p.Core.Revision.{CasePolicy}
use agent_p1p.Contracts.{WorkerBinding, WorkerResult}
use agent_p1p.Controller.Ledger.{Prepared}
use agent_p1p.Controller.Ledger.Batch.{
  ApplyResult, commit, apply, apply_batch, prepare_one, prepare_batch,
}
use agent_p1p.Controller.Ledger.{ControllerError}
use agent_p1p.Controller.Scheduling.{WorkflowPolicy}
use agent_p1p.Controller.Reviews.{Joined, IngestError}
use agent_p1p.Store.{StoreError, Stored, Handle}
use agent_p1p.Store.Checks.{Transition}
use agent_p1p.Store.Apply.{apply_transition_batch}
use agent_p1p.Engine.{pip_store, committed}
use agent_p1p.Engine.Ingest.{
  World, Plan, already, one, two, IngestResult, applied, replayed, counted, plan_ingest, perform,
  ingest_worker_result,
}
use agent_p1p.Engine.Ingest.Outcomes.{Performed, ingest-Performed}
use agent_p1p.Engine.Ingest.Once.{IsDone, done_by}
use agent_p1p.Controller.Results.Commands.{result_event_id}
use agent_p1p.Store.Statements.{existing_event}
use agent_p1p.Prelude.{map_err}
use agent_p1p.Controller.Ledger.{store}

module _ {Value : Type 0} (world : World Value) where
  -- A transaction that fails is rolled back.
  rolled_back :
      (handle handle' : Handle Value) (failure : ControllerError StoreError)
      (outcome : Stored (Handle Value × ApplyResult))
      → ◌≡◌ {A = Handle Value × Prepared StoreError ApplyResult}
          ((committed handle outcome).0, map_err store (committed handle outcome).1)
          (handle', err failure)
      → handle' ≡ handle
  rolled_back handle handle' failure (ok (after, result)) h = let e = ap (λ p. p.1) h in cc
  rolled_back handle handle' failure (err e) h = sym (ap (λ p. p.0) h)

  not_committed :
      (handle handle' : Handle Value) (made : Prepared StoreError (List (Transition Value)))
      (failure : ControllerError StoreError)
      → commit (pip_store world.codec world.guards world.granted_rounds) handle made
        ≡ (handle', err failure)
      → handle' ≡ handle
  not_committed handle handle' (err e) failure h = sym (ap (λ p. p.0) h)
  not_committed handle handle' (ok ts) failure h =
      rolled_back handle handle' failure
        (apply_transition_batch world.codec world.guards none handle ts) h

  uncounted :
      (n : ℕ) (handle' : Handle Value) (failure : IngestError)
      (done : Handle Value × Prepared StoreError ApplyResult)
      → counted world n done ≡ (handle', err failure)
      → (e : ControllerError StoreError) × (done ≡ (handle', err e))
  uncounted n handle' failure (after, ok outcome) h = let e = ap (λ p. p.1) h in cc
  uncounted n handle' failure (after, err e) h = (e, λ i. (ap (λ p. p.0) h i, err e))

  unperformed :
      (handle handle' : Handle Value) (case_policy : CasePolicy) (failure : IngestError)
      (planned : Joined (Plan Value))
      → perform world handle case_policy planned ≡ (handle', err failure)
      → handle' ≡ handle
  unfolding apply apply_batch
  unperformed handle handle' case_policy failure (err e) h = sym (ap (λ p. p.0) h)
  unperformed handle handle' case_policy failure (ok already) h = let e = ap (λ p. p.1) h in cc
  unperformed handle handle' case_policy failure (ok (one w)) h =
      let (e, done) = uncounted 1 handle' failure _ h in
      not_committed handle handle' (prepare_one world.json _ handle case_policy w) e done
  unperformed handle handle' case_policy failure (ok (two w w')) h =
      let (e, done) = uncounted 2 handle' failure _ h in
      not_committed handle handle' (prepare_batch world.json _ handle case_policy (w ∷ w' ∷ [])) e
        done

  refused_changes_nothing :
      (handle handle' : Handle Value) (case_policy : CasePolicy) (policy : Option WorkflowPolicy)
      (binding : WorkerBinding) (result : WorkerResult Value) (failure : IngestError)
      → ingest_worker_result world handle case_policy policy binding result ≡ (handle', err failure)
      → handle' ≡ handle
  unfolding ingest_worker_result
  refused_changes_nothing handle handle' case_policy policy binding result failure h =
      unperformed handle handle' case_policy failure
        (plan_ingest world handle.tables case_policy policy binding result) h

  replay_changes_nothing :
      (handle handle' : Handle Value) (case_policy : CasePolicy) (plan : Plan Value)
      → Performed world handle case_policy plan handle' replayed
      → handle' ≡ handle
  replay_changes_nothing handle handle' case_policy already (stays, _) = stays
  replay_changes_nothing handle handle' case_policy (one w) (_, _, e) = cc
  replay_changes_nothing handle handle' case_policy (two w w') (_, _, e) = cc

  module _ (handle handle' : Handle Value) (case_policy : CasePolicy)
      (policy : Option WorkflowPolicy) (binding : WorkerBinding) (result : WorkerResult Value) where
    -- What an ingest with this answer leaves: the ledger as it was, or the result with its run.
    abbrev pub IsWhole : Joined IngestResult → Type 0
    IsWhole (err failure) = handle' ≡ handle
    IsWhole (ok replayed) = handle' ≡ handle
    IsWhole (ok (applied n)) = IsDone world handle handle' case_policy policy binding result

    -- A worker result whose event the ledger did not know is ingested as a whole or not at all: where
    -- it is refused, by whatever check of the result, the case or the ledger, and where it is a
    -- replay, the ledger is as it was, and where it is applied its run is found by its task, of its
    -- case, its role and its value. So a builder's dispatch is not recorded without its result. A
    -- JSON value is taken to equal itself.
    pub ingested-IsWhole :
        (same : (v : Value) → world.serde.same_value v v ≡ true) (answer : Joined IngestResult)
        → ingest_worker_result world handle case_policy policy binding result ≡ (handle', answer)
        → existing_event handle.tables.events (result_event_id world.serde "result" binding.task_id)
          ≡ none
        → IsWhole answer
    ingested-IsWhole same (err failure) h new =
        refused_changes_nothing handle handle' case_policy policy binding result failure h
    ingested-IsWhole same (ok replayed) h new =
        let (plan, _, performed) =
          ingest-Performed world handle handle' case_policy policy binding result replayed h in
        replay_changes_nothing handle handle' case_policy plan performed
    ingested-IsWhole same (ok (applied n)) h new =
        let (plan, planned, performed) =
          ingest-Performed world handle handle' case_policy policy binding result (applied n) h in
        done_by world same handle handle' case_policy policy binding result (applied n) plan new
          planned performed
