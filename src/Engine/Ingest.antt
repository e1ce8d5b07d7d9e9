-- ===== src/Engine/Ingest.antt =====
-- crates/pip-controller/src/results.rs: `ingest_worker_result` on the ledger of pip-store.
mod Plans
mod Outcomes
mod Applied
mod Runs
pub mod Refused
pub mod Once
pub mod Advances
pub mod Reviewers
mod Tests
use text.Mathlib.Text.{◌==◌ as str_eq}
use agent_p1p.Prelude.{
  ℕ, String, Bool, true, false, ◌&&◌, Option, none, some, List, [], ◌∷◌, map, if◌then◌else◌, Result,
  ok, err, ◌>>=◌, ◌>>◌, ok_or, map_err,
}
use agent_p1p.Core.Domain.{CaseId, case_key, checked_add_u64}
use agent_p1p.Core.StateMachine.{Event, builder_dispatched}
use agent_p1p.Core.Revision.{CasePolicy}
use agent_p1p.Contracts.{WorkerBinding, WorkerResult, of_builder}
use agent_p1p.Contracts.Validation.{common_of}
use agent_p1p.Contracts.Binding.{validate_binding}
use agent_p1p.Controller.Ledger.{Json, StoredCase, Prepared}
use agent_p1p.Controller.Ledger.Batch.{ApplyResult, apply, apply_batch}
use agent_p1p.Controller.Scheduling.{WorkflowPolicy, role_name}
use agent_p1p.Controller.Reviews.{
  Joined, contract, controller, invalid_binding, invalid_state, conflicting_run, serialization,
}
use agent_p1p.Controller.Results.Commands.{
  Command, Serde, validate_review_policy, validate_case_binding, case_id, workflow, result_event_id,
  result_workflow,
}
use agent_p1p.Store.{StoreError, RunRow, Tables, Handle}
use agent_p1p.Store.Statements.{query_case}
use agent_p1p.Store.Checks.{Codec, Guards}
use agent_p1p.Store.Runs.{run_by_task_id, latest_event_type, current_review_runs_for_case}
use agent_p1p.Engine.{pip_store}

pub data IngestResult : Type 0 where
  applied : ℕ → IngestResult  -- transition_count
  replayed : IngestResult

-- The code outside that the ledger and the results use.
pub record World (Value : Type 0) : Type 0 where
  pub codec : Codec Value
  pub guards : Guards Value
  pub granted_rounds : Value → Option ℕ
  pub json : Json Value
  pub serde : Serde Value

-- What a result asks of the ledger.
pub data Plan (Value : Type 0) : Type 0 where
  already : Plan Value
  one : Command Value → Plan Value
  two : Command Value → Command Value → Plan Value

-- A builder that was dispatched without a command stands in BUILDING, one revision on.
abbrev pub building_of : StoredCase → ℕ → StoredCase
building_of stored revision = record stored { state = "BUILDING"; state_revision = revision }

module _ {Value : Type 0} where
  -- `matches!(result, WorkerResult::Builder(_))`
  abbrev pub is_build : WorkerResult Value → Bool
  is_build (of_builder result) = true
  is_build _ = false

  abbrev pub payloads_of : List (RunRow Value) → List Value
  payloads_of rows = map (λ row. row.run.payload) rows

  module _ (world : World Value) where
    -- The task has a run already: it is this one, or another.
    unfoldable pub same_run : RunRow Value → WorkerBinding → Value → Joined (Plan Value)
    same_run existing binding payload = do
      id ← case_id binding
      if str_eq existing.case_key (case_key id)
            && str_eq existing.run.role (role_name binding.role)
            && world.serde.same_value existing.run.payload payload
          then ok already
          else err conflicting_run

    module _ (t : Tables Value) (policy : Option WorkflowPolicy) (binding : WorkerBinding)
        (result : WorkerResult Value) (payload : Value) where
      -- `result_workflow`, with what it asks of the store.
      abbrev pub command_for : StoredCase → CaseId → Joined (Command Value)
      command_for case id =
          result_workflow world.serde (latest_event_type t case.case_key)
            (payloads_of (current_review_runs_for_case t case.case_key)) case id policy binding
            result payload

      abbrev pub dispatch_payload : Value
      dispatch_payload = world.serde.object (
          ("task_id", world.serde.text binding.task_id) ∷ ("role", world.serde.text "builder") ∷ [])

      -- The first result of a builder brings the dispatch of the builder with it.
      unfoldable pub with_dispatch : StoredCase → CaseId → Joined (Plan Value)
      with_dispatch stored id = do
        synthetic ←
            workflow stored id builder_dispatched
              (result_event_id world.serde "dispatch" binding.task_id)
              (common_of result).started_at_unix dispatch_payload none none none []
        revision ← ok_or (checked_add_u64 stored.state_revision 1) invalid_state
        command ← command_for (building_of stored revision) id
        ok (two synthetic command)

      unfoldable pub alone : StoredCase → CaseId → Joined (Plan Value)
      alone stored id = do command ← command_for stored id; ok (one command)

      unfoldable pub new_run : CasePolicy → Joined (Plan Value)
      new_run case_policy = do
        id ← case_id binding
        stored ← ok_or (query_case t.cases (case_key id)) invalid_binding
        validate_case_binding stored binding case_policy
        if is_build result && str_eq stored.state "READY_TO_BUILD"
            then with_dispatch stored id
            else alone stored id

    unfoldable pub plan_ingest :
        Tables Value
        → CasePolicy
        → Option WorkflowPolicy
        → WorkerBinding
        → WorkerResult Value
        → Joined (Plan Value)
    plan_ingest t case_policy policy binding result = do
      map_err contract (validate_binding world.json.is_object result binding)
      validate_review_policy policy binding
      payload ← map_err serialization (world.serde.to_value result)
      elim (run_by_task_id t.runs binding.task_id) [
        | some existing ↦ same_run existing binding payload
        | none ↦ new_run t policy binding result payload case_policy
      ]

    -- `?` on what the ledger says of this many commands.
    abbrev pub counted :
        ℕ → Handle Value × Prepared StoreError ApplyResult → Handle Value × Joined IngestResult
    counted n (handle, ok _) = (handle, ok (applied n))
    counted n (handle, err failure) = (handle, err (controller failure))

    abbrev pub perform :
        Handle Value → CasePolicy → Joined (Plan Value) → Handle Value × Joined IngestResult
    perform handle case_policy (err failure) = (handle, err failure)
    perform handle case_policy (ok already) = (handle, ok replayed)
    perform handle case_policy (ok (one w)) = counted 1 (
        apply world.json (pip_store world.codec world.guards world.granted_rounds) handle
          case_policy w)
    perform handle case_policy (ok (two w w')) = counted 2 (
        apply_batch world.json (pip_store world.codec world.guards world.granted_rounds) handle
          case_policy (w ∷ w' ∷ []))

    -- `ingest_worker_result`, and with a policy `ingest_worker_result_with_policy`.
    unfoldable pub ingest_worker_result :
        Handle Value
        → CasePolicy
        → Option WorkflowPolicy
        → WorkerBinding
        → WorkerResult Value
        → Handle Value × Joined IngestResult
    ingest_worker_result handle case_policy policy binding result =
        perform handle case_policy (plan_ingest handle.tables case_policy policy binding result)
