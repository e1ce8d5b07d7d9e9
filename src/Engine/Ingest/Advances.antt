-- ===== src/Engine/Ingest/Advances.antt =====
-- crates/pip-controller/src/results.rs: a result that is ingested is a run of the state machine.
use agent_p1p.Prelude.{
  ℕ, ◌+◌, ◌≡◌, refl, ◌∙◌, ap, subst, Option, none, some, List, [], ◌∷◌, ok, inl, inr, ◌⊎◌,
}
use agent_p1p.Core.Domain.{CaseId, case_key}
use agent_p1p.Core.StateMachine.{Event, builder_dispatched}
use agent_p1p.Core.Revision.{CasePolicy}
use agent_p1p.Contracts.{WorkerBinding, WorkerResult}
use agent_p1p.Controller.Ledger.{StoredCase}
use agent_p1p.Controller.Ledger.Batch.{ApplyResult}
use agent_p1p.Controller.Scheduling.{WorkflowPolicy}
use agent_p1p.Controller.Results.{MappedEvent}
use agent_p1p.Controller.Results.Commands.{Command, case_id, result_event_id, run_of}
use agent_p1p.Store.{Handle}
use agent_p1p.Store.Statements.{query_case, existing_event}
use agent_p1p.Engine.Ingest.{
  World, Plan, already, one, two, applied, building_of, ingest_worker_result,
}
use agent_p1p.Engine.Ingest.Plans.{IsMapped, IsWorkflow, IsResult}
use agent_p1p.Engine.Ingest.Outcomes.{IsPlanned, Performed, Applies, ingest-Performed}
use agent_p1p.Engine.Ingest.Applied.{last, applied_run}
use agent_p1p.Engine.Ingest.Once.{same_run-IsRunOf}
use agent_p1p.Engine.Ingest.Runs.{IsAdvance, advance}

module _ {Value : Type 0} (world : World Value) where
  module _ (handle handle' : Handle Value) (case_policy : CasePolicy)
      (policy : Option WorkflowPolicy) (binding : WorkerBinding) (result : WorkerResult Value) where
    -- By one event, that of the result; or, where the first result of a builder is taken, by two.
    abbrev pub HasMoved : ℕ → Type 0
    HasMoved n =
        (payload : Value) × (before : StoredCase) × (mapped : MappedEvent) × (((n ≡ 1)
            × IsMapped world handle.tables policy binding result payload before mapped
            × IsAdvance world handle handle' case_policy binding (mapped.event ∷ []) before)
          ⊎ ((n ≡ 2)
              × (before.state ≡ "READY_TO_BUILD")
              × IsMapped world handle.tables policy binding result payload
                  (building_of before (before.state_revision + 1)) mapped
              × IsAdvance world handle handle' case_policy binding
                  (builder_dispatched ∷ mapped.event ∷ []) before))

    -- A batch that ends with the command of the result: it was applied, not replayed.
    first_time :
        (payload : Value) (case : StoredCase) (id : CaseId) (event : Event) (w : Command Value)
        (ws : List (Command Value)) (outcome : ApplyResult)
        → existing_event handle.tables.events (result_event_id world.serde "result" binding.task_id)
          ≡ none
        → IsWorkflow case id event
            (result_event_id world.serde "result" binding.task_id)
            (some (run_of world.serde binding payload))
            (last w ws)
        → Applies world handle case_policy (w ∷ ws) handle' outcome
        → Applies world handle case_policy (w ∷ ws) handle' ApplyResult.applied
    first_time payload case id event w ws outcome new from applies =
        let (is, _, _, _, _) =
          applied_run world handle handle' case_policy w ws outcome _ applies
            (ap (existing_event handle.tables.events) from.named ∙ new) from.run_is in
        subst (Applies world handle case_policy (w ∷ ws) handle') is applies

    by_one :
        (payload : Value) (before : StoredCase) (id : CaseId) (w : Command Value)
        (outcome : ApplyResult)
        → existing_event handle.tables.events (result_event_id world.serde "result" binding.task_id)
          ≡ none
        → case_id binding ≡ ok id
        → query_case handle.tables.cases (case_key id) ≡ some before
        → IsResult world handle.tables policy binding result payload before id w
        → Applies world handle case_policy (w ∷ []) handle' outcome
        → HasMoved 1
    by_one payload before id w outcome new id_is found (mapped, is_mapped, from) applies = (
      payload,
      before,
      mapped,
      inl (
        refl,
        is_mapped,
        subst (λ k. IsAdvance world handle handle' case_policy binding (k ∷ []) before) from.kind
            (advance world handle handle' case_policy binding id before w [] id_is found
              from.of_case from.state from.revision
              (first_time payload before id mapped.event w [] outcome new from applies)),
      ),
    )

    by_two :
        (payload : Value) (before : StoredCase) (id : CaseId) (w w' : Command Value)
        (outcome : ApplyResult)
        → existing_event handle.tables.events (result_event_id world.serde "result" binding.task_id)
          ≡ none
        → case_id binding ≡ ok id
        → query_case handle.tables.cases (case_key id) ≡ some before
        → before.state ≡ "READY_TO_BUILD"
        → IsWorkflow before id builder_dispatched
            (result_event_id world.serde "dispatch" binding.task_id)
            none
            w
        → IsResult world handle.tables policy binding result payload
            (building_of before (before.state_revision + 1))
            id
            w'
        → Applies world handle case_policy (w ∷ w' ∷ []) handle' outcome
        → HasMoved 2
    by_two payload before id w w' outcome new id_is found ready start (mapped, is_mapped, from)
          applies =
        (
          payload,
          before,
          mapped,
          inr (
            refl,
            ready,
            is_mapped,
            subst
                (λ k.
                  IsAdvance world handle handle' case_policy binding (builder_dispatched ∷ k ∷ [])
                    before)
                from.kind
                (subst
                  (λ k.
                    IsAdvance world handle handle' case_policy binding (k ∷ w'.event ∷ []) before)
                  start.kind
                  (advance world handle handle' case_policy binding id before w (w' ∷ []) id_is
                    found start.of_case start.state start.revision
                    (first_time payload _ id mapped.event w (w' ∷ []) outcome new from applies))),
          ),
        )

    ingested_by :
        (plan : Plan Value) (n : ℕ)
        → existing_event handle.tables.events (result_event_id world.serde "result" binding.task_id)
          ≡ none
        → IsPlanned world handle.tables case_policy policy binding result plan
        → Performed world handle case_policy plan handle' (applied n)
        → HasMoved n
    ingested_by already n new planned (_, is) = cc
    ingested_by (one w) n new (payload, _, inr (row, _, is_same)) performed =
        let e = (same_run-IsRunOf world row binding payload (one w) is_same).0 in cc
    ingested_by (two w w') n new (payload, _, inr (row, _, is_same)) performed =
        let e = (same_run-IsRunOf world row binding payload (two w w') is_same).0 in cc
    ingested_by (one w) n new (payload, _, inl (_, made)) (outcome, applies, counts) =
        elim made.planned [
          | inl (w1, is, from) ↦
              let e : w1 ≡ w = cc in
              let e' : 1 ≡ n = cc in
              subst HasMoved e' (
                by_one payload made.stored made.id w outcome new made.id_is made.found
                  (subst
                    (IsResult world handle.tables policy binding result payload made.stored made.id)
                    e from)
                  applies)
          | inr (w1, w2, _, is, _, _, _, _) ↦ cc
        ]
    ingested_by (two w w') n new (payload, _, inl (_, made)) (outcome, applies, counts) =
        elim made.planned [
          | inl (w1, is, _) ↦ cc
          | inr (w1, w2, revision, is, ready, next, start, from) ↦
              let e1 : w1 ≡ w = cc in
              let e2 : w2 ≡ w' = cc in
              let e' : 2 ≡ n = cc in
              let from' =
                subst
                  (λ r.
                    IsResult world handle.tables policy binding result payload
                      (building_of made.stored r) made.id w2)
                  next from in
              subst HasMoved e' (
                by_two payload made.stored made.id w w' outcome new made.id_is made.found ready
                  (subst
                    (IsWorkflow made.stored made.id builder_dispatched
                      (result_event_id world.serde "dispatch" binding.task_id) none)
                    e1 start)
                  (subst
                    (IsResult world handle.tables policy binding result payload
                      (building_of made.stored (made.stored.state_revision + 1)) made.id)
                    e2 from')
                  applies)
        ]

  -- A result that is ingested with a count of transitions, and whose event the ledger did not know,
  -- has moved the case of its binding along a run of the state machine, under the merge mode of the
  -- policy and its budget with the rounds that were granted, and raised the revision of the case by
  -- that count: by the one event that the result stands for in the state of the case, or, of a case
  -- that was ready to build, by the dispatch of the builder and the event that the result stands for
  -- in BUILDING.
  pub ingested_is_run :
      (handle handle' : Handle Value) (case_policy : CasePolicy) (policy : Option WorkflowPolicy)
      (binding : WorkerBinding) (result : WorkerResult Value) (n : ℕ)
      → ingest_worker_result world handle case_policy policy binding result
        ≡ (handle', ok (applied n))
      → existing_event handle.tables.events (result_event_id world.serde "result" binding.task_id)
        ≡ none
      → HasMoved handle handle' case_policy policy binding result n
  ingested_is_run handle handle' case_policy policy binding result n h new =
      let (plan, planned, performed) =
        ingest-Performed world handle handle' case_policy policy binding result (applied n) h in
      ingested_by handle handle' case_policy policy binding result plan n new planned performed
