-- ===== src/Engine/Ingest/Once.antt =====
-- crates/pip-controller/src/results.rs: a task has one result in the ledger.
use text.Mathlib.Text.{◌==◌ as str_eq}
use text.Mathlib.TextEquality.{eq_iff}
use agent_p1p.Prelude.{
  ◌≡◌, refl, sym, ◌∙◌, ap, subst, arith, Bool, true, ◌&&◌, Bool-cases, Option, none, some, List, [],
  ◌∷◌, ok, err, >>=-eq-ok, inl, inr, if-true, if-false,
}
use agent_p1p.Core.Domain.{CaseId, case_key}
use agent_p1p.Core.Revision.{CasePolicy}
use agent_p1p.Contracts.{WorkerBinding, WorkerResult}
use agent_p1p.Controller.Ledger.{EffectPayload}
use agent_p1p.Controller.Ledger.Batch.{ApplyResult}
use agent_p1p.Controller.Scheduling.{WorkflowPolicy, role_name}
use agent_p1p.Controller.Reviews.{Joined}
use agent_p1p.Controller.Results.Commands.{Command, case_id, result_event_id, run_of}
use agent_p1p.Store.{RunRow, OutboxRow, Tables, Handle, Stored}
use agent_p1p.Store.Statements.{existing_event}
use agent_p1p.Store.Runs.{run_by_task_id}
use agent_p1p.Store.Moves.{Reach}
use agent_p1p.Store.Moves.Runs.{Reach-KeepsRuns}
use agent_p1p.Engine.Ingest.{
  World, Plan, already, one, two, IngestResult, replayed, same_run, plan_ingest, perform,
  ingest_worker_result,
}
use agent_p1p.Engine.Ingest.Outcomes.{
  IsChecked, IsPlanned, Performed, Applies, plan_ingest-IsPlanned, ingest-Performed,
}
use agent_p1p.Engine.Ingest.Applied.{last, applied_run}

three_hold : (a b c : Bool) → (a && b && c) ≡ true → (a ≡ true) × (b ≡ true) × (c ≡ true)
three_hold a b c h = ground arith

module _ {Value : Type 0} (world : World Value) where
  -- The run of this result, of this case.
  abbrev pub IsRunOf : WorkerBinding → CaseId → Value → RunRow Value → Type 0
  IsRunOf binding id payload row =
      (row.case_key ≡ case_key id)
      × (row.run.role ≡ role_name binding.role)
      × (world.serde.same_value row.run.payload payload ≡ true)

  pub same_run-IsRunOf :
      (existing : RunRow Value) (binding : WorkerBinding) (payload : Value) (plan : Plan Value)
      → same_run world existing binding payload ≡ ok plan
      → (plan ≡ already)
        × (id : CaseId) × (case_id binding ≡ ok id)
        × IsRunOf binding id payload existing
  unfolding same_run
  same_run-IsRunOf existing binding payload plan h =
      let (id, id_is, h1) = >>=-eq-ok (case_id binding) _ h in
      elim (Bool-cases (
        str_eq existing.case_key (case_key id)
        && str_eq existing.run.role (role_name binding.role)
        && world.serde.same_value existing.run.payload payload)) [
          | inl same ↦
              let (key, role, value) = three_hold _ _ _ same in
              let shown = sym (if-true _ _ same) ∙ h1 in
              (
                cc,
                id,
                id_is,
                (
                  (eq_iff existing.case_key (case_key id)).0 key,
                  (eq_iff existing.run.role (role_name binding.role)).0 role,
                  value,
                ),
              )
          | inr other ↦ let shown = sym (if-false _ _ other) ∙ h1 in cc
        ]

  -- The task has a run: the result was ingested before.
  IsRunOf-again :
      (t : Tables Value) (case_policy : CasePolicy) (policy : Option WorkflowPolicy)
      (binding : WorkerBinding) (result : WorkerResult Value) (payload : Value) (id : CaseId)
      (row : RunRow Value)
      → IsChecked world t case_policy policy binding result payload
      → case_id binding ≡ ok id
      → run_by_task_id t.runs binding.task_id ≡ some row
      → IsRunOf binding id payload row
      → plan_ingest world t case_policy policy binding result ≡ ok already
  unfolding plan_ingest same_run
  IsRunOf-again t case_policy policy binding result payload id row checked id_is found
        (key, role, value) =
      rw
        (
          checked.bound,
          checked.allowed,
          checked.value,
          found,
          id_is,
          (eq_iff row.case_key (case_key id)).1 key,
          (eq_iff row.run.role (role_name binding.role)).1 role,
          value,
        )
        refl

  -- Any result of a task that has a run is refused, or is that run.
  no_other_plan :
      (t : Tables Value) (case_policy : CasePolicy) (policy : Option WorkflowPolicy)
      (binding : WorkerBinding) (result : WorkerResult Value) (row : RunRow Value)
      (plan : Plan Value)
      → run_by_task_id t.runs binding.task_id ≡ some row
      → plan_ingest world t case_policy policy binding result ≡ ok plan
      → plan ≡ already
  no_other_plan t case_policy policy binding result row plan found h =
      let (payload, _, by_run) =
        plan_ingest-IsPlanned world t case_policy policy binding result plan h in
      elim by_run [
        | inl (nobody, _) ↦ cc
        | inr (existing, _, same) ↦ (same_run-IsRunOf existing binding payload plan same).0
      ]

  unchanged :
      (handle : Handle Value) (case_policy : CasePolicy) (planned : Joined (Plan Value))
      → ((plan : Plan Value) → planned ≡ ok plan → plan ≡ already)
      → (perform world handle case_policy planned).0 ≡ handle
  unchanged handle case_policy (err failure) only = refl
  unchanged handle case_policy (ok already) only = refl
  unchanged handle case_policy (ok (one w)) only = let e = only (one w) refl in cc
  unchanged handle case_policy (ok (two w w')) only = let e = only (two w w') refl in cc

  module _ (handle handle' : Handle Value) (case_policy : CasePolicy)
      (policy : Option WorkflowPolicy) (binding : WorkerBinding) (result : WorkerResult Value) where
    -- The run of a result that was ingested.
    abbrev pub IsDone : Type 0
    IsDone =
        (payload : Value) × IsChecked world handle.tables case_policy policy binding result payload
        × (id : CaseId) × (row : RunRow Value) × (case_id binding ≡ ok id)
        × (run_by_task_id handle'.tables.runs binding.task_id ≡ some row)
        × IsRunOf binding id payload row

  module _ (same : (v : Value) → world.serde.same_value v v ≡ true) (handle handle' : Handle Value)
      (case_policy : CasePolicy) (policy : Option WorkflowPolicy) (binding : WorkerBinding)
      (result : WorkerResult Value) (answer : IngestResult) where
    written :
        (payload : Value) (id : CaseId) (w : Command Value) (ws : List (Command Value))
        (outcome : ApplyResult)
        → IsChecked world handle.tables case_policy policy binding result payload
        → case_id binding ≡ ok id
        → Applies world handle case_policy (w ∷ ws) handle' outcome
        → existing_event handle.tables.events (result_event_id world.serde "result" binding.task_id)
          ≡ none
        → (last w ws).event_id ≡ result_event_id world.serde "result" binding.task_id
        → (last w ws).run ≡ some (run_of world.serde binding payload)
        → (last w ws).case_id ≡ id
        → IsDone handle handle' case_policy policy binding result
    written payload id w ws outcome checked id_is applies new named run of_case =
        let (_, row, found, is, key) =
          applied_run world handle handle' case_policy w ws outcome
            (run_of world.serde binding payload) applies
            (ap (existing_event handle.tables.events) named ∙ new) run in
        (
          payload,
          checked,
          id,
          row,
          id_is,
          found,
          (
            key ∙ ap case_key of_case,
            ap (λ r. r.role) is,
            subst (λ r. world.serde.same_value r.payload payload ≡ true) (sym is) (same payload),
          ),
        )

    pub done_by :
        (plan : Plan Value)
        → existing_event handle.tables.events (result_event_id world.serde "result" binding.task_id)
          ≡ none
        → IsPlanned world handle.tables case_policy policy binding result plan
        → Performed world handle case_policy plan handle' answer
        → IsDone handle handle' case_policy policy binding result
    done_by already new (payload, checked, inl (_, made)) (stays, _) = elim made.planned [
      | inl (w, is, _) ↦ cc
      | inr (w, w', _, is, _, _, _, _) ↦ cc
    ]
    done_by already new (payload, checked, inr (row, found, is_same)) (stays, _) =
        let (_, id, id_is, run) = same_run-IsRunOf row binding payload already is_same in
        (
          payload,
          checked,
          id,
          row,
          id_is,
          subst (λ g. run_by_task_id g.tables.runs binding.task_id ≡ some row) (sym stays) found,
          run,
        )
    done_by (one w) new (payload, checked, inl (_, made)) (outcome, applies, _) =
        elim made.planned [
          | inl (w1, is, (mapped, _, from)) ↦
              let e : w1 ≡ w = cc in
              written payload made.id w1 [] outcome checked made.id_is
                (subst (λ x. Applies world handle case_policy (x ∷ []) handle' outcome) (sym e)
                  applies)
                new from.named from.run_is from.of_case
          | inr (w1, w2, _, is, _, _, _, _) ↦ cc
        ]
    done_by (two w w') new (payload, checked, inl (_, made)) (outcome, applies, _) =
        elim made.planned [
          | inl (w1, is, _) ↦ cc
          | inr (w1, w2, _, is, _, _, _, (mapped, _, from)) ↦
              let e : w2 ≡ w' = cc in
              written payload made.id w (w2 ∷ []) outcome checked made.id_is
                (subst (λ x. Applies world handle case_policy (w ∷ x ∷ []) handle' outcome) (sym e)
                  applies)
                new from.named from.run_is from.of_case
        ]
    done_by (one w) new (payload, checked, inr (row, found, is_same)) performed =
        let e = (same_run-IsRunOf row binding payload (one w) is_same).0 in cc
    done_by (two w w') new (payload, checked, inr (row, found, is_same)) performed =
        let e = (same_run-IsRunOf row binding payload (two w w') is_same).0 in cc

  -- Where a result was ingested whose event the ledger did not know, and whatever moves of
  -- Store/Moves.antt came after: the same result is answered as a replay and changes nothing, and no
  -- result of the same task, of whatever binding and under whatever policy, changes the ledger again.
  -- A JSON value is taken to equal itself.
  pub ingested_once :
      (read : OutboxRow → Stored EffectPayload)
      (same : (v : Value) → world.serde.same_value v v ≡ true) (handle handle' later : Handle Value)
      (case_policy case_policy' : CasePolicy) (policy policy' : Option WorkflowPolicy)
      (binding binding' : WorkerBinding) (result result' : WorkerResult Value)
      (answer : IngestResult)
      → ingest_worker_result world handle case_policy policy binding result ≡ (handle', ok answer)
      → existing_event handle.tables.events (result_event_id world.serde "result" binding.task_id)
        ≡ none
      → Reach world.codec world.guards read handle' later
      → binding'.task_id ≡ binding.task_id
      → (ingest_worker_result world later case_policy' policy binding result ≡ (later, ok replayed))
        × ((ingest_worker_result world later case_policy' policy' binding' result').0 ≡ later)
  unfolding ingest_worker_result
  ingested_once read same handle handle' later case_policy case_policy' policy policy' binding
        binding' result result' answer h new reach same_task =
      let (plan, planned, performed) =
        ingest-Performed world handle handle' case_policy policy binding result answer h in
      let (payload, checked, id, row, id_is, found, run) =
        done_by same handle handle' case_policy policy binding result answer plan new planned
          performed in
      let still = Reach-KeepsRuns world.codec world.guards read reach binding.task_id row found in
      let again =
        IsRunOf-again later.tables case_policy' policy binding result payload id row
          (record { bound = checked.bound; allowed = checked.allowed; value = checked.value }) id_is
          still run in
      (
        ap (perform world later case_policy') again,
        unchanged later case_policy'
            (plan_ingest world later.tables case_policy' policy' binding' result')
            (λ plan.
              no_other_plan later.tables case_policy' policy' binding' result' row plan
                (ap (run_by_task_id later.tables.runs) same_task ∙ still)),
      )
