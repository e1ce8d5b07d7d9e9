-- ===== src/Engine/Ingest/Outcomes.antt =====
-- crates/pip-controller/src/results.rs: what an ingest that succeeds has done to the ledger.
use text.Mathlib.Text.{◌==◌ as str_eq}
use agent_p1p.Prelude.{
  ℕ, ◌≡◌, refl, sym, ◌∙◌, ap, arith, Bool, true, ◌&&◌, Bool-cases, Option, none, some, List, [],
  ◌∷◌, ok, err, >>=-eq-ok, >>-eq-ok, ok_or-eq-ok, ok_or, map_err, inl, inr, ◌⊎◌, if-true, if-false,
}
use text.Mathlib.TextEquality.{eq_iff}
use agent_p1p.Core.Domain.{CaseId, case_key}
use agent_p1p.Core.Revision.{CasePolicy}
use agent_p1p.Contracts.{WorkerBinding, WorkerResult}
use agent_p1p.Contracts.Binding.{validate_binding}
use agent_p1p.Controller.Ledger.{StoredCase, Prepared}
use agent_p1p.Controller.Ledger.Batch.{ApplyResult, apply_batch}
use agent_p1p.Controller.Ledger.Batch.Single.{apply-eq-apply_batch}
use agent_p1p.Controller.Scheduling.{WorkflowPolicy}
use agent_p1p.Controller.Reviews.{Joined, contract, invalid_binding, serialization}
use agent_p1p.Controller.Results.Commands.{
  Command, validate_review_policy, validate_case_binding, case_id,
}
use agent_p1p.Store.{StoreError, RunRow, Tables, Handle}
use agent_p1p.Store.Statements.{query_case}
use agent_p1p.Store.Runs.{run_by_task_id}
use agent_p1p.Engine.{pip_store}
use agent_p1p.Engine.Ingest.{
  World, Plan, already, one, two, IngestResult, applied, replayed, is_build, same_run, new_run,
  plan_ingest, counted, perform, ingest_worker_result,
}
use agent_p1p.Engine.Ingest.Plans.{map_err-eq-ok, IsPlan, alone-IsPlan, with_dispatch-IsPlan}

both_hold : (a b : Bool) → (a && b) ≡ true → (a ≡ true) × (b ≡ true)
both_hold a b h = ground arith

module _ {Value : Type 0} (world : World Value) where
  module _ (t : Tables Value) (case_policy : CasePolicy) (policy : Option WorkflowPolicy)
      (binding : WorkerBinding) (result : WorkerResult Value) where
    -- The case of the binding, at which the plan is made.
    pub record IsNewRun (payload : Value) (plan : Plan Value) : Type 0 where
      pub id : CaseId
      pub id_is : case_id binding ≡ ok id
      pub stored : StoredCase
      pub found : query_case t.cases (case_key id) ≡ some stored
      pub planned : IsPlan world t policy binding result payload stored id plan

    new_run-IsNewRun :
        (payload : Value) (plan : Plan Value)
        → new_run world t policy binding result payload case_policy ≡ ok plan
        → IsNewRun payload plan
    unfolding new_run
    new_run-IsNewRun payload plan h =
        let (id, id_is, h1) = >>=-eq-ok (case_id binding) _ h in
        let (stored, found, h2) =
          >>=-eq-ok (ok_or (query_case t.cases (case_key id)) invalid_binding) _ h1 in
        let (_, h3) = >>-eq-ok (validate_case_binding stored binding case_policy) _ h2 in
        record {
          id = id;
          id_is = id_is;
          stored = stored;
          found = ok_or-eq-ok _ _ found;
          planned = elim (Bool-cases (is_build result && str_eq stored.state "READY_TO_BUILD")) [
            | inl first ↦
                with_dispatch-IsPlan world t policy binding result payload stored id plan
                  ((eq_iff stored.state "READY_TO_BUILD").0
                    (both_hold (is_build result) (str_eq stored.state "READY_TO_BUILD") first).1)
                  (sym (if-true _ _ first) ∙ h3)
            | inr other ↦
                alone-IsPlan world t policy binding result payload stored id plan
                  (sym (if-false _ _ other) ∙ h3)
          ];
        }

    -- What was checked of the result before the ledger was asked.
    pub record IsChecked (payload : Value) : Type 0 where
      pub bound : validate_binding world.json.is_object result binding ≡ ok tt
      pub allowed : validate_review_policy policy binding ≡ ok tt
      pub value : world.serde.to_value result ≡ ok payload

    abbrev pub IsPlanned : Plan Value → Type 0
    IsPlanned plan =
        (payload : Value) × IsChecked payload
        × (((run_by_task_id t.runs binding.task_id ≡ none) × IsNewRun payload plan)
            ⊎ ((existing : RunRow Value) × (run_by_task_id t.runs binding.task_id ≡ some existing)
                × (same_run world existing binding payload ≡ ok plan)))

    by_run :
        (payload : Value) (plan : Plan Value) (found : Option (RunRow Value))
        → run_by_task_id t.runs binding.task_id ≡ found
        → elim found [
          | some existing ↦ same_run world existing binding payload
          | none ↦ new_run world t policy binding result payload case_policy
        ]
          ≡ ok plan
        → ((run_by_task_id t.runs binding.task_id ≡ none) × IsNewRun payload plan)
          ⊎ ((existing : RunRow Value) × (run_by_task_id t.runs binding.task_id ≡ some existing)
              × (same_run world existing binding payload ≡ ok plan))
    by_run payload plan none is h = inl (is, new_run-IsNewRun payload plan h)
    by_run payload plan (some existing) is h = inr (existing, is, h)

    pub plan_ingest-IsPlanned :
        (plan : Plan Value)
        → plan_ingest world t case_policy policy binding result ≡ ok plan
        → IsPlanned plan
    unfolding plan_ingest
    plan_ingest-IsPlanned plan h =
        let (bound, h1) =
          >>-eq-ok (map_err contract (validate_binding world.json.is_object result binding)) _ h in
        let (allowed, h2) = >>-eq-ok (validate_review_policy policy binding) _ h1 in
        let (payload, value, h3) =
          >>=-eq-ok (map_err serialization (world.serde.to_value result)) _ h2 in
        (
          payload,
          record {
            bound =
                map_err-eq-ok contract (validate_binding world.json.is_object result binding) bound;
            allowed = allowed;
            value = map_err-eq-ok serialization (world.serde.to_value result) value;
          },
          by_run payload plan _ refl h3,
        )

  -- The batch of one or two commands that the controller applied.
  abbrev pub Applies :
      Handle Value → CasePolicy → List (Command Value) → Handle Value → ApplyResult → Type 0
  Applies handle case_policy ws handle' outcome =
      apply_batch world.json (pip_store world.codec world.guards world.granted_rounds) handle
        case_policy ws
      ≡ (handle', ok outcome)

  abbrev pub Performed :
      Handle Value → CasePolicy → Plan Value → Handle Value → IngestResult → Type 0
  Performed handle case_policy already handle' answer = (handle' ≡ handle) × (answer ≡ replayed)
  Performed handle case_policy (one w) handle' answer =
      (outcome : ApplyResult) × Applies handle case_policy (w ∷ []) handle' outcome
      × (answer ≡ applied 1)
  Performed handle case_policy (two w w') handle' answer =
      (outcome : ApplyResult) × Applies handle case_policy (w ∷ w' ∷ []) handle' outcome
      × (answer ≡ applied 2)

  counted_ok :
      (n : ℕ) (done : Handle Value × Prepared StoreError ApplyResult) (handle' : Handle Value)
      (answer : IngestResult)
      → counted world n done ≡ (handle', ok answer)
      → (outcome : ApplyResult) × (done ≡ (handle', ok outcome)) × (answer ≡ applied n)
  counted_ok n (after, ok outcome) handle' answer h = (outcome, cc, cc)
  counted_ok n (after, err failure) handle' answer h = let e = ap (λ p. p.1) h in cc

  perform-Performed :
      (handle handle' : Handle Value) (case_policy : CasePolicy) (planned : Joined (Plan Value))
      (answer : IngestResult)
      → perform world handle case_policy planned ≡ (handle', ok answer)
      → (plan : Plan Value) × (planned ≡ ok plan) × Performed handle case_policy plan handle' answer
  perform-Performed handle handle' case_policy (err failure) answer h =
      let e = ap (λ p. p.1) h in cc
  perform-Performed handle handle' case_policy (ok already) answer h = (already, refl, (cc, cc))
  perform-Performed handle handle' case_policy (ok (one w)) answer h =
      let (outcome, done, is) = counted_ok 1 _ handle' answer h in
      (
        one w,
        refl,
        (outcome, sym (apply-eq-apply_batch world.json _ handle case_policy w) ∙ done, is),
      )
  perform-Performed handle handle' case_policy (ok (two w w')) answer h =
      (two w w', refl, counted_ok 2 _ handle' answer h)

  pub ingest-Performed :
      (handle handle' : Handle Value) (case_policy : CasePolicy) (policy : Option WorkflowPolicy)
      (binding : WorkerBinding) (result : WorkerResult Value) (answer : IngestResult)
      → ingest_worker_result world handle case_policy policy binding result ≡ (handle', ok answer)
      → (plan : Plan Value) × IsPlanned handle.tables case_policy policy binding result plan
        × Performed handle case_policy plan handle' answer
  unfolding ingest_worker_result
  ingest-Performed handle handle' case_policy policy binding result answer h =
      let (plan, planned, performed) = perform-Performed handle handle' case_policy _ answer h in
      (
        plan,
        plan_ingest-IsPlanned handle.tables case_policy policy binding result plan planned,
        performed,
      )
