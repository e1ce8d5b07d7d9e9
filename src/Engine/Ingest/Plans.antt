-- ===== src/Engine/Ingest/Plans.antt =====
-- crates/pip-controller/src/results.rs: what `ingest_worker_result` asks of the ledger, and where it
-- comes from.
use agent_p1p.Prelude.{
  ℕ, ◌+◌, ◌≡◌, refl, sym, subst, arith, String, Option, none, some, List, [], Result, ok, err,
  >>=-eq-ok, ok_injective, ok_or, map_err, inl, inr, ◌⊎◌,
}
use agent_p1p.Core.Domain.{CaseId, IdentifierError, checked_add_u64, non_zero, parse_textual_id}
use agent_p1p.Core.StateMachine.{Event, builder_dispatched}
use agent_p1p.Core.StateMachine.Wire.{parse_state}
use agent_p1p.Contracts.{WorkerBinding, WorkerResult}
use agent_p1p.Controller.Ledger.{StoredCase}
use agent_p1p.Controller.Scheduling.{WorkflowPolicy}
use agent_p1p.Controller.Reviews.{Joined, IngestError, invalid_state, serialization}
use agent_p1p.Controller.Results.{MappedEvent, map_event}
use agent_p1p.Controller.Results.Commands.{
  Command, workflow, parse_head, parse_next_head, required_ids, findings, run_of, result_event_id,
  result_workflow,
}
use agent_p1p.Store.{RunInput, EvidenceInput, Tables}
use agent_p1p.Store.Runs.{latest_event_type, current_review_runs_for_case}
use agent_p1p.Engine.Ingest.{
  World, Plan, one, two, building_of, payloads_of, command_for, dispatch_payload, with_dispatch,
  alone,
}

pub map_err-eq-ok {ℓ κ μ} :
    {A : Type ℓ} {E : Type κ} {F : Type μ} (f : E → F) (r : Result A E) {a : A}
    → map_err f r ≡ ok a
    → r ≡ ok a
map_err-eq-ok f (ok a) h = cc
map_err-eq-ok f (err e) h = cc

same_id :
    (kind value id : String) (f : IdentifierError → IngestError)
    → map_err f (parse_textual_id kind value) ≡ ok id
    → id ≡ value
unfolding parse_textual_id
same_id kind value id f h = ground arith

same_number : (n m : ℕ) (e : IngestError) → ◌≡◌ {A = Joined ℕ} (ok_or (non_zero n) e) (ok m) → m ≡ n
same_number n m e h = ground arith

module _ {Value : Type 0} where
  -- The command stands on the case, and carries the event and the run.
  pub record IsWorkflow (case : StoredCase) (id : CaseId) (event : Event) (event_id : String)
      (run : Option (RunInput Value)) (w : Command Value) : Type 0 where
    pub of_case : w.case_id ≡ id
    pub kind : w.event ≡ event
    pub named : w.event_id ≡ event_id
    pub run_is : w.run ≡ run
    pub state : parse_state case.state ≡ ok w.expected_state
    pub revision : w.expected_state_revision ≡ case.state_revision

  workflow-IsWorkflow :
      (case : StoredCase) (id : CaseId) (event : Event) (event_id : String) (at : ℕ)
      (payload : Value) (run : Option (RunInput Value)) (plan : Option ℕ)
      (next : Option (ℕ × String)) (evidence : List (EvidenceInput Value)) (w : Command Value)
      → workflow case id event event_id at payload run plan next evidence ≡ ok w
      → IsWorkflow case id event event_id run w
  unfolding workflow
  workflow-IsWorkflow case id event event_id at payload run plan next evidence w h =
      let (named, is_named, h1) = >>=-eq-ok _ _ h in
      let (state, parsed, h2) =
        >>=-eq-ok (map_err (λ _. invalid_state) (parse_state case.state)) _ h1 in
      let (revision, counted, h3) =
        >>=-eq-ok (ok_or (non_zero case.state_revision) invalid_state) _ h2 in
      let (policy, _, h4) = >>=-eq-ok (ok_or (non_zero case.policy_revision) invalid_state) _ h3 in
      let (head, _, h5) = >>=-eq-ok (parse_head case.head_sha) _ h4 in
      let (next_head, _, h6) = >>=-eq-ok (parse_next_head next) _ h5 in
      subst (IsWorkflow case id event event_id run) (ok_injective h6) (record {
        of_case = refl;
        kind = refl;
        named = same_id _ event_id named _ is_named;
        run_is = refl;
        state = map_err-eq-ok _ (parse_state case.state) parsed;
        revision = same_number case.state_revision revision invalid_state counted;
      })

  module _ (world : World Value) where
    module _ (t : Tables Value) (policy : Option WorkflowPolicy) (binding : WorkerBinding)
        (result : WorkerResult Value) (payload : Value) where
      -- The event of a result, on a case.
      abbrev pub IsMapped : StoredCase → MappedEvent → Type 0
      IsMapped case mapped =
          map_event (λ v. map_err serialization (world.serde.from_value v)) case.state
            (latest_event_type t case.case_key)
            (payloads_of (current_review_runs_for_case t case.case_key)) (required_ids policy)
            result
          ≡ ok mapped

      abbrev pub IsResult : StoredCase → CaseId → Command Value → Type 0
      IsResult case id w =
          (mapped : MappedEvent) × IsMapped case mapped
          × IsWorkflow case id mapped.event (result_event_id world.serde "result" binding.task_id)
              (some (run_of world.serde binding payload)) w

      command_for-IsResult :
          (case : StoredCase) (id : CaseId) (w : Command Value)
          → command_for world t policy binding result payload case id ≡ ok w
          → IsResult case id w
      unfolding result_workflow
      command_for-IsResult case id w h =
          let (mapped, is_mapped, h1) = >>=-eq-ok _ _ h in
          let (found, _, h2) = >>=-eq-ok (findings world.serde result) _ h1 in
          let (command, made, h3) = >>=-eq-ok _ _ h2 in
          let from =
            workflow-IsWorkflow case id mapped.event
              (result_event_id world.serde "result" binding.task_id) _ payload
              (some (run_of world.serde binding payload)) _ _ _ command made in
          (
            mapped,
            is_mapped,
            subst
                (IsWorkflow case id mapped.event
                  (result_event_id world.serde "result" binding.task_id)
                  (some (run_of world.serde binding payload)))
                (ok_injective h3)
                (record {
                  of_case = from.of_case;
                  kind = from.kind;
                  named = from.named;
                  run_is = from.run_is;
                  state = from.state;
                  revision = from.revision;
                }),
          )

      -- One command for the result, or two where a builder is dispatched by its result.
      abbrev pub IsPlan : StoredCase → CaseId → Plan Value → Type 0
      IsPlan stored id plan =
          ((w : Command Value) × (plan ≡ one w) × IsResult stored id w)
          ⊎ ((w : Command Value) × (w' : Command Value) × (revision : ℕ) × (plan ≡ two w w')
              × (stored.state ≡ "READY_TO_BUILD")
              × (revision ≡ stored.state_revision + 1)
              × IsWorkflow stored id builder_dispatched
                  (result_event_id world.serde "dispatch" binding.task_id) none w
              × IsResult (building_of stored revision) id w')

      pub alone-IsPlan :
          (stored : StoredCase) (id : CaseId) (plan : Plan Value)
          → alone world t policy binding result payload stored id ≡ ok plan
          → IsPlan stored id plan
      unfolding alone
      alone-IsPlan stored id plan h =
          let (w, made, h1) =
            >>=-eq-ok (command_for world t policy binding result payload stored id) _ h in
          inl (w, sym (ok_injective h1), command_for-IsResult stored id w made)

      next_revision :
          (a b : ℕ) (e : IngestError)
          → ◌≡◌ {A = Joined ℕ} (ok_or (checked_add_u64 a 1) e) (ok b)
          → b ≡ a + 1
      next_revision a b e h = ground arith

      pub with_dispatch-IsPlan :
          (stored : StoredCase) (id : CaseId) (plan : Plan Value)
          → stored.state ≡ "READY_TO_BUILD"
          → with_dispatch world t policy binding result payload stored id ≡ ok plan
          → IsPlan stored id plan
      unfolding with_dispatch
      with_dispatch-IsPlan stored id plan ready h =
          let (w, made, h1) = >>=-eq-ok _ _ h in
          let (revision, next, h2) =
            >>=-eq-ok (ok_or (checked_add_u64 stored.state_revision 1) invalid_state) _ h1 in
          let (w', made', h3) =
            >>=-eq-ok
              (command_for world t policy binding result payload (building_of stored revision) id) _
              h2 in
          inr (
            w,
            w',
            revision,
            sym (ok_injective h3),
            ready,
            next_revision stored.state_revision revision invalid_state next,
            workflow-IsWorkflow stored id builder_dispatched _ _
                (dispatch_payload world t policy binding result payload) none none none [] w made,
            command_for-IsResult (building_of stored revision) id w' made',
          )
