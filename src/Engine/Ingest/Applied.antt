-- ===== src/Engine/Ingest/Applied.antt =====
-- crates/pip-controller/src/results.rs: the run that a result leaves in the ledger.
use agent_p1p.Prelude.{
  ◌≡◌, refl, sym, ◌∙◌, ap, subst, String, true, Option, none, some, is_some, List, [], ◌∷◌, ok,
  >>=-eq-ok, >>-eq-ok, ok_injective, inl, inr,
}
use agent_p1p.Core.Domain.{case_key}
use agent_p1p.Core.Revision.{CasePolicy}
use agent_p1p.Controller.Ledger.Batch.{ApplyResult, applied, replayed, prepare_from, apply_batch}
use agent_p1p.Controller.Ledger.Batch.Chains.{first_prepared, batch_prepared, nothing_left}
use agent_p1p.Controller.Ledger.Transition.Rounds.{prepared}
use agent_p1p.Controller.Results.Commands.{Command}
use agent_p1p.Store.{StoreError, RunInput, RunRow, EventRow, Tables, Handle, between_transitions}
use agent_p1p.Store.Statements.{existing_event, inject}
use agent_p1p.Store.Step.{apply_one}
use agent_p1p.Store.Checks.{Transition}
use agent_p1p.Store.Apply.{replay_one, replay_all, apply_all, apply_transition_batch}
use agent_p1p.Store.Apply.Facts.{apply_transition_batch-IsOutcome}
use agent_p1p.Store.Moves.Runs.{apply_one-run}
use agent_p1p.Store.Runs.{run_by_task_id}
use agent_p1p.Engine.{pip_store, committed-ok, commit-ok}
use agent_p1p.Engine.Ingest.{World}
use agent_p1p.Engine.Ingest.Outcomes.{Applies}

-- The last of some commands, or of their transitions.
abbrev pub last {ℓ} : {A : Type ℓ} → A → List A → A
last a [] = a
last a (b ∷ bs) = last b bs

abbrev run_row : {Value : Type 0} → RunInput Value → Transition Value → RunRow Value
run_row run input = record {
  run = run;
  case_key = input.case_key;
  event_id = input.event.event_id;
  accepted_at = input.observed_at;
}

module _ {Value : Type 0} (world : World Value) where
  -- A run of the last transition is found by its task.
  last_run :
      (t t' : Tables Value) (first : Transition Value) (rest : List (Transition Value))
      (run : RunInput Value)
      → (last first rest).run ≡ some run
      → apply_all world.codec world.guards none t (first ∷ rest) ≡ ok t'
      → (row : RunRow Value) × (run_by_task_id t'.runs run.task_id ≡ some row)
        × (row.run ≡ run)
        × (row.case_key ≡ (last first rest).case_key)
  unfolding apply_all
  last_run t t' first [] run is h =
      let (t1, one, h1) = >>=-eq-ok (apply_one world.codec world.guards none t first) _ h in
      let found = apply_one-run world.codec world.guards none t t1 first run is one in
      (
        run_row run first,
        subst (λ u. run_by_task_id u.runs run.task_id ≡ some (run_row run first)) (ok_injective h1)
            found,
        refl,
        refl,
      )
  last_run t t' first (second ∷ rest) run is h =
      let (t1, one, h1) = >>=-eq-ok (apply_one world.codec world.guards none t first) _ h in
      let (_, h2) = >>-eq-ok (inject none between_transitions) _ h1 in
      last_run t1 t' second rest run is h2

  replayed_one :
      (found : Option (String × String)) (input : Transition Value)
      → replay_one world.codec found input ≡ ok tt
      → is_some found ≡ true
  replayed_one none input h = cc
  replayed_one (some existing) input h = refl

  replayed_last :
      (events : List (EventRow Value)) (first : Transition Value) (rest : List (Transition Value))
      → replay_all world.codec events (first ∷ rest) ≡ ok replayed
      → is_some (existing_event events (last first rest).event.event_id) ≡ true
  unfolding replay_all
  replayed_last events first [] h =
      let (one, _) =
        >>-eq-ok (replay_one world.codec (existing_event events first.event.event_id) first)
          (ok replayed) h in
      replayed_one (existing_event events first.event.event_id) first one
  replayed_last events first (second ∷ rest) h =
      let (_, h1) =
        >>-eq-ok (replay_one world.codec (existing_event events first.event.event_id) first) _ h in
      replayed_last events second rest h1

  -- What is prepared of the last command.
  last_prepared :
      (case_policy : CasePolicy) (previous : Option (Transition Value)) (w : Command Value)
      (ws : List (Command Value)) (ts : List (Transition Value))
      → prepare_from {StoreError = StoreError} world.json case_policy previous (w ∷ ws) ≡ ok ts
      → (first : Transition Value) × (rest : List (Transition Value)) × (ts ≡ first ∷ rest)
        × ((last first rest).run ≡ (last w ws).run)
        × ((last first rest).case_key ≡ case_key (last w ws).case_id)
        × ((last first rest).event.event_id ≡ (last w ws).event_id)
  last_prepared case_policy previous w [] ts h =
      let (t, rest, _, made, more, split) =
        first_prepared world.json case_policy previous w [] ts h in
      let (_, _, from) = prepared world.json case_policy w t made in
      (
        t,
        [],
        split ∙ ap (λ r. t ∷ r) (nothing_left world.json case_policy (some t) rest more),
        from.run,
        from.key,
        from.named,
      )
  last_prepared case_policy previous w (w2 ∷ ws) ts h =
      let (t, rest, _, made, more, split) =
        first_prepared world.json case_policy previous w (w2 ∷ ws) ts h in
      let (second, others, shown, run, key, named) =
        last_prepared case_policy (some t) w2 ws rest more in
      (t, second ∷ others, split ∙ ap (λ r. t ∷ r) shown, run, key, named)

  -- A batch whose last event was not in the ledger is applied, and the run of its last command, if it
  -- has one, is found by its task.
  pub applied_run :
      (handle handle' : Handle Value) (case_policy : CasePolicy) (w : Command Value)
      (ws : List (Command Value)) (outcome : ApplyResult) (run : RunInput Value)
      → Applies world handle case_policy (w ∷ ws) handle' outcome
      → existing_event handle.tables.events (last w ws).event_id ≡ none
      → (last w ws).run ≡ some run
      → (outcome ≡ applied)
        × (row : RunRow Value) × (run_by_task_id handle'.tables.runs run.task_id ≡ some row)
        × (row.run ≡ run)
        × (row.case_key ≡ case_key (last w ws).case_id)
  unfolding apply_batch
  applied_run handle handle' case_policy w ws outcome run h new is =
      let ops = pip_store world.codec world.guards world.granted_rounds in
      let (ts, made, taken) = commit-ok ops handle handle' outcome _ h in
      let (effective, _, from) = batch_prepared world.json ops handle case_policy w ws ts made in
      let (first, rest, shown, runs, key, named) = last_prepared effective none w ws ts from in
      let stored =
        subst
          (λ all.
            apply_transition_batch world.codec world.guards none handle all ≡ ok (handle', outcome))
          shown (committed-ok handle handle' _ outcome taken) in
      let (_, settled) =
        apply_transition_batch-IsOutcome world.codec world.guards none handle (first ∷ rest) handle'
          outcome stored in
      elim settled [
        | inl (_, _, replays) ↦
            let old = replayed_last handle.tables.events first rest replays in
            let none_there =
              ap (λ id. is_some (existing_event handle.tables.events id)) named ∙ ap is_some new in
            cc
        | inr done ↦
            let (row, found, same, of_case) =
              last_run handle.tables done.tables first rest run (runs ∙ is) done.ran in
            (
              done.result_is,
              row,
              subst (λ g. run_by_task_id g.tables.runs run.task_id ≡ some row)
                  (sym done.handle_after) found,
              same,
              of_case ∙ key,
            )
      ]
