-- ===== src/Store/Moves/Runs.antt =====
-- crates/pip-store/src/lib.rs: every operation of the ledger keeps the runs that were stored.
use text.Mathlib.Text.{◌==◌ as str_eq}
use text.Mathlib.TextEquality.{eq_iff}
use agent_p1p.Prelude.{
  ℕ, ◌≡◌, sym, subst, arith, String, true, Bool-cases, Option, none, some, List, [], ◌∷◌, any, ok,
  inl, inr, ◌∙◌, if-true, if-false,
}
use agent_p1p.Controller.Ledger.{EffectPayload}
use agent_p1p.Store.{FaultPoint, RunInput, RunRow, OutboxRow, Tables, Handle, Stored}
use agent_p1p.Store.Checks.{Transition, Codec, Guards}
use agent_p1p.Store.Step.{apply_one}
use agent_p1p.Store.Step.Facts.{RunStored, apply_one-IsStored}
use agent_p1p.Store.Runs.{run_by_task_id}
use agent_p1p.Store.Moves.{Reach, here, next}
use agent_p1p.Store.Moves.Beside.{IsBeside, Move-Keeps}

module _ {Value : Type 0} where
  -- The run of a task is found as it was.
  abbrev pub KeepsRuns : Tables Value → Tables Value → Type 0
  KeepsRuns t t' =
      (id : String) (row : RunRow Value)
      → run_by_task_id t.runs id ≡ some row
      → run_by_task_id t'.runs id ≡ some row

  known_run :
      (rows : List (RunRow Value)) (id : String) (row : RunRow Value)
      → run_by_task_id rows id ≡ some row
      → any (λ old. str_eq old.run.task_id id) rows ≡ true
  known_run [] id row found = cc
  known_run (first ∷ rows) id row found = ground (arith, known_run rows id row)

  RunStored-found :
      (run : Option (RunInput Value)) (key event : String) (at : ℕ)
      (rows rows' : List (RunRow Value)) (id : String) (row : RunRow Value)
      → RunStored run key event at rows rows'
      → run_by_task_id rows id ≡ some row
      → run_by_task_id rows' id ≡ some row
  RunStored-found none key event at rows rows' id row same found =
      subst (λ r. run_by_task_id r id ≡ some row) (sym same) found
  RunStored-found (some run) key event at rows rows' id row (new, first) found =
      elim (Bool-cases (str_eq run.task_id id)) [
        | inl same ↦
            let known = known_run rows id row found in
            let known' =
              subst (λ k. any (λ old. str_eq old.run.task_id k) rows ≡ true)
                (sym ((eq_iff run.task_id id).0 same)) known in
            cc
        | inr other ↦
            subst (λ r. run_by_task_id r id ≡ some row) (sym first)
              (if-false _ (run_by_task_id rows id) other ∙ found)
      ]

  module _ (codec : Codec Value) (guards : Guards Value) where
    apply_one-KeepsRuns :
        (fault : Option FaultPoint) (t t' : Tables Value) (input : Transition Value)
        → apply_one codec guards fault t input ≡ ok t'
        → KeepsRuns t t'
    apply_one-KeepsRuns fault t t' input h id row found =
        RunStored-found input.run _ _ _ t.runs t'.runs id row
          (apply_one-IsStored codec guards fault t t' input h).runs found

    pub runs-IsBeside : IsBeside codec guards KeepsRuns
    runs-IsBeside = record {
      same =
          λ t t' same _ id row found. subst (λ r. run_by_task_id r id ≡ some row) (sym same) found;
      joins = λ t u v first second id row found. second id row (first id row found);
      stored = apply_one-KeepsRuns;
      completed = λ t t' added id row found.
          subst (λ r. run_by_task_id r id ≡ some row) (sym added.1) found;
    }

    pub Reach-KeepsRuns :
        (read : OutboxRow → Stored EffectPayload) {h h' : Handle Value}
        → Reach codec guards read h h'
        → KeepsRuns h.tables h'.tables
    Reach-KeepsRuns read here id row found = found
    Reach-KeepsRuns read (next reach move) id row found =
        Move-Keeps codec guards KeepsRuns runs-IsBeside read move id row
          (Reach-KeepsRuns read reach id row found)

    -- A transition that is stored with a run leaves the run to be found by its task.
    pub apply_one-run :
        (fault : Option FaultPoint) (t t' : Tables Value) (input : Transition Value)
        (run : RunInput Value)
        → input.run ≡ some run
        → apply_one codec guards fault t input ≡ ok t'
        → run_by_task_id t'.runs run.task_id
          ≡ some (record {
            run = run;
            case_key = input.case_key;
            event_id = input.event.event_id;
            accepted_at = input.observed_at;
          })
    apply_one-run fault t t' input run is h =
        let stored =
          subst
            (λ r. RunStored r input.case_key input.event.event_id input.observed_at t.runs t'.runs)
            is (apply_one-IsStored codec guards fault t t' input h).runs in
        subst
          (λ r.
            run_by_task_id r run.task_id
            ≡ some (record {
              run = run;
              case_key = input.case_key;
              event_id = input.event.event_id;
              accepted_at = input.observed_at;
            }))
          (sym stored.1) (if-true _ _ ((eq_iff run.task_id run.task_id).1 (λ i. run.task_id)))
