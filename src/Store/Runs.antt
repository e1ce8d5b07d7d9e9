-- ===== src/Store/Runs.antt =====
-- crates/pip-store/src/lib.rs: what is read of the runs, and of the events that they came with.
use text.Mathlib.Text.{◌==◌ as str_eq}
use agent_p1p.Prelude.{
  ℕ, String, Bool, true, false, not, ◌&&◌, ◌||◌, Option, none, some, List, [], ◌∷◌, ltb, ◌==◌,
  if◌then◌else◌, option_eq, filter,
}
use agent_p1p.Prelude.Text.{bytes}
use agent_p1p.Store.{EventRow, RunRow, Tables}

-- `memcmp`, the order of texts in SQLite.
abbrev pub bytes_before : List ℕ → List ℕ → Bool
bytes_before bs [] = false
bytes_before [] (c ∷ cs) = true
bytes_before (b ∷ bs) (c ∷ cs) = ltb b c || (b == c && bytes_before bs cs)

module _ {Value : Type 0} where
  -- `SELECT … FROM runs WHERE task_id = ?1`
  abbrev pub run_by_task_id : List (RunRow Value) → String → Option (RunRow Value)
  run_by_task_id [] id = none
  run_by_task_id (row ∷ rows) id =
      if str_eq row.run.task_id id then some row else run_by_task_id rows id

  abbrev pub later_event : EventRow Value → Option (EventRow Value) → EventRow Value
  later_event row none = row
  later_event row (some other) = if ltb row.state_revision other.state_revision then other else row

  -- `WHERE case_key = ?1 ORDER BY state_revision DESC LIMIT 1`
  abbrev pub latest_event : List (EventRow Value) → String → Option (EventRow Value)
  latest_event [] key = none
  latest_event (row ∷ rows) key =
      let rest = latest_event rows key in
      if str_eq row.case_key key then some (later_event row rest) else rest

  abbrev pub latest_event_type : Tables Value → String → Option String
  latest_event_type t key = elim (latest_event t.events key) [
    | none ↦ none
    | some row ↦ some row.event.event_type
  ]

  -- An entry into CI observation or review, which begins a new cohort of reviews.
  abbrev pub opens_cohort : EventRow Value → Bool
  opens_cohort row =
      (str_eq row.next_state "WAITING_CI" || str_eq row.next_state "REVIEWING")
      && not (option_eq str_eq row.previous_state (some row.next_state))

  -- `COALESCE((SELECT MAX(state_revision) …), 0)`
  abbrev pub cohort_start : List (EventRow Value) → String → ℕ
  cohort_start [] key = 0
  cohort_start (row ∷ rows) key =
      let rest = cohort_start rows key in
      if str_eq row.case_key key && opens_cohort row && ltb rest row.state_revision
      then row.state_revision
      else rest

  -- `JOIN events e ON e.event_id = r.event_id AND e.case_key = r.case_key`, after this revision.
  abbrev pub joins_after : ℕ → RunRow Value → List (EventRow Value) → Bool
  joins_after start run [] = false
  joins_after start run (row ∷ rows) =
      (str_eq row.event.event_id run.event_id
        && str_eq row.case_key run.case_key
        && ltb start row.state_revision)
      || joins_after start run rows

  -- `ORDER BY r.accepted_at, r.run_id`
  abbrev pub run_before : RunRow Value → RunRow Value → Bool
  run_before a b =
      ltb a.accepted_at b.accepted_at
      || (a.accepted_at == b.accepted_at && bytes_before (bytes a.run.run_id) (bytes b.run.run_id))

  abbrev pub insert_ordered : RunRow Value → List (RunRow Value) → List (RunRow Value)
  insert_ordered row [] = row ∷ []
  insert_ordered row (other ∷ rows) =
      if run_before row other then row ∷ other ∷ rows else other ∷ insert_ordered row rows

  abbrev pub order_runs : List (RunRow Value) → List (RunRow Value)
  order_runs [] = []
  order_runs (row ∷ rows) = insert_ordered row (order_runs rows)

  unfoldable pub current_review_runs_for_case : Tables Value → String → List (RunRow Value)
  current_review_runs_for_case t key = order_runs (
      filter
        (λ run.
          str_eq run.case_key key
          && (str_eq run.run.role "reviewer-general" || str_eq run.run.role "reviewer-secperf")
          && joins_after (cohort_start t.events key) run t.events)
        t.runs)
