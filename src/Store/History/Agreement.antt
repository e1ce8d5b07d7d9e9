-- ===== src/Store/History/Agreement.antt =====
-- crates/pip-store/src/lib.rs: the projection of a case agrees with its events.
use text.Mathlib.Text.{◌==◌ as str_eq}
use text.Mathlib.TextEquality.{eq_iff}
use agent_p1p.Prelude.{
  ℕ, ◌+◌, ◌≤◌, ◌≡◌, refl, ◌∙◌, subst, ap, arith, String, false, Option, none, some, List, [], ◌∷◌,
  ok, Bool-cases, inl, inr,
}
use agent_p1p.Controller.Ledger.{StoredCase}
use agent_p1p.Store.{FaultPoint, CaseRow, EventRow, Tables}
use agent_p1p.Store.Statements.{query_case, is_case_at, update}
use agent_p1p.Store.Checks.{Transition, Codec, Guards}
use agent_p1p.Store.Step.{event_row, moved, apply_one}
use agent_p1p.Store.Step.Facts.{IsStored, apply_one-IsStored}
use agent_p1p.Store.History.{latest, join_case}

-- The case as the transition moves it.
abbrev pub moved_case : {Value : Type 0} → Transition Value → ℕ → ℕ → StoredCase → StoredCase
moved_case input next policy case = record case {
  state = input.next_state;
  state_revision = next;
  policy_revision = policy;
  remediation_round = input.remediation_round;
  plan_version = input.plan_version;
  pr_number = input.pr_number;
  head_sha = input.head_sha;
}

module _ {Value : Type 0} where
  pub query_case-update_same :
      (input : Transition Value) (next policy : ℕ) (current : StoredCase) (rows : List CaseRow)
      → query_case rows input.case_key ≡ some current
      → current.state_revision ≡ input.expected_revision
      → query_case
          (update
            (is_case_at input.case_key input.expected_revision)
            (moved input next policy)
            rows)
          input.case_key
        ≡ some (moved_case input next policy current)
  query_case-update_same input next policy current [] found at = cc
  query_case-update_same input next policy current (row ∷ rows) found at =
      ground (arith, query_case-update_same input next policy current rows)

  query_case-update_other :
      (input : Transition Value) (next policy : ℕ) (key : String) (rows : List CaseRow)
      → str_eq input.case_key key ≡ false
      → query_case
          (update
            (is_case_at input.case_key input.expected_revision)
            (moved input next policy)
            rows)
          key
        ≡ query_case rows key
  query_case-update_other input next policy key [] other = refl
  query_case-update_other input next policy key (row ∷ rows) other = ground (
    arith,
    query_case-update_other input next policy key rows other,
    eq_iff row.case.case_key key,
    eq_iff row.case.case_key input.case_key,
    eq_iff input.case_key key,
  )

  latest-cons :
      (key : String) (row best : EventRow Value) (rows : List (EventRow Value))
      → row.case_key ≡ key
      → latest key none rows ≡ some best
      → best.state_revision ≤ row.state_revision
      → latest key none (row ∷ rows) ≡ some row
  latest-cons key row best rows same found h =
      let (_, true_of) = eq_iff row.case_key key in rw (true_of same, found) (ground arith)

  pub latest-cons_other :
      (key : String) (row : EventRow Value) (rows : List (EventRow Value))
      → str_eq row.case_key key ≡ false
      → latest key none (row ∷ rows) ≡ latest key none rows
  latest-cons_other key row rows other = ground arith

  -- What is found of a case has its key, and is the state after its latest event.
  latest_lem :
      (case projected : StoredCase) (row : Option (EventRow Value))
      → join_case (some case) row ≡ some projected
      → (best : EventRow Value) × (row ≡ some best)
        × (best.state_revision ≡ projected.state_revision)
  latest_lem case projected none h = cc
  latest_lem case projected (some best) h = (best, refl, cc)

  -- The case that each key has is the one that its events give, and no event is of no case.
  abbrev pub AgreesAt : Tables Value → String → Type 0
  AgreesAt t key =
      (join_case (query_case t.cases key) (latest key none t.events) ≡ query_case t.cases key)
      × (query_case t.cases key ≡ none → latest key none t.events ≡ none)

  abbrev pub Agrees : Tables Value → Type 0
  Agrees t = (key : String) → AgreesAt t key

  module _ (codec : Codec Value) (guards : Guards Value) where
    agree_same :
        (t t' : Tables Value) (input : Transition Value)
        → Agrees t
        → (stored : IsStored codec guards t t' input) → AgreesAt t' input.case_key
    agree_same t t' input agrees stored =
        let (best, is_best, at) =
          latest_lem stored.current stored.current (latest input.case_key none t.events) (
            subst (λ c. join_case c (latest input.case_key none t.events) ≡ c) stored.found
              ((agrees input.case_key).0)) in
        let shown =
          ap (λ rows. query_case rows input.case_key) stored.cases
          ∙ query_case-update_same input (input.expected_revision + 1) stored.policy stored.current
              t.cases stored.found stored.revision in
        let last =
          ap (latest input.case_key none) stored.events
          ∙ latest-cons input.case_key
              (event_row stored.current input (codec.hash_transition input)
                (input.expected_revision + 1) stored.policy)
              best t.events refl is_best (rw (at, stored.revision) (omega arith)) in
        (rw (shown, last) refl, rw shown (λ h. cc))

    agree_other :
        (t t' : Tables Value) (input : Transition Value) (key : String)
        → str_eq input.case_key key ≡ false
        → IsStored codec guards t t' input
        → AgreesAt t key
        → AgreesAt t' key
    agree_other t t' input key other stored agrees =
        let shown =
          ap (λ rows. query_case rows key) stored.cases
          ∙ query_case-update_other input (input.expected_revision + 1) stored.policy key t.cases
              other in
        let last =
          ap (latest key none) stored.events
          ∙ latest-cons_other key
              (event_row stored.current input (codec.hash_transition input)
                (input.expected_revision + 1) stored.policy)
              t.events other in
        rw (shown, last) agrees

    pub apply_one-Agrees :
        (fault : Option FaultPoint) (t t' : Tables Value) (input : Transition Value)
        → apply_one codec guards fault t input ≡ ok t'
        → Agrees t
        → Agrees t'
    apply_one-Agrees fault t t' input h agrees key =
        let stored = apply_one-IsStored codec guards fault t t' input h in
        elim (Bool-cases (str_eq input.case_key key)) [
          | inl same ↦
              subst (AgreesAt t') ((eq_iff input.case_key key).0 same)
                (agree_same t t' input agrees stored)
          | inr other ↦ agree_other t t' input key other stored (agrees key)
        ]
