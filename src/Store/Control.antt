-- ===== src/Store/Control.antt =====
-- crates/pip-store/src/control.rs: the rounds that humans granted, the event that parked a case, and
-- the check of a resume. What SQLite reads of a JSON payload is a parameter.
use text.Mathlib.Text.{◌==◌ as str_eq}
use agent_p1p.Prelude.{
  ℕ, ◌+◌, String, Bool, not, ◌&&◌, ◌||◌, Option, none, some, List, [], ◌∷◌, ltb, leb, ◌==◌,
  if◌then◌else◌, any, option_eq, ◌≡◌, refl, sym, subst, ◌∙◌, true, Bool-cases, inl, inr, if-true,
  if-false, some_injective, is_none_or, ok, err, ◌>>=◌, ◌>>◌, fail_if, ok_or,
}
use agent_p1p.Core.Domain.{u32_max}
use agent_p1p.Controller.Ledger.{StoredCase}
use agent_p1p.Store.{
  invalid_input, invalid_integer, missing_case, Stored, EventRow, Tables, sql_u64,
}
use agent_p1p.Store.Statements.{query_case}
use agent_p1p.Store.History.{later}
use agent_p1p.Store.Checks.{Transition}

abbrev pub parked_states : List String
parked_states = "ESCALATED" ∷ "BLOCKED" ∷ "WAITING_HUMAN" ∷ []

-- A row of `policies`, by its key.
pub record PolicyRow : Type 0 where
  pub repository_id : ℕ
  pub revision : ℕ

pub record ParkingEvent (Value : Type 0) : Type 0 where
  pub event_type : String
  pub previous_state : String
  pub state_revision : ℕ
  pub observed_at : ℕ
  pub payload : Value

-- `COALESCE(previous_state, '')`
abbrev pub coalesce : Option String → String
coalesce none = ""
coalesce (some text) = text

module _ {Value : Type 0} where
  abbrev pub is_resume_of : String → EventRow Value → Bool
  is_resume_of key row = str_eq row.case_key key && str_eq row.event.event_type "HUMAN_RESUMED"

  -- `SUM(json_extract(payload_json, '$.granted_rounds'))`, in which NULL counts nothing.
  abbrev pub sum_granted : (Value → Option ℕ) → String → List (EventRow Value) → ℕ
  sum_granted granted_rounds key [] = 0
  sum_granted granted_rounds key (row ∷ rows) =
      let rest = sum_granted granted_rounds key rows in
      if is_resume_of key row
      then elim (granted_rounds row.event.payload) [ some n ↦ n + rest | none ↦ rest ]
      else rest

  unfoldable pub granted_remediation_rounds : (Value → Option ℕ) → Tables Value → String → Stored ℕ
  granted_remediation_rounds granted_rounds t key =
      let granted = sum_granted granted_rounds key t.events in
      if leb granted u32_max then ok granted else err invalid_integer

  -- `as_u64` of `policy_revision` and of `granted_rounds` are parameters.
  unfoldable pub validate_resume :
      (Value → Option ℕ)
      → (Value → Option ℕ)
      → List PolicyRow
      → StoredCase
      → Transition Value
      → Stored ℕ
  validate_resume policy_revision granted_rounds policies current input = do
    revision ← ok_or (policy_revision input.event.payload) (invalid_input "invalid human resume")
    fail_if
        (not (any (str_eq current.state) parked_states)
          || ltb revision current.policy_revision
          || is_none_or (ltb 10) (granted_rounds input.event.payload))
        (invalid_input "invalid human resume")
    sql_u64 current.repository_id
    sql_u64 revision
    fail_if
        (not (
          any (λ row. row.repository_id == current.repository_id && row.revision == revision)
            policies))
        (invalid_input "invalid human resume")
    ok revision

  -- `next_state = ?2 AND previous_state IS NOT next_state`
  abbrev pub parks : String → String → EventRow Value → Bool
  parks key state row =
      str_eq row.case_key key
      && str_eq row.next_state state
      && not (option_eq str_eq row.previous_state (some row.next_state))

  -- `ORDER BY state_revision DESC LIMIT 1`
  abbrev pub latest_parking : String → String → List (EventRow Value) → Option (EventRow Value)
  latest_parking key state [] = none
  latest_parking key state (row ∷ rows) =
      let rest = latest_parking key state rows in
      if parks key state row then later row rest else rest

  abbrev pub parked_by : EventRow Value → ParkingEvent Value
  parked_by row = record {
    event_type = row.event.event_type;
    previous_state = coalesce row.previous_state;
    state_revision = row.state_revision;
    observed_at = row.observed_at;
    payload = row.event.payload;
  }

  abbrev pub event_of : Option (EventRow Value) → Option (ParkingEvent Value)
  event_of none = none
  event_of (some row) = some (parked_by row)

  unfoldable pub parking_event : Tables Value → String → Stored (Option (ParkingEvent Value))
  parking_event t key = do
    case ← ok_or (query_case t.cases key) (missing_case key)
    if any (str_eq case.state) parked_states
        then ok (event_of (latest_parking key case.state t.events))
        else ok none

  later-parks :
      (key state : String) (row best : EventRow Value) (found : Option (EventRow Value))
      → parks key state row ≡ true
      → ((b : EventRow Value) → found ≡ some b → parks key state b ≡ true)
      → later row found ≡ some best
      → parks key state best ≡ true
  later-parks key state row best none h hs e =
      subst (λ r. parks key state r ≡ true) (some_injective e) h
  later-parks key state row best (some b) h hs e =
      elim (Bool-cases (ltb row.state_revision b.state_revision)) [
        | inl after ↦
            subst (λ r. parks key state r ≡ true) (some_injective (sym (if-true _ _ after) ∙ e))
              (hs b refl)
        | inr before ↦
            subst (λ r. parks key state r ≡ true) (some_injective (sym (if-false _ _ before) ∙ e)) h
      ]

  -- The event that is found is one that moved the case into this state, from another.
  latest_parking-parks :
      (key state : String) (rows : List (EventRow Value)) (row : EventRow Value)
      → latest_parking key state rows ≡ some row
      → parks key state row ≡ true
  latest_parking-parks key state [] row h = cc
  latest_parking-parks key state (r ∷ rows) row h =
      let rest = latest_parking-parks key state rows in
      elim (Bool-cases (parks key state r)) [
        | inl this ↦
            later-parks key state r row (latest_parking key state rows) this rest
              (sym (if-true _ _ this) ∙ h)
        | inr other ↦ rest row (sym (if-false _ _ other) ∙ h)
      ]
