-- ===== src/Contracts/Filling.antt =====
-- crates/pip-contracts/src/lib.rs: `fill_binding` and `decode`, over the values and the objects of
-- `serde_json`.
mod Owned
pub mod Precedence
mod Tests
use text.Mathlib.Text.{◌==◌ as str_eq}
use agent_p1p.Prelude.{
  ◌≡◌, ℕ, String, Bool, true, false, ◌&&◌, Option, none, some, List, [], ◌∷◌, ◌++◌, leb, ltb,
  if◌then◌else◌, Result, ok, err, ◌>>=◌, ok_or, map_err,
}
use agent_p1p.Contracts.{
  contract_version, ContractError, role_mismatch, WorkerRole, planner, builder, reviewer_general,
  reviewer_secperf, final_reviewer, CaseIdentity, WorkerBinding, PlannerResult, BuilderResult,
  ReviewResult, FinalResult, WorkerResult, of_planner, of_builder, of_review, of_final,
}

abbrev pub Fields : Type 0 → Type 0
Fields Value = List (String × Value)

-- What `serde_json` does with values: objects, numbers and texts, and what the derived decoders read.
pub record Json (Value : Type 0) : Type 1 where
  pub DecodeError : Type 0
  pub null : Value
  pub Object : Type 0
  pub empty : Object
  pub get : String → Object → Option Value
  pub insert : String → Value → Object → Object
  pub as_object : Value → Option Object
  pub object : Object → Value
  pub as_u64 : Value → Option ℕ
  pub number : ℕ → Value
  pub text : String → Value
  pub read_role : Value → Result WorkerRole DecodeError
  pub read_planner : Value → Result (PlannerResult Value) DecodeError
  pub read_builder : Value → Result (BuilderResult Value) DecodeError
  pub read_review : Value → Result (ReviewResult Value) DecodeError
  pub read_final : Value → Result (FinalResult Value) DecodeError

-- `Map::insert` is read back at its key, and leaves the others.
pub record IsLawful {Value : Type 0} (json : Json Value) : Type 0 where
  pub get-insert :
      (key j : String) (v : Value) (fields : json.Object)
      → json.get j (json.insert key v fields) ≡ (if str_eq key j then some v else json.get j fields)

pub record BindingFill (Value : Type 0) : Type 0 where
  pub binding : WorkerBinding
  pub task_body : Value
  pub run_times : Option (ℕ × ℕ)
  pub now : ℕ
  pub reviewed_head_from_binding : Bool

-- The names of `rename_all = "kebab-case"`
abbrev pub kebab_name : WorkerRole → String
kebab_name planner = "planner"
kebab_name builder = "builder"
kebab_name reviewer_general = "reviewer-general"
kebab_name reviewer_secperf = "reviewer-secperf"
kebab_name final_reviewer = "final-reviewer"

abbrev pub is_review_role : WorkerRole → Bool
is_review_role reviewer_general = true
is_review_role reviewer_secperf = true
is_review_role final_reviewer = true
is_review_role _ = false

abbrev pub round_keys : WorkerRole → List String
round_keys builder = "build_round" ∷ []
round_keys reviewer_general = "review_round" ∷ []
round_keys reviewer_secperf = "review_round" ∷ []
round_keys final_reviewer = "final_review_round" ∷ []
round_keys planner = []

module _ {Value : Type 0} where
  -- `if let Some(..)` around an insertion
  abbrev pub present_field : {A : Type 0} → String → (A → Value) → Option A → Fields Value
  present_field key make none = []
  present_field key make (some a) = (key, make a) ∷ []

  module _ (json : Json Value) where
    abbrev pub insert_all : Fields Value → json.Object → json.Object
    insert_all [] fields = fields
    insert_all ((k, v) ∷ more) fields = insert_all more (json.insert k v fields)

    -- `entry(key).or_insert_with(..)`
    abbrev pub or_insert : String → Value → json.Object → json.Object
    or_insert key value fields = elim (json.get key fields) [
      | some _ ↦ fields
      | none ↦ json.insert key value fields
    ]

  module _ (json : Json Value) (fill : BindingFill Value) where
    abbrev pub case_value : CaseIdentity → Value
    case_value case = json.object (
        insert_all json
          (("repository_id", json.number case.repository_id)
            ∷ ("issue_number", json.number case.issue_number)
            ∷ ("workflow_version", json.number case.workflow_version)
            ∷ [])
          json.empty)

    -- What every role is given.
    abbrev pub header_fields : WorkerBinding → Fields Value
    header_fields binding =
        ("contract_version", json.number contract_version)
        ∷ ("workflow_version", json.number binding.case.workflow_version)
        ∷ ("case", case_value binding.case)
        ∷ ("task_id", json.text binding.task_id)
        ∷ ("role", json.text (kebab_name binding.role))
        ∷ ("requested_model", json.text binding.requested_model)
        ∷ ("actual_model", json.text binding.requested_model)
        ∷ ("skills_repository_commit", json.text binding.skills_repository_commit)
        ∷ ("plan_version", json.number binding.plan_version)
        ∷ []

    -- What a review is given.
    abbrev pub reviewed_fields : WorkerBinding → Fields Value
    reviewed_fields binding =
        if is_review_role binding.role
        then present_field "pr_number" json.number binding.pr_number
          ++ (if fill.reviewed_head_from_binding
              then present_field "reviewed_head_sha" json.text binding.expected_head_sha
              else [])
        else []

    -- `fill.task_body.get(key).and_then(Value::as_u64)`
    abbrev pub round_of : String → Option ℕ
    round_of key = elim (json.as_object fill.task_body) [
      | none ↦ none
      | some body ↦ elim (json.get key body) [ none ↦ none | some value ↦ json.as_u64 value ]
    ]

    abbrev pub round_fields : List String → Fields Value
    round_fields [] = []
    round_fields (key ∷ keys) = present_field key json.number (round_of key) ++ round_fields keys

    -- `and_then(Value::as_u64).filter(0 < t <= bound).unwrap_or(bound)`
    abbrev pub time_at_most : ℕ → Option Value → ℕ
    time_at_most bound none = bound
    time_at_most bound (some value) = elim (json.as_u64 value) [
      | none ↦ bound
      | some time ↦ if ltb 0 time && leb time bound then time else bound
    ]

    unfoldable pub times : json.Object → ℕ × ℕ
    times fields = elim fill.run_times [
      | some measured ↦ measured
      | none ↦
          let completed = time_at_most fill.now (json.get "completed_at_unix" fields) in
          (time_at_most completed (json.get "started_at_unix" fields), completed)
    ]

    abbrev pub time_fields : ℕ × ℕ → Fields Value
    time_fields (started, completed) =
        ("started_at_unix", json.number started) ∷ ("completed_at_unix", json.number completed) ∷ []

    -- The body of `fill_binding`: the insertions in their order.
    unfoldable pub fill_fields : json.Object → json.Object
    fill_fields fields =
        let headed = insert_all json (header_fields fill.binding) fields in
        let evident = or_insert json "evidence" (json.object json.empty) headed in
        let placed = insert_all json (reviewed_fields fill.binding) evident in
        let named =
          insert_all json (present_field "reviewer_id" json.text fill.binding.reviewer_id) placed in
        let counted = insert_all json (round_fields (round_keys fill.binding.role)) named in
        insert_all json (time_fields (times counted)) counted

    unfoldable pub fill_binding : Value → Result Value ContractError
    fill_binding value = do
      fields ← ok_or (json.as_object value) role_mismatch
      ok (json.object (fill_fields fields))

  module _ (json : Json Value) where
    abbrev pub or_null : Option Value → Value
    or_null none = json.null
    or_null (some value) = value

    -- `value.get("role").cloned().unwrap_or(Value::Null)`
    abbrev pub role_value : Value → Value
    role_value value = elim (json.as_object value) [
      | none ↦ json.null
      | some fields ↦ or_null (json.get "role" fields)
    ]

    abbrev pub decode_as : WorkerRole → Value → Result (WorkerResult Value) json.DecodeError
    decode_as planner value = do r ← json.read_planner value; ok (of_planner r)
    decode_as builder value = do r ← json.read_builder value; ok (of_builder r)
    decode_as reviewer_general value = do r ← json.read_review value; ok (of_review r)
    decode_as reviewer_secperf value = do r ← json.read_review value; ok (of_review r)
    decode_as final_reviewer value = do r ← json.read_final value; ok (of_final r)

    unfoldable pub decode : Value → Result (WorkerResult Value) json.DecodeError
    decode value = do role ← json.read_role (role_value value); decode_as role value
