-- ===== src/Contracts/Filling/Tests.antt =====
-- A worker's object that is filled for a review.
use text.Mathlib.Text.{◌==◌ as str_eq}
use text.Mathlib.TextEquality.{eq_iff}
use agent_p1p.Prelude.{
  ℕ, ◌≤◌, ◌≡◌, ◌⊎◌, refl, arith, String, false, if◌then◌else◌, Option, none, some, [], ◌∷◌, ok, err,
}
use agent_p1p.Contracts.{role_mismatch, planner, reviewer_general, required, WorkerBinding}
use agent_p1p.Contracts.Filling.{
  Fields, Json, IsLawful, BindingFill, times, fill_fields, fill_binding, decode,
}
use agent_p1p.Contracts.Filling.Precedence.{
  IsControlled, filled-IsControlled, filled_times_are_ordered,
}

mutual
  data Datum : Type 0 where
    num : ℕ → Datum
    txt : String → Datum
    obj : Members → Datum

  data Members : Type 0 where
    end : Members
    member : String → Datum → Members → Members

abbrev members : Members → Fields Datum
members end = []
members (member key value rest) = (key, value) ∷ members rest

abbrev collected : Fields Datum → Members
collected [] = end
collected ((key, value) ∷ rest) = member key value (collected rest)

abbrev get : String → Fields Datum → Option Datum
get key [] = none
get key ((k, v) ∷ fields) = if str_eq k key then some v else get key fields

abbrev insert : String → Datum → Fields Datum → Fields Datum
insert key value [] = (key, value) ∷ []
insert key value ((k, v) ∷ fields) =
    if str_eq k key then (key, value) ∷ fields else (k, v) ∷ insert key value fields

get-insert :
    (key j : String) (v : Datum) (fields : Fields Datum)
    → get j (insert key v fields) ≡ (if str_eq key j then some v else get j fields)
get-insert key j v [] = refl
get-insert key j v ((k, w) ∷ fields) =
    ground (arith, eq_iff k key, eq_iff key j, eq_iff k j, get-insert key j v fields)

abbrev fields_of : Datum → Option (Fields Datum)
fields_of (obj ms) = some (members ms)
fields_of _ = none

abbrev number_of : Datum → Option ℕ
number_of (num n) = some n
number_of _ = none

abbrev json : Json Datum
json = record {
  DecodeError = Unit {0};
  null = obj end;
  Object = Fields Datum;
  empty = [];
  get = get;
  insert = insert;
  as_object = fields_of;
  object = λ fields. obj (collected fields);
  as_u64 = number_of;
  number = num;
  text = txt;
  read_role = λ _. ok planner;
  read_planner = λ _. err tt;
  read_builder = λ _. err tt;
  read_review = λ _. err tt;
  read_final = λ _. err tt;
}

json-IsLawful : IsLawful json
json-IsLawful = record { get-insert = get-insert }

abbrev binding : WorkerBinding
binding = record {
  case = record { repository_id = 1; issue_number = 7; workflow_version = 2 };
  task_id = "t";
  role = reviewer_general;
  reviewer_id = some "general";
  review_mode = some required;
  requested_model = "m";
  skills_repository_commit = "c";
  plan_version = 1;
  pr_number = some 12;
  expected_head_sha = some "h";
}

abbrev fill : BindingFill Datum
fill = record {
  binding = binding;
  task_body = obj (member "review_round" (num 3) end);
  run_times = none;
  now = 30;
  reviewed_head_from_binding = false;
}

-- The worker claims another task, attests a head and completes in the future.
abbrev reported : Fields Datum
reported =
    ("task_id", txt "other")
    ∷ ("outcome", txt "approve")
    ∷ ("reviewed_head_sha", txt "seen")
    ∷ ("started_at_unix", num 20)
    ∷ ("completed_at_unix", num 50)
    ∷ []

fill_tests :
    (get "task_id" (fill_fields json fill reported) ≡ some (txt "t"))
    × (get "reviewed_head_sha" (fill_fields json fill reported) ≡ some (txt "seen"))
    × (get "review_round" (fill_fields json fill reported) ≡ some (num 3))
    × (get "started_at_unix" (fill_fields json fill reported) ≡ some (num 20))
    × (get "completed_at_unix" (fill_fields json fill reported) ≡ some (num 30))
    × (fill_binding json fill (num 1) ≡ err role_mismatch)
unfolding fill_fields times fill_binding
fill_tests = (refl, refl, refl, refl, refl, refl)

decode_test : decode json (obj end) ≡ err tt
unfolding decode
decode_test = refl

filled-IsControlled_example :
    IsControlled json fill reported (fill_fields json fill reported)
    × (get "outcome" (fill_fields json fill reported) ≡ get "outcome" reported)
filled-IsControlled_example = filled-IsControlled json json-IsLawful fill reported "outcome" refl

filled_times_are_ordered_example :
    (started : ℕ) × (completed : ℕ) × (get "started_at_unix" (fill_fields json fill reported)
      ≡ some (num started))
    × (get "completed_at_unix" (fill_fields json fill reported) ≡ some (num completed))
    × ((fill.run_times ≡ some (started, completed))
        ⊎ ((fill.run_times ≡ none) × (started ≤ completed) × (completed ≤ fill.now)))
filled_times_are_ordered_example = filled_times_are_ordered json json-IsLawful fill reported
