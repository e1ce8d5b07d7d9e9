-- ===== src/Engine/Ingest/Reviewers.antt =====
-- crates/pip-controller/src/results.rs: of whom a review is taken.
use text.Mathlib.TextEquality.{eq_iff}
use mathlib.Core.List.{Memᴰ}
use agent_p1p.Prelude.{
  ◌≡◌, sym, ◌∙◌, ap, subst, arith, String, Bool, true, not, ◌||◌, Bool-cases, Option, none, some,
  List, [], ◌∷◌, ok, fail_if, ok_or, ok_or-eq-ok, map_err, >>=-eq-ok, >>-eq-ok, some_injective,
  option_eq, inl, inr, if-true, if-false,
}
use agent_p1p.Prelude.Text.{concat}
use agent_p1p.Core.Revision.{CasePolicy}
use agent_p1p.Contracts.{
  WorkerRole, same_role_iff, ReviewMode, required, WorkerBinding, ReviewResult, of_review,
}
use agent_p1p.Contracts.Validation.Accepted.{role_fits, accepted_has-IsHeader}
use agent_p1p.Contracts.Binding.{validate_binding_iff}
use agent_p1p.Controller.Scheduling.{RolePolicy, WorkflowPolicy, is_reviewer, is_required}
use agent_p1p.Controller.Scheduling.Policy.{find_binding, reviewers, reviewer, is_named}
use agent_p1p.Controller.Reviews.{IngestError, invalid_binding}
use agent_p1p.Controller.Results.Commands.{same_mode, validate_review_policy_binding}
use agent_p1p.Store.{Handle}
use agent_p1p.Engine.Ingest.{World, IngestResult, ingest_worker_result}
use agent_p1p.Engine.Ingest.Plans.{map_err-eq-ok}
use agent_p1p.Engine.Ingest.Outcomes.{ingest-Performed}

find_binding_lem :
    (chosen : RolePolicy → Bool) (roles : List RolePolicy) (binding : RolePolicy)
    → find_binding chosen roles ≡ some binding
    → Memᴰ binding roles × (chosen binding ≡ true)
find_binding_lem chosen [] binding h = cc
find_binding_lem chosen (role ∷ roles) binding h = elim (Bool-cases (chosen role)) [
  | inl first ↦
      let e = some_injective (sym (if-true (some role) (find_binding chosen roles) first) ∙ h) in
      (Memᴰ.head (sym e), subst (λ b. chosen b ≡ true) e first)
  | inr other ↦
      let (there, is) =
        find_binding_lem chosen roles binding
          (sym (if-false (some role) (find_binding chosen roles) other) ∙ h) in
      (Memᴰ.tail there, is)
]

named_lem : (id : String) (name : Option String) → is_named id name ≡ true → name ≡ some id
named_lem id none h = cc
named_lem id (some name) h = ap some ((eq_iff name id).0 h)

required_lem : (mode : Option ReviewMode) → is_required mode ≡ true → mode ≡ some required
required_lem mode h = ground arith

fits_reviewer :
    {Value : Type 0} (r : ReviewResult Value) (role : WorkerRole)
    → role_fits (of_review r) role ≡ true
    → is_reviewer role ≡ true
fits_reviewer r role h = ground arith

same_mode_lem :
    (mode mode' : Option ReviewMode)
    → option_eq same_mode mode mode' ≡ true
    → mode' ≡ some required
    → mode ≡ some required
same_mode_lem mode mode' h e = ground arith

none_fails :
    (a b c : Bool) (e : IngestError)
    → fail_if (not a || not b || not c) e ≡ ok tt
    → (a ≡ true) × (b ≡ true) × (c ≡ true)
none_fails a b c e h = ground arith

holds : (a : Bool) (e : IngestError) → fail_if (not a) e ≡ ok tt → a ≡ true
holds a e h = ground arith

-- The reviewer of the policy with this id has this role and model, and its review is required.
abbrev pub IsConfigured : WorkflowPolicy → String → WorkerRole → String → RolePolicy → Type 0
IsConfigured policy id role model configured =
    Memᴰ configured (reviewers policy)
    × (configured.reviewer_id ≡ some id)
    × (configured.role ≡ role)
    × (configured.review_mode ≡ some required)
    × (concat (configured.provider ∷ "/" ∷ configured.model ∷ []) ≡ model)

policy_binding_lem :
    (policy : WorkflowPolicy) (binding : WorkerBinding) (id : String)
    → is_reviewer binding.role ≡ true
    → binding.reviewer_id ≡ some id
    → validate_review_policy_binding policy binding ≡ ok tt
    → (configured : RolePolicy) × IsConfigured policy id binding.role binding.requested_model
        configured
unfolding validate_review_policy_binding
policy_binding_lem policy binding id reviews named h =
    let asked = sym (if-false _ _ (ap not reviews)) ∙ h in
    let (is, h1) =
      >>-eq-ok (fail_if (not (is_required binding.review_mode)) invalid_binding) _ asked in
    let (id', known, h2) = >>=-eq-ok (ok_or binding.reviewer_id invalid_binding) _ h1 in
    let (configured, found, h3) =
      >>=-eq-ok (map_err (λ _. invalid_binding) (reviewer policy id')) _ h2 in
    let e = some_injective (sym (ok_or-eq-ok binding.reviewer_id invalid_binding known) ∙ named) in
    let (there, is_named) =
      find_binding_lem _ (reviewers policy) configured
        (ok_or-eq-ok _ _ (map_err-eq-ok _ (reviewer policy id') found)) in
    let (role, mode, model) = none_fails _ _ _ invalid_binding h3 in
    (
      configured,
      (
        there,
        named_lem id' configured.reviewer_id is_named ∙ ap some e,
        (same_role_iff configured.role binding.role).0 role,
        same_mode_lem configured.review_mode binding.review_mode mode
            (required_lem binding.review_mode (holds _ invalid_binding is)),
        (eq_iff _ binding.requested_model).0 model,
      ),
    )

-- Under a workflow policy, a review that is ingested names a reviewer of the policy by its id, in the
-- role that the policy gives it; its review is required; and the model that the review was asked of
-- is the provider and the model of that reviewer.
pub ingested_review-IsConfigured :
    {Value : Type 0} (world : World Value) (handle handle' : Handle Value)
    (case_policy : CasePolicy) (policy : WorkflowPolicy) (binding : WorkerBinding)
    (r : ReviewResult Value) (answer : IngestResult)
    → ingest_worker_result world handle case_policy (some policy) binding (of_review r)
      ≡ (handle', ok answer)
    → (configured : RolePolicy) × IsConfigured policy r.reviewer_id r.common.role
        r.common.requested_model configured
ingested_review-IsConfigured world handle handle' case_policy policy binding r answer h =
    let (_, (_, checked, _), _) =
      ingest-Performed world handle handle' case_policy (some policy) binding (of_review r) answer
        h in
    let (valid, bound) =
      (validate_binding_iff world.json.is_object (of_review r) binding).0 checked.bound in
    let (_, _, role, named, _, model, _, _, _) = bound in
    let (_, fits) = accepted_has-IsHeader world.json.is_object (of_review r) valid in
    let (configured, (there, id_is, role_is, mode_is, model_is)) =
      policy_binding_lem policy binding r.reviewer_id
        (subst (λ at. is_reviewer at ≡ true) role (fits_reviewer r r.common.role fits)) (sym named)
        checked.allowed in
    (configured, (there, id_is, role_is ∙ sym role, mode_is, model_is ∙ sym model))
