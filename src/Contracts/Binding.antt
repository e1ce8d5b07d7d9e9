-- ===== src/Contracts/Binding.antt =====
-- crates/pip-contracts/src/lib.rs: `WorkerResult::validate_binding`.
use text.Mathlib.Text.{◌==◌ as str_eq}
use text.Mathlib.TextEquality.{eq_iff}
use agent_p1p.Prelude.{
  ℕ, String, Bool, true, false, not, ◌&&◌, ◌||◌, ◌≡◌, ◌↔◌, ◌⊎◌, inl, refl, ==_iff, arith, Option,
  none, some, ◌==◌, if◌then◌else◌, is_some, is_none_or, option_eq, same_bool, ok, err, ◌>>◌,
}
use agent_p1p.Contracts.{
  CommonResult, CaseIdentity, same_identity, same_role, same_role_iff, WorkerBinding, WorkerResult,
  of_planner, of_builder, of_review, of_final, binding_mismatch,
}
use agent_p1p.Contracts.Validation.{Checked, common_of, validate}

module _ {Value : Type 0} where
  -- What a result says of the plan, the pull request, the head and the reviewer.
  abbrev pub outputs_of : WorkerResult Value → ℕ × Option ℕ × Option String × Option String
  outputs_of (of_planner r) = (r.plan_version, none, none, none)
  outputs_of (of_builder r) = (r.plan_version, none, r.head_sha, none)
  outputs_of (of_review r) =
      (r.plan_version, some r.pr_number, some r.reviewed_head_sha, some r.reviewer_id)
  outputs_of (of_final r) = (r.plan_version, some r.pr_number, some r.reviewed_head_sha, none)

  abbrev pub is_reviewed_output : WorkerResult Value → Bool
  is_reviewed_output (of_review r) = true
  is_reviewed_output (of_final r) = true
  is_reviewed_output _ = false

  -- The comparison of a result with the binding of its task.
  unfoldable pub matches : WorkerResult Value → WorkerBinding → Bool
  matches result binding =
      let common = common_of result in
      let (plan_version, pr_number, head_sha, reviewer_id) = outputs_of result in
      same_identity common.case binding.case
      && str_eq common.task_id binding.task_id
      && same_role common.role binding.role
      && option_eq str_eq reviewer_id binding.reviewer_id
      && same_bool (is_some binding.review_mode) (is_some reviewer_id)
      && str_eq common.requested_model binding.requested_model
      && str_eq common.skills_repository_commit binding.skills_repository_commit
      && plan_version == binding.plan_version
      && (not (is_reviewed_output result)
          || (is_none_or (λ expected. option_eq ◌==◌ pr_number (some expected)) binding.pr_number
              && is_none_or (λ expected. option_eq str_eq head_sha (some expected))
                  binding.expected_head_sha))

  unfoldable pub validate_binding : (Value → Bool) → WorkerResult Value → WorkerBinding → Checked
  validate_binding is_object result binding = do
    validate is_object result
    if matches result binding then ok tt else err binding_mismatch

same_identity_iff : (a b : CaseIdentity) → (same_identity a b ≡ true) ↔ (a ≡ b)
same_identity_iff a b = (λ h. ground arith, λ h. ground arith)

infixl 3 ◌and_iff◌
◌and_iff◌ :
    {a b : Bool} {P Q : Type 0} → (a ≡ true) ↔ P → (b ≡ true) ↔ Q → ((a && b) ≡ true) ↔ (P × Q)
◌and_iff◌ {a} {b} p q = (λ h. ground arith, λ h. ground arith)

same_bool_iff : (a b : Bool) → (same_bool a b ≡ true) ↔ (a ≡ b)
same_bool_iff a b = (λ h. ground arith, λ h. ground arith)

same_text_iff : (a b : Option String) → (option_eq str_eq a b ≡ true) ↔ (a ≡ b)
same_text_iff none none = (λ h. refl, λ h. refl)
same_text_iff none (some b) = (λ h. cc, λ h. cc)
same_text_iff (some a) none = (λ h. cc, λ h. cc)
same_text_iff (some a) (some b) = (λ h. ground (arith, eq_iff a b), λ h. ground (arith, eq_iff a b))

-- An expectation, if there is one, is met.
abbrev pub Agrees {ℓ} : {A : Type ℓ} → Option A → A → Type ℓ
Agrees expected actual = (expected ≡ none) ⊎ (expected ≡ some actual)

Agrees-text_iff :
    (o : Option String) (a : String)
    → (is_none_or (λ expected. option_eq str_eq (some a) (some expected)) o ≡ true) ↔ Agrees o a
Agrees-text_iff none a = (λ h. inl refl, λ h. refl)
Agrees-text_iff (some b) a = (λ h. ground (arith, eq_iff a b), λ h. ground (arith, eq_iff a b))

Agrees-number_iff :
    (o : Option ℕ) (a : ℕ)
    → (is_none_or (λ expected. option_eq ◌==◌ (some a) (some expected)) o ≡ true) ↔ Agrees o a
Agrees-number_iff none a = (λ h. inl refl, λ h. refl)
Agrees-number_iff (some b) a = (λ h. ground arith, λ h. ground arith)

module _ {Value : Type 0} where
  abbrev pub reviewer_of : WorkerResult Value → Option String
  reviewer_of (of_review r) = some r.reviewer_id
  reviewer_of _ = none

  abbrev pub plan_of : WorkerResult Value → ℕ
  plan_of (of_planner r) = r.plan_version
  plan_of (of_builder r) = r.plan_version
  plan_of (of_review r) = r.plan_version
  plan_of (of_final r) = r.plan_version

  -- A review speaks of the pull request and the head that it was asked about.
  abbrev pub IsAt : WorkerResult Value → WorkerBinding → Type 0
  IsAt (of_review r) b =
      Agrees b.pr_number r.pr_number × Agrees b.expected_head_sha r.reviewed_head_sha
  IsAt (of_final r) b =
      Agrees b.pr_number r.pr_number × Agrees b.expected_head_sha r.reviewed_head_sha
  IsAt _ b = Unit {0}

  -- What a binding fixes of a result: the case, task and role; the reviewer, with a review mode
  -- for reviewers only; the model and skills asked for; the version of the plan; what a review was asked about.
  abbrev pub IsBound : WorkerResult Value → WorkerBinding → Type 0
  IsBound result binding =
      ((common_of result).case ≡ binding.case)
      × ((common_of result).task_id ≡ binding.task_id)
      × ((common_of result).role ≡ binding.role)
      × (reviewer_of result ≡ binding.reviewer_id)
      × (is_some binding.review_mode ≡ is_some (reviewer_of result))
      × ((common_of result).requested_model ≡ binding.requested_model)
      × ((common_of result).skills_repository_commit ≡ binding.skills_repository_commit)
      × (plan_of result ≡ binding.plan_version)
      × IsAt result binding

  -- The fields that all results have in common, around what differs.
  bound_iff :
      (c : CommonResult Value) (reviewer : Option String) (plan : ℕ) (b : WorkerBinding) {at : Bool}
      {At : Type 0}
      → (at ≡ true) ↔ At
      → ((same_identity c.case b.case
            && str_eq c.task_id b.task_id
            && same_role c.role b.role
            && option_eq str_eq reviewer b.reviewer_id
            && same_bool (is_some b.review_mode) (is_some reviewer)
            && str_eq c.requested_model b.requested_model
            && str_eq c.skills_repository_commit b.skills_repository_commit
            && plan == b.plan_version
            && at)
          ≡ true)
        ↔ ((c.case ≡ b.case)
            × (c.task_id ≡ b.task_id)
            × (c.role ≡ b.role)
            × (reviewer ≡ b.reviewer_id)
            × (is_some b.review_mode ≡ is_some reviewer)
            × (c.requested_model ≡ b.requested_model)
            × (c.skills_repository_commit ≡ b.skills_repository_commit)
            × (plan ≡ b.plan_version)
            × At)
  bound_iff c reviewer plan b at_iff =
      let fields =
        same_identity_iff c.case b.case
        and_iff eq_iff c.task_id b.task_id
        and_iff same_role_iff c.role b.role
        and_iff same_text_iff reviewer b.reviewer_id
        and_iff same_bool_iff (is_some b.review_mode) (is_some reviewer)
        and_iff eq_iff c.requested_model b.requested_model
        and_iff eq_iff c.skills_repository_commit b.skills_repository_commit
        and_iff ==_iff plan b.plan_version
        and_iff at_iff in
      (
        λ h.
            let ((((((((x, y), z), r), m), a), k), p), t) = fields.0 h in
            (x, y, z, r, m, a, k, p, t),
        λ (x, y, z, r, m, a, k, p, t). fields.1 ((((((((x, y), z), r), m), a), k), p), t),
      )

  matches_iff :
      (result : WorkerResult Value) (binding : WorkerBinding)
      → (matches result binding ≡ true) ↔ IsBound result binding
  unfolding matches
  matches_iff (of_planner r) b = bound_iff r.common none r.plan_version b (λ _. tt, λ _. refl)
  matches_iff (of_builder r) b = bound_iff r.common none r.plan_version b (λ _. tt, λ _. refl)
  matches_iff (of_review r) b = bound_iff r.common (some r.reviewer_id) r.plan_version b (
      Agrees-number_iff b.pr_number r.pr_number
      and_iff Agrees-text_iff b.expected_head_sha r.reviewed_head_sha)
  matches_iff (of_final r) b = bound_iff r.common none r.plan_version b (
      Agrees-number_iff b.pr_number r.pr_number
      and_iff Agrees-text_iff b.expected_head_sha r.reviewed_head_sha)

  -- A result is taken for a task exactly if it is valid by itself and agrees with the task's
  -- binding in everything that the binding fixes.
  pub validate_binding_iff :
      (is_object : Value → Bool) (result : WorkerResult Value) (binding : WorkerBinding)
      → (validate_binding is_object result binding ≡ ok tt)
        ↔ ((validate is_object result ≡ ok tt) × IsBound result binding)
  unfolding validate_binding
  validate_binding_iff is_object result binding = (
    λ h. ground (arith, matches_iff result binding),
    λ h. ground (arith, matches_iff result binding),
  )
