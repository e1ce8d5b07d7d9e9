-- ===== src/Core/ExactHead/Join.antt =====
-- When crates/pip-core/src/exact_head.rs calls a head ready, and what its blockers say.
use agent_p1p.Prelude.{
  ◌≡◌, ◌↔◌, refl, true, false, not-eq-false_iff, ==_iff, Option, none, some, List, [], ◌∷◌, All,
  arith, ◌==◌, is_empty, list_eq_iff, push_if-eq-nil_iff,
}
use agent_p1p.Core.ExactHead.{
  ReviewRole, general, security_performance, same_role, GitSha, same_sha, HeadBinding,
  BuilderEvidence, CiEvidence, ReviewEvidence, FindingEvidence, ExactHeadObservation, JoinBlocker,
  same_identity, check_review, check_resolution, check_finding, check_findings, check_build,
  check_pull_request, join_blockers, evaluate_exact_head,
}

same_sha_iff : (a b : GitSha) → (same_sha a b ≡ true) ↔ (a ≡ b)
same_sha_iff = list_eq_iff ◌==◌ ==_iff

-- One role approves the head that is expected.
pub record IsApproval (role : ReviewRole) (expected : HeadBinding) (r : ReviewEvidence)
    : Type 0 where
  pub bound : r.binding ≡ expected
  pub in_role : r.role ≡ role
  pub approves : r.approved ≡ true
  pub no_findings : r.blocking_findings ≡ []

-- A mandatory finding is resolved at the expected head, and its reviewer has confirmed it.
abbrev pub IsSettled : HeadBinding → FindingEvidence → Type 0
IsSettled expected f =
    f.mandatory ≡ true
    → (f.resolution_head_sha ≡ some expected.head_sha) × (f.origin_confirmed ≡ true)

pub record IsReady (o : ExactHeadObservation) : Type 0 where
  pub built : o.builder.binding ≡ o.expected
  pub built_ci : o.builder.ci_head_sha ≡ o.expected.head_sha
  pub built_green : o.builder.ci_green ≡ true
  pub ci_head : o.ci.head_sha ≡ o.expected.head_sha
  pub ci_complete : o.ci.completed ≡ true
  pub ci_real : o.ci.hollow ≡ false
  pub ci_unlimited : o.ci.rate_limited ≡ false
  pub ci_green : o.ci.required_checks_green ≡ true
  pub general_approval : IsApproval general o.expected o.general_review
  pub secperf_approval : IsApproval security_performance o.expected o.secperf_review
  pub settled : All (IsSettled o.expected) o.findings
  pub no_threads : o.open_blocking_threads ≡ 0
  pub owned : o.pip_owned ≡ true
  pub can_merge : o.mergeable ≡ true
  pub authorized : o.authorization_valid ≡ true

-- The same identity and the same head are the same binding.
binding_iff :
    (a b : HeadBinding)
    → ((same_identity a b ≡ true) × (same_sha b.head_sha a.head_sha ≡ true)) ↔ (b ≡ a)
binding_iff a b = (
  λ h. ground (arith, same_sha_iff b.head_sha a.head_sha),
  λ h. ground (arith, same_sha_iff b.head_sha a.head_sha),
)

same_role_iff : (a b : ReviewRole) → (same_role a b ≡ true) ↔ (a ≡ b)
same_role_iff a b = (λ h. ground arith, λ h. ground arith)

check_build-eq-nil_iff :
    (e : HeadBinding) (b : BuilderEvidence) (c : CiEvidence) (xs : List JoinBlocker)
    → (check_build e b c xs ≡ []) ↔ (
        (xs ≡ [])
        × (b.binding ≡ e)
        × (b.ci_head_sha ≡ e.head_sha)
        × (b.ci_green ≡ true)
        × (c.head_sha ≡ e.head_sha)
        × (c.completed ≡ true)
        × (c.hollow ≡ false)
        × (c.rate_limited ≡ false)
        × (c.required_checks_green ≡ true))
unfolding check_build
check_build-eq-nil_iff e b c xs =
    simp (push_if-eq-nil_iff, not-eq-false_iff)
      (
        λ h. ground (
          arith,
          binding_iff e b.binding,
          same_sha_iff b.ci_head_sha e.head_sha,
          same_sha_iff c.head_sha e.head_sha,
        ),
        λ h. ground (
          arith,
          binding_iff e b.binding,
          same_sha_iff b.ci_head_sha e.head_sha,
          same_sha_iff c.head_sha e.head_sha,
        ),
      )

check_review-eq-nil_iff :
    (e : HeadBinding) (r : ReviewEvidence) (role : ReviewRole) (xs : List JoinBlocker)
    → (check_review e r role xs ≡ []) ↔ ((xs ≡ []) × IsApproval role e r)
unfolding check_review
check_review-eq-nil_iff e r role xs =
    simp (push_if-eq-nil_iff, not-eq-false_iff)
      (
        λ h. ground (arith, binding_iff e r.binding, same_role_iff r.role role),
        λ h. ground (arith, binding_iff e r.binding, same_role_iff r.role role),
      )

check_resolution-eq-nil_iff :
    (e : GitSha) (o : Option GitSha) (xs : List JoinBlocker)
    → (check_resolution e o xs ≡ []) ↔ ((xs ≡ []) × (o ≡ some e))
unfolding check_resolution
check_resolution-eq-nil_iff e none xs =
    simp push_if-eq-nil_iff (λ h. ground arith, λ h. ground arith)
check_resolution-eq-nil_iff e (some head) xs =
    simp (push_if-eq-nil_iff, not-eq-false_iff, same_sha_iff) (λ h. ground arith, λ h. ground arith)

check_finding-eq-nil_iff :
    (e : GitSha) (f : FindingEvidence) (xs : List JoinBlocker)
    → (check_finding e f xs ≡ [])
      ↔ ((xs ≡ []) × (f.resolution_head_sha ≡ some e) × (f.origin_confirmed ≡ true))
unfolding check_finding
check_finding-eq-nil_iff e f xs =
    simp (push_if-eq-nil_iff, not-eq-false_iff, check_resolution-eq-nil_iff)
      (λ h. ground arith, λ h. ground arith)

check_findings-eq-nil_iff :
    (e : HeadBinding) (fs : List FindingEvidence) (xs : List JoinBlocker)
    → (check_findings e.head_sha fs xs ≡ []) ↔ ((xs ≡ []) × All (IsSettled e) fs)
unfolding check_findings
check_findings-eq-nil_iff e [] xs = (λ h. (h, tt), λ h. h.0)
check_findings-eq-nil_iff e (f ∷ fs) xs = simp (check_findings-eq-nil_iff e fs) (
  λ h. ground (arith, check_finding-eq-nil_iff e.head_sha f xs),
  λ h. ground (arith, check_finding-eq-nil_iff e.head_sha f xs),
)

check_pull_request-eq-nil_iff :
    (o : ExactHeadObservation) (xs : List JoinBlocker)
    → (check_pull_request o xs ≡ []) ↔ (
        (xs ≡ [])
        × (o.open_blocking_threads ≡ 0)
        × (o.pip_owned ≡ true)
        × (o.mergeable ≡ true)
        × (o.authorization_valid ≡ true))
unfolding check_pull_request
check_pull_request-eq-nil_iff o xs =
    simp (push_if-eq-nil_iff, not-eq-false_iff) (λ h. ground arith, λ h. ground arith)

is_empty_iff {ℓ} : {A : Type ℓ} (xs : List A) → (is_empty xs ≡ true) ↔ (xs ≡ [])
is_empty_iff [] = (λ h. refl, λ h. refl)
is_empty_iff (x ∷ xs) = (λ h. cc, λ h. cc)

-- A head is ready exactly if builder, CI and both reviews speak of the one expected binding, every
-- mandatory finding is resolved there and confirmed, and nothing else stands against the merge.
pub ready_iff : (o : ExactHeadObservation) → ((evaluate_exact_head o).ready ≡ true) ↔ IsReady o
unfolding evaluate_exact_head join_blockers
ready_iff o =
    simp
      (
        is_empty_iff, check_pull_request-eq-nil_iff, check_findings-eq-nil_iff,
        check_review-eq-nil_iff, check_build-eq-nil_iff,
      )
      (λ h. assumption, λ h. assumption refl)
