-- ===== src/Core/ExactHead/Blockers.antt =====
-- Which blockers crates/pip-core/src/exact_head.rs reports: each one exactly when its own
-- condition holds, whatever the other evidence is.
use agent_p1p.Prelude.{
  ◌≡◌, Bool, false, not, ◌&&◌, ◌||◌, or-false, and-false, and-true, any-false, or_assoc, Option,
  none, some, List, [], ◌∷◌, any, arith, ltb, if◌then◌else◌, is_empty, is_none, any-push_if,
}
use agent_p1p.Core.ExactHead.{
  general, security_performance, same_role, GitSha, same_sha, FindingEvidence, ExactHeadObservation,
  JoinBlocker, builder_binding_mismatch, builder_head_mismatch, builder_ci_head_mismatch,
  builder_ci_not_green, ci_head_mismatch, ci_incomplete, ci_hollow, ci_rate_limited, ci_not_green,
  general_review_binding_mismatch, general_review_role_mismatch, general_review_head_mismatch,
  general_review_not_approved, general_review_has_blocking_findings,
  secperf_review_binding_mismatch, secperf_review_role_mismatch, secperf_review_head_mismatch,
  secperf_review_not_approved, secperf_review_has_blocking_findings, finding_resolution_missing,
  finding_resolution_head_mismatch, finding_not_origin_confirmed, blocking_threads_open,
  foreign_ownership, not_mergeable, authorization_invalid, same_blocker, same_identity,
  check_review, check_resolution, check_finding, check_findings, check_build, check_pull_request,
  join_blockers, evaluate_exact_head,
}

-- A resolution at another head than the one expected.
abbrev pub resolved_elsewhere : GitSha → Option GitSha → Bool
resolved_elsewhere expected none = false
resolved_elsewhere expected (some head) = not (same_sha head expected)

-- What each blocker says of the observation.
abbrev pub blocks : ExactHeadObservation → JoinBlocker → Bool
blocks o builder_binding_mismatch = not (same_identity o.expected o.builder.binding)
blocks o builder_head_mismatch = not (same_sha o.builder.binding.head_sha o.expected.head_sha)
blocks o builder_ci_head_mismatch = not (same_sha o.builder.ci_head_sha o.expected.head_sha)
blocks o builder_ci_not_green = not o.builder.ci_green
blocks o ci_head_mismatch = not (same_sha o.ci.head_sha o.expected.head_sha)
blocks o ci_incomplete = not o.ci.completed
blocks o ci_hollow = o.ci.hollow
blocks o ci_rate_limited = o.ci.rate_limited
blocks o ci_not_green = not o.ci.required_checks_green
blocks o general_review_binding_mismatch = not (same_identity o.expected o.general_review.binding)
blocks o general_review_role_mismatch = not (same_role o.general_review.role general)
blocks o general_review_head_mismatch =
    not (same_sha o.general_review.binding.head_sha o.expected.head_sha)
blocks o general_review_not_approved = not o.general_review.approved
blocks o general_review_has_blocking_findings = not (is_empty o.general_review.blocking_findings)
blocks o secperf_review_binding_mismatch = not (same_identity o.expected o.secperf_review.binding)
blocks o secperf_review_role_mismatch = not (same_role o.secperf_review.role security_performance)
blocks o secperf_review_head_mismatch =
    not (same_sha o.secperf_review.binding.head_sha o.expected.head_sha)
blocks o secperf_review_not_approved = not o.secperf_review.approved
blocks o secperf_review_has_blocking_findings = not (is_empty o.secperf_review.blocking_findings)
blocks o finding_resolution_missing =
    any (λ f. f.mandatory && is_none f.resolution_head_sha) o.findings
blocks o finding_resolution_head_mismatch =
    any (λ f. f.mandatory && resolved_elsewhere o.expected.head_sha f.resolution_head_sha)
      o.findings
blocks o finding_not_origin_confirmed = any (λ f. f.mandatory && not f.origin_confirmed) o.findings
blocks o blocking_threads_open = ltb 0 o.open_blocking_threads
blocks o foreign_ownership = not o.pip_owned
blocks o not_mergeable = not o.mergeable
blocks o authorization_invalid = not o.authorization_valid

abbrev pub reports : JoinBlocker → List JoinBlocker → Bool
reports b = any (λ x. same_blocker x b)

-- What one finding adds to the report.
abbrev finding_blocks : GitSha → FindingEvidence → JoinBlocker → Bool
finding_blocks e f finding_resolution_missing = f.mandatory && is_none f.resolution_head_sha
finding_blocks e f finding_resolution_head_mismatch =
    f.mandatory && resolved_elsewhere e f.resolution_head_sha
finding_blocks e f finding_not_origin_confirmed = f.mandatory && not f.origin_confirmed
finding_blocks e f _ = false

reports-check_resolution :
    (e : GitSha) (o : Option GitSha) (b : JoinBlocker) (xs : List JoinBlocker)
    → reports b (check_resolution e o xs) ≡ (
        reports b xs
        || (is_none o && same_blocker finding_resolution_missing b)
        || (resolved_elsewhere e o && same_blocker finding_resolution_head_mismatch b))
unfolding check_resolution
reports-check_resolution e none b xs = simp (any-push_if, or-false)
reports-check_resolution e (some head) b xs = simp (any-push_if, or-false)

reports-check_finding :
    (e : GitSha) (f : FindingEvidence) (b : JoinBlocker) (xs : List JoinBlocker)
    → reports b (if f.mandatory then check_finding e f xs else xs)
      ≡ (reports b xs || finding_blocks e f b)
unfolding check_finding
reports-check_finding e f finding_resolution_missing xs = ground (
  arith,
  any-push_if (λ x. same_blocker x finding_resolution_missing) (not f.origin_confirmed)
      finding_not_origin_confirmed (check_resolution e f.resolution_head_sha xs),
  reports-check_resolution e f.resolution_head_sha finding_resolution_missing xs,
)
reports-check_finding e f b xs = ground (
  arith,
  any-push_if (λ x. same_blocker x b) (not f.origin_confirmed) finding_not_origin_confirmed
      (check_resolution e f.resolution_head_sha xs),
  reports-check_resolution e f.resolution_head_sha b xs,
)

reports-check_findings :
    (e : GitSha) (fs : List FindingEvidence) (b : JoinBlocker) (xs : List JoinBlocker)
    → reports b (check_findings e fs xs) ≡ (reports b xs || any (λ f. finding_blocks e f b) fs)
unfolding check_findings
reports-check_findings e [] b xs = ground arith
reports-check_findings e (f ∷ fs) b xs =
    rw (reports-check_findings e fs b, reports-check_finding e f b xs)
      (or_assoc (reports b xs) (finding_blocks e f b) (any (λ g. finding_blocks e g b) fs))

-- A blocker is reported exactly if its condition holds of the observation.
pub reports-evaluate_exact_head :
    (o : ExactHeadObservation) (b : JoinBlocker)
    → reports b (evaluate_exact_head o).blockers ≡ blocks o b
unfolding evaluate_exact_head join_blockers check_build check_review check_pull_request
reports-evaluate_exact_head o builder_binding_mismatch =
    simp (any-push_if, reports-check_findings, or-false, and-false, and-true, any-false)
reports-evaluate_exact_head o _ =
    simp (any-push_if, reports-check_findings, or-false, and-false, and-true, any-false)
