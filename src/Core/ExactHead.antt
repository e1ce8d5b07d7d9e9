-- ===== src/Core/ExactHead.antt =====
-- crates/pip-core/src/exact_head.rs: the join of all evidence about one exact head.
pub mod Join
pub mod Blockers
use agent_p1p.Prelude.{
  ℕ, String, Bool, true, false, not, ◌&&◌, Option, none, some, List, [], ◌∷◌, ltb, ◌==◌,
  if◌then◌else◌, is_empty, list_eq, push_if,
}
use agent_p1p.Core.Domain.{CaseId, same_case}

pub data ReviewRole : Type 0 where
  general security_performance : ReviewRole

abbrev pub same_role : ReviewRole → ReviewRole → Bool
same_role general general = true
same_role security_performance security_performance = true
same_role _ _ = false

-- A Git SHA is its bytes.
abbrev pub GitSha : Type 0
GitSha = List ℕ

abbrev pub same_sha : GitSha → GitSha → Bool
same_sha = list_eq ◌==◌

pub record HeadBinding : Type 0 where
  pub case_id : CaseId
  pub pr_number : ℕ
  pub plan_version : ℕ
  pub head_sha : GitSha

pub record BuilderEvidence : Type 0 where
  pub binding : HeadBinding
  pub ci_head_sha : GitSha
  pub ci_green : Bool

pub record CiEvidence : Type 0 where
  pub head_sha : GitSha
  pub completed : Bool
  pub hollow : Bool
  pub rate_limited : Bool
  pub required_checks_green : Bool

pub record ReviewEvidence : Type 0 where
  pub binding : HeadBinding
  pub role : ReviewRole
  pub approved : Bool
  pub blocking_findings : List String

pub record FindingEvidence : Type 0 where
  pub id : String
  pub origin : ReviewRole
  pub reviewed_head_sha : GitSha
  pub resolution_head_sha : Option GitSha
  pub mandatory : Bool
  pub origin_confirmed : Bool

pub record ExactHeadObservation : Type 0 where
  pub expected : HeadBinding
  pub builder : BuilderEvidence
  pub ci : CiEvidence
  pub general_review : ReviewEvidence
  pub secperf_review : ReviewEvidence
  pub findings : List FindingEvidence
  pub open_blocking_threads : ℕ  -- u32
  pub pip_owned : Bool
  pub mergeable : Bool
  pub authorization_valid : Bool

pub data JoinBlocker : Type 0 where
  builder_binding_mismatch builder_head_mismatch builder_ci_head_mismatch builder_ci_not_green
        ci_head_mismatch ci_incomplete ci_hollow ci_rate_limited ci_not_green
        general_review_binding_mismatch general_review_role_mismatch general_review_head_mismatch
        general_review_not_approved general_review_has_blocking_findings
        secperf_review_binding_mismatch secperf_review_role_mismatch secperf_review_head_mismatch
        secperf_review_not_approved secperf_review_has_blocking_findings finding_resolution_missing
        finding_resolution_head_mismatch finding_not_origin_confirmed blocking_threads_open
        foreign_ownership not_mergeable authorization_invalid :
      JoinBlocker

-- The order of the variants, by which `derive` compares.
abbrev pub rank : JoinBlocker → ℕ
rank builder_binding_mismatch = 0
rank builder_head_mismatch = 1
rank builder_ci_head_mismatch = 2
rank builder_ci_not_green = 3
rank ci_head_mismatch = 4
rank ci_incomplete = 5
rank ci_hollow = 6
rank ci_rate_limited = 7
rank ci_not_green = 8
rank general_review_binding_mismatch = 9
rank general_review_role_mismatch = 10
rank general_review_head_mismatch = 11
rank general_review_not_approved = 12
rank general_review_has_blocking_findings = 13
rank secperf_review_binding_mismatch = 14
rank secperf_review_role_mismatch = 15
rank secperf_review_head_mismatch = 16
rank secperf_review_not_approved = 17
rank secperf_review_has_blocking_findings = 18
rank finding_resolution_missing = 19
rank finding_resolution_head_mismatch = 20
rank finding_not_origin_confirmed = 21
rank blocking_threads_open = 22
rank foreign_ownership = 23
rank not_mergeable = 24
rank authorization_invalid = 25

abbrev pub same_blocker : JoinBlocker → JoinBlocker → Bool
same_blocker a b = rank a == rank b

pub record ExactHeadDecision : Type 0 where
  pub ready : Bool
  pub blockers : List JoinBlocker

abbrev pub same_identity : HeadBinding → HeadBinding → Bool
same_identity left right =
    same_case left.case_id right.case_id
    && left.pr_number == right.pr_number
    && left.plan_version == right.plan_version

-- The blockers of one review, named by its role: binding, role, head, approval, findings.
abbrev review_blockers :
    ReviewRole → JoinBlocker × JoinBlocker × JoinBlocker × JoinBlocker × JoinBlocker
review_blockers general = (
  general_review_binding_mismatch, general_review_role_mismatch, general_review_head_mismatch,
  general_review_not_approved, general_review_has_blocking_findings,
)
review_blockers security_performance = (
  secperf_review_binding_mismatch, secperf_review_role_mismatch, secperf_review_head_mismatch,
  secperf_review_not_approved, secperf_review_has_blocking_findings,
)

check_review : HeadBinding → ReviewEvidence → ReviewRole → List JoinBlocker → List JoinBlocker
check_review expected evidence role blockers =
    let named = review_blockers role in
    let b1 = push_if (not (same_identity expected evidence.binding)) named.0 blockers in
    let b2 = push_if (not (same_role evidence.role role)) named.1 b1 in
    let b3 = push_if (not (same_sha evidence.binding.head_sha expected.head_sha)) named.2 b2 in
    let b4 = push_if (not evidence.approved) named.3 b3 in
    push_if (not (is_empty evidence.blocking_findings)) named.4 b4

-- The `match` on the resolution of one finding.
check_resolution : GitSha → Option GitSha → List JoinBlocker → List JoinBlocker
check_resolution expected none blockers = push_if true finding_resolution_missing blockers
check_resolution expected (some head) blockers =
    push_if (not (same_sha head expected)) finding_resolution_head_mismatch blockers

check_finding : GitSha → FindingEvidence → List JoinBlocker → List JoinBlocker
check_finding expected finding blockers =
    let b1 = check_resolution expected finding.resolution_head_sha blockers in
    push_if (not finding.origin_confirmed) finding_not_origin_confirmed b1

-- The loop over the mandatory findings.
check_findings : GitSha → List FindingEvidence → List JoinBlocker → List JoinBlocker
check_findings expected [] blockers = blockers
check_findings expected (finding ∷ findings) blockers =
    check_findings expected findings
      (if finding.mandatory then check_finding expected finding blockers else blockers)

-- The checks of the builder's evidence and of CI.
check_build : HeadBinding → BuilderEvidence → CiEvidence → List JoinBlocker → List JoinBlocker
check_build expected builder ci blockers =
    let b1 =
      push_if (not (same_identity expected builder.binding)) builder_binding_mismatch blockers in
    let b2 =
      push_if (not (same_sha builder.binding.head_sha expected.head_sha)) builder_head_mismatch
        b1 in
    let b3 =
      push_if (not (same_sha builder.ci_head_sha expected.head_sha)) builder_ci_head_mismatch b2 in
    let b4 = push_if (not builder.ci_green) builder_ci_not_green b3 in
    let b5 = push_if (not (same_sha ci.head_sha expected.head_sha)) ci_head_mismatch b4 in
    let b6 = push_if (not ci.completed) ci_incomplete b5 in
    let b7 = push_if ci.hollow ci_hollow b6 in
    let b8 = push_if ci.rate_limited ci_rate_limited b7 in
    push_if (not ci.required_checks_green) ci_not_green b8

-- The checks of the pull request itself.
check_pull_request : ExactHeadObservation → List JoinBlocker → List JoinBlocker
check_pull_request observation blockers =
    let b1 = push_if (ltb 0 observation.open_blocking_threads) blocking_threads_open blockers in
    let b2 = push_if (not observation.pip_owned) foreign_ownership b1 in
    let b3 = push_if (not observation.mergeable) not_mergeable b2 in
    push_if (not observation.authorization_valid) authorization_invalid b3

join_blockers : ExactHeadObservation → List JoinBlocker
join_blockers observation =
    let expected = observation.expected in
    let b1 = check_build expected observation.builder observation.ci [] in
    let b2 = check_review expected observation.general_review general b1 in
    let b3 = check_review expected observation.secperf_review security_performance b2 in
    let b4 = check_findings expected.head_sha observation.findings b3 in
    check_pull_request observation b4

pub evaluate_exact_head : ExactHeadObservation → ExactHeadDecision
evaluate_exact_head observation =
    let blockers = join_blockers observation in
    record { ready = is_empty blockers; blockers = blockers }
