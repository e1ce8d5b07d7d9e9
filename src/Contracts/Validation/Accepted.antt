-- ===== src/Contracts/Validation/Accepted.antt =====
-- What an accepted result of crates/pip-contracts/src/lib.rs is known to say.
use agent_p1p.Prelude.{
  String, ◌≤◌, ◌≡◌, ◌≢◌, ◌↔◌, Bool, true, false, not, Option, none, some, List, [], ◌∷◌, All, any,
  arith, ok, refl, sym, subst,
}
use agent_p1p.Prelude.Text.{not_blank, is_hex}
use agent_p1p.Contracts.{
  contract_version, same_role_iff, WorkerRole, planner, builder, reviewer_general, reviewer_secperf,
  final_reviewer, CommonResult, PlannerResult, proceed, BuilderResult, review_ready, BuilderOutcome,
  ReviewResult, approve, confirmed_resolved, FindingConfirmation, WorkerResult, of_planner,
  of_builder, of_review, of_final,
}
use agent_p1p.Contracts.Validation.{
  is_review_ready, common_of, is_confirmed, check_head, check_common, check_planner, check_builder,
  check_review, check_final, validate,
}

-- A text of forty lowercase hexadecimal digits.
abbrev pub IsCommit : String → Type 0
IsCommit sha = is_hex sha 40 ≡ true

-- The header of a result of this role: of this contract and of one real case, with its task and
-- models named, a commit of the skills, and times in order.
pub record IsHeader {Value : Type 0} (role : WorkerRole) (r : CommonResult Value) : Type 0 where
  pub contract : r.contract_version ≡ contract_version
  pub repository : r.case.repository_id ≢ 0
  pub issue : r.case.issue_number ≢ 0
  pub workflow : r.workflow_version ≢ 0
  pub same_workflow : r.case.workflow_version ≡ r.workflow_version
  pub in_role : r.role ≡ role
  pub task : not_blank r.task_id ≡ true
  pub asked_model : not_blank r.requested_model ≡ true
  pub used_model : not_blank r.actual_model ≡ true
  pub skills : IsCommit r.skills_repository_commit
  pub ordered : r.started_at_unix ≤ r.completed_at_unix

all_confirmed :
    (cs : List FindingConfirmation)
    → any (λ item. not (is_confirmed item.status)) cs ≡ false
    → All (λ c. c.status ≡ confirmed_resolved) cs
all_confirmed [] h = tt
all_confirmed (c ∷ cs) h = ground (arith, all_confirmed cs)

-- A head that is required and present is a commit, and none is present where none is required.
named_head :
    (required : Bool) (o : Option String)
    → check_head required o ≡ ok tt
    → (required ≡ true) ↔ ((head : String) × (o ≡ some head) × IsCommit head)
unfolding check_head
named_head true none h = cc
named_head true (some head) h = (λ e. (head, refl, ground arith), λ e. refl)
named_head false none h = (λ e. cc, λ (a, e, c). cc)
named_head false (some head) h = cc

ready_outcome : (outcome : BuilderOutcome) → is_review_ready outcome ≡ true → outcome ≡ review_ready
ready_outcome outcome h = ground arith

module _ {Value : Type 0} where
  check_common_iff :
      (r : CommonResult Value) (role : WorkerRole) → (check_common r role ≡ ok tt) ↔ IsHeader role r
  unfolding check_common
  check_common_iff r role = (
    λ h. ground (arith, same_role_iff r.role role),
    λ h. ground (arith, same_role_iff r.role role),
  )

  abbrev pub role_fits : WorkerResult Value → WorkerRole → Bool
  role_fits (of_planner _) planner = true
  role_fits (of_builder _) builder = true
  role_fits (of_review _) reviewer_general = true
  role_fits (of_review _) reviewer_secperf = true
  role_fits (of_final _) final_reviewer = true
  role_fits _ _ = false

  -- An approval that is accepted leaves nothing open: it has no blocking finding, and every
  -- finding that it confirms is confirmed as resolved.
  pub approval_is_clean :
      (is_object : Value → Bool) (r : ReviewResult Value)
      → validate is_object (of_review r) ≡ ok tt
      → r.outcome ≡ approve
      → (r.blocking_findings ≡ [])
        × All (λ c. c.status ≡ confirmed_resolved) r.finding_confirmations
  unfolding validate check_review
  approval_is_clean is_object r h e = ground (arith, all_confirmed r.finding_confirmations)

  -- A build that is accepted names a head exactly if it is ready for review, and that head is a
  -- commit.
  pub ready_build_has_head :
      (is_object : Value → Bool) (r : BuilderResult Value)
      → validate is_object (of_builder r) ≡ ok tt
      → (r.outcome ≡ review_ready) ↔ ((head : String) × (r.head_sha ≡ some head) × IsCommit head)
  unfolding validate check_builder
  ready_build_has_head is_object r h =
      let head = named_head (is_review_ready r.outcome) r.head_sha (ground arith) in
      (λ e. head.0 (rw (e)), λ e. ready_outcome r.outcome (head.1 e))

  -- A plan that is accepted to proceed has no dependency and no decision open.
  pub proceeding_plan_is_settled :
      (is_object : Value → Bool) (r : PlannerResult Value)
      → validate is_object (of_planner r) ≡ ok tt
      → r.outcome ≡ proceed
      → (r.dependencies ≡ []) × (r.open_decisions ≡ [])
  unfolding validate check_planner
  proceeding_plan_is_settled is_object r h e = ground arith

  IsHeader-of :
      (result : WorkerResult Value) (role : WorkerRole)
      → check_common (common_of result) role ≡ ok tt
      → role_fits result role ≡ true
      → IsHeader (common_of result).role (common_of result)
        × (role_fits result (common_of result).role ≡ true)
  IsHeader-of result role h fits =
      let header = (check_common_iff (common_of result) role).0 h in
      (
        subst (λ at. IsHeader at (common_of result)) (sym header.in_role) header,
        rw (header.in_role, fits),
      )

  -- Every accepted result has a sound header, in a role that gives results of its kind.
  pub accepted_has-IsHeader :
      (is_object : Value → Bool) (result : WorkerResult Value)
      → validate is_object result ≡ ok tt
      → IsHeader (common_of result).role (common_of result)
        × (role_fits result (common_of result).role ≡ true)
  unfolding validate check_planner check_builder check_review check_final
  accepted_has-IsHeader is_object (of_planner r) h =
      IsHeader-of (of_planner r) planner (ground arith) refl
  accepted_has-IsHeader is_object (of_builder r) h =
      IsHeader-of (of_builder r) builder (ground arith) refl
  accepted_has-IsHeader is_object (of_review r) h =
      ground (arith, check_common_iff r.common r.common.role)
  accepted_has-IsHeader is_object (of_final r) h =
      IsHeader-of (of_final r) final_reviewer (ground arith) refl
