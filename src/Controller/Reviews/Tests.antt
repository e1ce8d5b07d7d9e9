-- ===== src/Controller/Reviews/Tests.antt =====
-- The join of crates/pip-controller/src/results.rs on two reviews of one head.
use agent_p1p.Prelude.{ℕ, ◌≡◌, refl, true, Option, some, String, List, [], ◌∷◌, ◌++◌, All, ok, err}
use agent_p1p.Core.StateMachine.{reviews_approved, review_recorded, Event}
use agent_p1p.Contracts.{
  WorkerRole, reviewer_general, reviewer_secperf, CommonResult, ReviewOutcome, approve,
  ReviewResult, WorkerResult, of_review,
}
use agent_p1p.Core.StateMachine.{reviewing, TransitionContext, shadow}
use agent_p1p.Core.StateMachine.Wire.{state_name}
use agent_p1p.Prelude.{arith, none}
use agent_p1p.Controller.Results.{MappedEvent, map_event}
use agent_p1p.Controller.Results.Accepted.{IsDefined, mapped_event-IsDefined}
use agent_p1p.Controller.Reviews.{
  Joined, same_head, gather, collect_ids, verdict, by_policy, ids_of, join_review,
  conflicting_reviews,
}
use agent_p1p.Controller.Reviews.Approval.{HasReviewed, approved_by_all}

abbrev header : WorkerRole → CommonResult ℕ
header role = record {
  contract_version = 2;
  workflow_version = 2;
  case = record { repository_id = 1; issue_number = 7; workflow_version = 2 };
  task_id = "task-1";
  role = role;
  requested_model = "model-a";
  actual_model = "model-a";
  skills_repository_commit = "c";
  started_at_unix = 10;
  completed_at_unix = 20;
  evidence = [];
}

abbrev review : WorkerRole → String → ReviewOutcome → ReviewResult ℕ
review role id outcome = record {
  common = header role;
  reviewer_id = id;
  outcome = outcome;
  plan_version = 1;
  review_round = 1;
  pr_number = 12;
  reviewed_head_sha = "h";
  blocking_findings = [];
  suggestions = [];
  finding_confirmations = [];
}

-- Every payload is the general reviewer's approval.
abbrev decode : ℕ → Joined (WorkerResult ℕ)
decode payload = ok (of_review (review reviewer_general "general" approve))

abbrev earlier : List (ReviewResult ℕ)
earlier = review reviewer_general "general" approve ∷ []

abbrev current : ReviewResult ℕ
current = review reviewer_secperf "secperf" approve

abbrev both_reviewers : List (Option String)
both_reviewers = some "general" ∷ some "secperf" ∷ []

join_tests :
    (join_review decode (0 ∷ []) (some both_reviewers) current ≡ ok reviews_approved)
    × (join_review decode [] (some both_reviewers) current ≡ ok review_recorded)
    × (join_review decode
          (0 ∷ [])
          (some both_reviewers)
          (record current { outcome = ReviewOutcome.request_changes })
        ≡ ok Event.request_changes)
    × (join_review decode
          (0 ∷ [])
          (some both_reviewers)
          (record current { reviewer_id = "general" })
        ≡ err conflicting_reviews)
unfolding join_review gather by_policy collect_ids verdict
join_tests = (refl, refl, refl, refl)

approved_by_all_example :
    (found : List (ReviewResult ℕ)) × (gather decode current (0 ∷ []) ≡ ok found)
    × All (λ r. same_head r current ≡ true) found
    × All (λ r. r.outcome ≡ approve) (found ++ current ∷ [])
    × All (HasReviewed (ids_of (found ++ current ∷ []))) both_reviewers
approved_by_all_example = approved_by_all decode (0 ∷ []) both_reviewers current join_tests.0

abbrev joined : MappedEvent
joined = record {
  event = reviews_approved;
  accepted_plan_version = none;
  next_pr_number = none;
  next_head_sha = none;
}

abbrev last_round : TransitionContext
last_round = record {
  remediation_round = 2;
  max_remediation_rounds = 2;
  merge_mode = shadow;
  resume_target = none;
}

map_test :
    map_event decode (state_name reviewing) none (0 ∷ []) (some both_reviewers) (of_review current)
    ≡ ok joined
unfolding map_event state_name join_review gather by_policy collect_ids verdict
map_test = refl

mapped_event-IsDefined_example : IsDefined reviewing last_round reviews_approved
mapped_event-IsDefined_example =
    mapped_event-IsDefined last_round (λ e. absurd (omega arith)) decode reviewing none (0 ∷ [])
      (some both_reviewers) (of_review current) joined map_test
