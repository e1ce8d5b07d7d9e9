-- ===== src/Controller/Results.antt =====
-- crates/pip-controller/src/results.rs: the event that a worker's result stands for.
pub mod Accepted
pub mod Commands
use text.Mathlib.Text.{◌==◌ as str_eq}
use agent_p1p.Prelude.{
  ℕ, String, Bool, ◌||◌, ◌&&◌, Option, none, some, List, if◌then◌else◌, option_eq, Result, ok, err,
  ◌>>=◌,
}
use agent_p1p.Core.StateMachine.{Event}
use agent_p1p.Core.ExactHead.{GitSha}
use agent_p1p.Contracts.{
  PlannerOutcome, BuilderOutcome, ReviewOutcome, FinalOutcome, WorkerResult, of_planner, of_builder,
  of_review, of_final,
}
use agent_p1p.Controller.Reviews.{Joined, invalid_state, join_review}

pub record MappedEvent : Type 0 where
  pub event : Event
  pub accepted_plan_version : Option ℕ
  pub next_pr_number : Option ℕ
  pub next_head_sha : Option String

-- `mapped(event, None, None, None)`
abbrev pub only_event : Event → Joined MappedEvent
only_event event = ok (record {
  event = event;
  accepted_plan_version = none;
  next_pr_number = none;
  next_head_sha = none;
})

abbrev pub planner_event : PlannerOutcome → Event
planner_event PlannerOutcome.blocked_unexpected_model = Event.blocked_unexpected_model
planner_event _ = Event.plan_recorded

abbrev pub builder_event : BuilderOutcome → Event
builder_event BuilderOutcome.review_ready = Event.build_recorded
builder_event BuilderOutcome.return_to_planning = Event.return_to_planning
builder_event BuilderOutcome.blocked = Event.blocked
builder_event BuilderOutcome.abandon = Event.abandon
builder_event BuilderOutcome.blocked_unexpected_model = Event.blocked_unexpected_model

abbrev pub final_event : FinalOutcome → Event
final_event FinalOutcome.ready = Event.ready
final_event FinalOutcome.return_to_build = Event.return_to_build
final_event FinalOutcome.return_to_review = Event.return_to_review
final_event FinalOutcome.return_to_planning = Event.return_to_planning
final_event FinalOutcome.wait_for_issue_creator = Event.wait_for_issue_creator
final_event FinalOutcome.blocked = Event.blocked
final_event FinalOutcome.abandon = Event.abandon
final_event FinalOutcome.blocked_unexpected_model = Event.blocked_unexpected_model

-- The event of a review, beside what the join of all reviews says.
abbrev pub review_event : ReviewOutcome → Joined Event → Joined Event
review_event ReviewOutcome.blocked joined = ok Event.blocked
review_event ReviewOutcome.blocked_unexpected_model joined = ok Event.blocked_unexpected_model
review_event _ joined = joined

-- `map_event`, for a case in this state, with the type of its latest event, the payloads of its
-- current review runs, and the reviewers that the policy requires, as the store has them.
module _ {Value : Type 0} (decode : Value → Joined (WorkerResult Value)) (state : String)
    (latest : Option String) (payloads : List Value) (policy : Option (List (Option String))) where
  unfoldable pub map_event : WorkerResult Value → Joined MappedEvent
  map_event (of_planner r) =
      if str_eq state "PLANNING" then only_event (planner_event r.outcome) else err invalid_state
  map_event (of_builder r) =
      if str_eq state "BUILDING" || str_eq state "REMEDIATING"
      then only_event (builder_event r.outcome)
      else err invalid_state
  map_event (of_review r) =
      if str_eq state "REVIEWING"
      then review_event r.outcome (join_review decode payloads policy r) >>= only_event
      else err invalid_state
  map_event (of_final r) =
      if str_eq state "FINAL_REVIEW" && option_eq str_eq latest (some "FINAL_PREFLIGHT_ACCEPTED")
      then only_event (final_event r.outcome)
      else err invalid_state
