-- ===== src/Control/Park.antt =====
-- crates/pip-control/src/park.rs: where a parked case resumes, and what is said of it. What the
-- payload of its event holds is not read here.
use text.Mathlib.Text.{◌==◌ as str_eq}
use Prim.Native.String.{◌++◌}
use agent_p1p.Prelude.{
  ℕ, ◌/◌, ◌<◌, String, Bool, true, false, ◌||◌, ◌&&◌, ◌≡◌, arith, List, [], ◌∷◌, any, ltb,
  if◌then◌else◌, some, ok,
}
use agent_p1p.Core.Domain.{decimal}
use agent_p1p.Store.Control.{ParkingEvent}
use agent_p1p.Core.StateMachine.Safety.{resume_iff, Restarts}
use agent_p1p.Core.StateMachine.{
  Effect, dispatch_planner, dispatch_builder, observe_ci, CaseState, remediating, waiting_ci,
  planning, ready_to_build, human_resumed, TransitionContext, transition, is_parked,
}

-- `matches!`
abbrev pub is_among : String → List String → Bool
is_among text texts = any (str_eq text) texts

abbrev pub out_of_rounds : List String
out_of_rounds = "CI_FAILED" ∷ "REQUEST_CHANGES" ∷ "RETURN_TO_BUILD" ∷ []

abbrev pub needs_plan : List String
needs_plan = "RETURN_TO_PLANNING" ∷ "WAIT_FOR_ISSUE_CREATOR" ∷ "HUMAN_FEEDBACK_RECEIVED" ∷ []

unfoldable pub stage_target : String → CaseState
stage_target previous =
    if is_among previous ("PLANNING" ∷ "WAITING_HUMAN" ∷ [])
    then planning
    else if is_among previous ("READY_TO_BUILD" ∷ "BUILDING" ∷ [])
    then ready_to_build
    else if str_eq previous "REMEDIATING"
    then remediating
    else waiting_ci

unfoldable pub resume_target : {Value : Type 0} → ParkingEvent Value → CaseState
resume_target park =
    if is_among park.event_type out_of_rounds
    then remediating
    else if str_eq park.event_type "RETURN_TO_REVIEW"
    then waiting_ci
    else if is_among park.event_type needs_plan
    then planning
    else stage_target park.previous_state

unfoldable pub rounds_exhausted : {Value : Type 0} → ParkingEvent Value → String → Bool
rounds_exhausted park state =
    str_eq state "ESCALATED"
    && (is_among park.event_type out_of_rounds
        || str_eq park.event_type "RETURN_TO_REVIEW"
        || is_among park.event_type needs_plan)

unfoldable pub stage : String → String
stage state =
    if is_among state ("PLANNING" ∷ "WAITING_HUMAN" ∷ [])
    then "planning"
    else if is_among state ("READY_TO_BUILD" ∷ "BUILDING" ∷ [])
    then "building"
    else if str_eq state "REMEDIATING"
    then "fixing review or CI feedback"
    else if str_eq state "WAITING_CI"
    then "waiting for CI"
    else if str_eq state "REVIEWING"
    then "review"
    else if str_eq state "FINAL_REVIEW"
    then "final review"
    else if is_among state ("SHADOW_READY" ∷ "READY_TO_MERGE" ∷ "MERGING" ∷ [])
    then "readiness checks"
    else "an unknown stage"

unfoldable pub duration : ℕ → String
duration seconds =
    if ltb seconds 120
    then decimal seconds ++ " seconds"
    else if ltb seconds 7200
    then decimal (seconds / 60) ++ " minutes"
    else if ltb seconds 172800
    then decimal (seconds / 3600) ++ " hours"
    else decimal (seconds / 86400) ++ " days"

-- The work that a resume starts in its target.
abbrev restart_effects : CaseState → List Effect
restart_effects planning = dispatch_planner ∷ []
restart_effects ready_to_build = dispatch_builder ∷ []
restart_effects remediating = dispatch_builder ∷ []
restart_effects waiting_ci = observe_ci ∷ []
restart_effects _ = []

-- The states that a resume starts work in.
abbrev is_restart : CaseState → Bool
is_restart planning = true
is_restart ready_to_build = true
is_restart remediating = true
is_restart waiting_ci = true
is_restart _ = false

stage_target_lem : (previous : String) → is_restart (stage_target previous) ≡ true
unfolding stage_target
stage_target_lem previous = ground arith

resume_target_lem :
    {Value : Type 0} (park : ParkingEvent Value) → is_restart (resume_target park) ≡ true
unfolding resume_target
resume_target_lem park = ground (arith, stage_target_lem park.previous_state)

is_restart-Restarts : (s : CaseState) → is_restart s ≡ true → Restarts s (restart_effects s)
is_restart-Restarts s h = ground arith

-- Whatever parked a case, the state machine takes the target that is chosen for its resume, and
-- the case stands there with its work started.
resume_target-transition :
    {Value : Type 0} (s : CaseState) (c : TransitionContext) (park : ParkingEvent Value)
    → 0 < c.max_remediation_rounds
    → is_parked s ≡ true
    → c.resume_target ≡ some (resume_target park)
    → transition s human_resumed c
      ≡ ok (record {
        next_state = resume_target park;
        effects = restart_effects (resume_target park);
      })
resume_target-transition s c park rounds parked target =
    let (_, accepts) = resume_iff s c _ in
    accepts
      (rounds, parked, target, is_restart-Restarts (resume_target park) (resume_target_lem park))
