-- ===== src/Core/StateMachine.antt =====
-- crates/pip-core/src/state_machine.rs: the case states, the events, and the transition function.
pub mod Safety
pub mod Runs
pub mod Wire
mod Tests
use agent_p1p.Prelude.{
  ℕ, Bool, true, false, ◌&&◌, Option, some, List, [], ◌∷◌, ltb, leb, ◌==◌, if◌then◌else◌, Result,
  ok, err,
}

pub data CaseState : Type 0 where
  planning waiting_human ready_to_build building waiting_ci reviewing remediating final_review
        shadow_ready ready_to_merge merging completed blocked escalated abandoned taken_over :
      CaseState

pub data Event : Type 0 where
  plan_recorded proceed waiting_for_issue_creator needs_human_scope_decision
        root_cause_different_scope cross_repo_dependency already_fixed not_reproducible duplicate
        abandon human_narrowed_scope human_approved_stale_base human_clarified
        human_feedback_received builder_dispatched native_review_retry_authorized
        review_coordination_recovery_authorized infrastructure_recovery_authorized
        remediation_budget_extended follow_up_recovery_authorized publication_retry_authorized
        build_recorded review_ready return_to_planning blocked human_reaffirmed_scope ci_accepted
        ci_failed review_recorded reviews_approved reviews_published final_preflight_accepted
        request_changes ready return_to_build return_to_review wait_for_issue_creator human_merged
        prerequisite_resolved blocked_unexpected_model merge_started merge_verified human_took_over
        authorization_removed operational_bound_reached human_resumed human_abandoned :
      Event

pub data MergeMode : Type 0 where
  shadow guarded : MergeMode

pub record TransitionContext : Type 0 where
  pub remediation_round : ℕ  -- u32
  pub max_remediation_rounds : ℕ  -- u32
  pub merge_mode : MergeMode
  pub resume_target : Option CaseState

pub data Effect : Type 0 where
  dispatch_planner publish_plan dispatch_builder publish_draft_pull_request observe_ci
        dispatch_reviewers publish_reviews observe_final_preflight dispatch_final_reviewer
        hold_for_human notify_shadow_ready begin_merge execute_merge record_completion
        record_abandonment record_block record_takeover escalate :
      Effect

pub record TransitionDecision : Type 0 where
  pub next_state : CaseState
  pub effects : List Effect

pub data TransitionError : Type 0 where
  invalid_loop_bound : TransitionError
  terminal_state : CaseState → TransitionError
  invalid_transition : CaseState → Event → TransitionError

abbrev pub Transition : Type 0
Transition = Result TransitionDecision TransitionError

abbrev pub is_terminal : CaseState → Bool
is_terminal completed = true
is_terminal abandoned = true
is_terminal taken_over = true
is_terminal _ = false

-- The states in which a human may resume or abandon a case.
abbrev pub is_parked : CaseState → Bool
is_parked escalated = true
is_parked CaseState.blocked = true
is_parked waiting_human = true
is_parked _ = false

abbrev is_taken_over : CaseState → Bool
is_taken_over taken_over = true
is_taken_over _ = false

abbrev is_human_merged : Event → Bool
is_human_merged human_merged = true
is_human_merged _ = false

abbrev is_follow_up : Event → Bool
is_follow_up follow_up_recovery_authorized = true
is_follow_up _ = false

abbrev decision : CaseState → List Effect → Transition
decision s fx = ok (record { next_state = s; effects = fx })

abbrev is_shadow : MergeMode → Bool
is_shadow shadow = true
is_shadow guarded = false

-- `HumanResumed` of a parked case: the target that the command names, with its dispatch.
resume : CaseState → Option CaseState → Transition
resume state (some planning) = decision planning (dispatch_planner ∷ [])
resume state (some ready_to_build) = decision ready_to_build (dispatch_builder ∷ [])
resume state (some remediating) = decision remediating (dispatch_builder ∷ [])
resume state (some waiting_ci) = decision waiting_ci (observe_ci ∷ [])
resume state _ = err (invalid_transition state human_resumed)

module _ (context : TransitionContext) where
  -- `remediation_round >= max_remediation_rounds`
  abbrev spent : Bool
  spent = leb context.max_remediation_rounds context.remediation_round

  feedback : Transition
  feedback =
      if spent
      then decision escalated (escalate ∷ [])
      else decision planning (dispatch_planner ∷ [])

  -- The guarded loop back from final review.
  loop_back : CaseState → Effect → Transition
  loop_back s fx = if spent then decision escalated (escalate ∷ []) else decision s (fx ∷ [])

  -- The `match (state, event)`.
  workflow : CaseState → Event → Transition
  unfolding feedback loop_back
  workflow planning human_feedback_received = feedback
  workflow waiting_human human_feedback_received = feedback
  workflow ready_to_build human_feedback_received = feedback
  workflow waiting_ci human_feedback_received = feedback
  workflow reviewing human_feedback_received = feedback
  workflow remediating human_feedback_received = feedback
  workflow final_review human_feedback_received = feedback
  workflow shadow_ready human_feedback_received = feedback
  workflow planning plan_recorded = decision planning (publish_plan ∷ [])
  workflow planning proceed = decision ready_to_build (dispatch_builder ∷ [])
  workflow planning waiting_for_issue_creator = decision waiting_human (hold_for_human ∷ [])
  workflow planning needs_human_scope_decision = decision waiting_human (hold_for_human ∷ [])
  workflow planning root_cause_different_scope = decision waiting_human (hold_for_human ∷ [])
  workflow planning cross_repo_dependency = decision CaseState.blocked (record_block ∷ [])
  workflow planning Event.blocked = decision CaseState.blocked (record_block ∷ [])
  workflow planning already_fixed = decision completed (record_completion ∷ [])
  workflow planning not_reproducible = decision completed (record_completion ∷ [])
  workflow planning duplicate = decision completed (record_completion ∷ [])
  workflow planning abandon = decision abandoned (record_abandonment ∷ [])
  workflow planning human_narrowed_scope = decision planning (dispatch_planner ∷ [])
  workflow planning human_approved_stale_base = decision planning (dispatch_planner ∷ [])
  workflow waiting_human human_clarified = decision planning (dispatch_planner ∷ [])
  workflow escalated human_clarified = decision planning (dispatch_planner ∷ [])
  workflow ready_to_build builder_dispatched = decision building []
  workflow escalated native_review_retry_authorized = decision waiting_ci (observe_ci ∷ [])
  workflow reviewing review_coordination_recovery_authorized = decision waiting_ci (observe_ci ∷ [])
  workflow escalated review_coordination_recovery_authorized = decision waiting_ci (observe_ci ∷ [])
  workflow escalated remediation_budget_extended = decision waiting_ci (observe_ci ∷ [])
  workflow escalated infrastructure_recovery_authorized =
      if ltb context.remediation_round context.max_remediation_rounds
      then decision remediating (dispatch_builder ∷ [])
      else err (invalid_transition escalated infrastructure_recovery_authorized)
  workflow CaseState.blocked infrastructure_recovery_authorized =
      if ltb context.remediation_round context.max_remediation_rounds
      then decision remediating (dispatch_builder ∷ [])
      else err (invalid_transition CaseState.blocked infrastructure_recovery_authorized)
  workflow waiting_ci publication_retry_authorized =
      decision building (publish_draft_pull_request ∷ [])
  workflow reviewing publication_retry_authorized =
      decision building (publish_draft_pull_request ∷ [])
  workflow final_review publication_retry_authorized =
      decision building (publish_draft_pull_request ∷ [])
  workflow building build_recorded = decision building (publish_draft_pull_request ∷ [])
  workflow remediating build_recorded = decision remediating (publish_draft_pull_request ∷ [])
  workflow building review_ready = decision waiting_ci (observe_ci ∷ [])
  workflow remediating review_ready = decision waiting_ci (observe_ci ∷ [])
  workflow building return_to_planning = decision planning (dispatch_planner ∷ [])
  workflow remediating return_to_planning = decision planning (dispatch_planner ∷ [])
  workflow building human_reaffirmed_scope = decision ready_to_build (dispatch_builder ∷ [])
  workflow waiting_ci ci_accepted = decision reviewing (dispatch_reviewers ∷ [])
  workflow waiting_ci ci_failed =
      if spent
      then decision escalated (escalate ∷ [])
      else decision remediating (dispatch_builder ∷ [])
  workflow reviewing review_recorded = decision reviewing []
  workflow reviewing reviews_approved = decision final_review (publish_reviews ∷ [])
  workflow final_review reviews_published = decision final_review (observe_final_preflight ∷ [])
  workflow remediating reviews_published = decision remediating (dispatch_builder ∷ [])
  workflow final_review final_preflight_accepted =
      decision final_review (dispatch_final_reviewer ∷ [])
  workflow reviewing request_changes =
      if spent
      then decision escalated (publish_reviews ∷ escalate ∷ [])
      else decision remediating (publish_reviews ∷ [])
  workflow final_review ready =
      if is_shadow context.merge_mode
      then decision shadow_ready (notify_shadow_ready ∷ [])
      else decision ready_to_merge (begin_merge ∷ [])
  workflow final_review return_to_build = loop_back remediating dispatch_builder
  workflow final_review return_to_review = loop_back reviewing dispatch_reviewers
  workflow final_review return_to_planning = loop_back planning dispatch_planner
  workflow final_review wait_for_issue_creator = loop_back waiting_human hold_for_human
  workflow shadow_ready human_merged = decision completed (record_completion ∷ [])
  workflow ready_to_merge merge_started =
      if is_shadow context.merge_mode
      then err (invalid_transition ready_to_merge merge_started)
      else decision merging (execute_merge ∷ [])
  workflow merging merge_verified =
      if is_shadow context.merge_mode
      then err (invalid_transition merging merge_verified)
      else decision completed (record_completion ∷ [])
  workflow CaseState.blocked prerequisite_resolved = decision planning (dispatch_planner ∷ [])
  workflow building Event.blocked = decision CaseState.blocked (record_block ∷ [])
  workflow waiting_ci Event.blocked = decision CaseState.blocked (record_block ∷ [])
  workflow reviewing Event.blocked = decision CaseState.blocked (record_block ∷ [])
  workflow remediating Event.blocked = decision CaseState.blocked (record_block ∷ [])
  workflow final_review Event.blocked = decision CaseState.blocked (record_block ∷ [])
  workflow shadow_ready Event.blocked = decision CaseState.blocked (record_block ∷ [])
  workflow ready_to_merge Event.blocked = decision CaseState.blocked (record_block ∷ [])
  workflow merging Event.blocked = decision CaseState.blocked (record_block ∷ [])
  workflow building abandon = decision abandoned (record_abandonment ∷ [])
  workflow remediating abandon = decision abandoned (record_abandonment ∷ [])
  workflow final_review abandon = decision abandoned (record_abandonment ∷ [])
  workflow state event = err (invalid_transition state event)

  -- The event of any live state: takeover, loss of authorization, a bound, and the parked
  -- commands come before the workflow.
  live : CaseState → Event → Transition
  unfolding workflow resume
  live state human_took_over = decision taken_over (record_takeover ∷ [])
  live state authorization_removed = decision abandoned (record_abandonment ∷ [])
  live state blocked_unexpected_model = decision CaseState.blocked (record_block ∷ [])
  live state operational_bound_reached = decision escalated (escalate ∷ [])
  live state human_abandoned =
      if is_parked state
      then decision abandoned (record_abandonment ∷ [])
      else workflow state human_abandoned
  live state human_resumed =
      if is_parked state then resume state context.resume_target else workflow state human_resumed
  live state event = workflow state event

  -- The two corrections of a takeover, then the refusal of terminal states.
  settled : CaseState → Event → Transition
  settled state event =
      if is_taken_over state && is_human_merged event
      then decision completed (record_completion ∷ [])
      else if is_taken_over state && is_follow_up event
      then decision planning (dispatch_planner ∷ [])
      else if is_terminal state
      then err (terminal_state state)
      else live state event

unfoldable pub transition : CaseState → Event → TransitionContext → Transition
unfolding settled live
transition state event context =
    if context.max_remediation_rounds == 0
    then err invalid_loop_bound
    else settled context state event
