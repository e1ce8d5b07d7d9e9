-- ===== src/Core/StateMachine/Safety.antt =====
-- What every single transition of crates/pip-core/src/state_machine.rs keeps.
use agent_p1p.Prelude.{
  ℕ, ◌<◌, ◌≡◌, ◌≢◌, ◌↔◌, ◌⊎◌, Bool, true, false, some, List, [], ◌∷◌, All, arith, subst, ok, Result,
  err, ◌&&◌, ◌==◌, if◌then◌else◌,
}
use agent_p1p.Core.StateMachine.{
  CaseState, planning, waiting_human, ready_to_build, building, waiting_ci, reviewing, remediating,
  final_review, shadow_ready, ready_to_merge, merging, completed, escalated, abandoned, taken_over,
  Event, human_merged, human_resumed, human_took_over, merge_started, follow_up_recovery_authorized,
  operational_bound_reached, authorization_removed, blocked_unexpected_model, TransitionContext,
  TransitionDecision, guarded, is_terminal, is_parked, transition, is_taken_over, is_human_merged,
  is_follow_up, live, workflow, Transition, Effect, dispatch_planner, publish_plan,
  dispatch_builder, publish_draft_pull_request, observe_ci, dispatch_reviewers, publish_reviews,
  observe_final_preflight, dispatch_final_reviewer, hold_for_human, notify_shadow_ready,
  begin_merge, execute_merge, record_completion, record_abandonment, record_block, record_takeover,
  escalate, TransitionError, invalid_loop_bound, terminal_state, invalid_transition,
}

-- A transition into `Merging` starts in `ReadyToMerge`, at `MergeStarted`, in guarded mode.
pub merging_guarded :
    (s : CaseState) (e : Event) (c : TransitionContext) (d : TransitionDecision)
    → transition s e c ≡ ok d
    → d.next_state ≡ merging
    → (s ≡ ready_to_merge) × (e ≡ merge_started) × (c.merge_mode ≡ guarded)
unfolding transition
merging_guarded s e c d h m = ground arith

-- A terminal state is left only from `TakenOver`: by `HumanMerged` to `Completed`, or by
-- `FollowUpRecoveryAuthorized` to `Planning`.
pub terminal_exits :
    (s : CaseState) (e : Event) (c : TransitionContext) (d : TransitionDecision)
    → is_terminal s ≡ true
    → transition s e c ≡ ok d
    → (s ≡ taken_over)
      × (((e ≡ human_merged) × (d.next_state ≡ completed))
          ⊎ ((e ≡ follow_up_recovery_authorized) × (d.next_state ≡ planning)))
unfolding transition
terminal_exits s e c d t h = ground arith

-- A case enters `Remediating` from another state with a round left in its budget, or because a
-- human resumed it there.
pub remediating_in_budget :
    (s : CaseState) (e : Event) (c : TransitionContext) (d : TransitionDecision)
    → transition s e c ≡ ok d
    → d.next_state ≡ remediating
    → s ≢ remediating
    → (c.remediation_round < c.max_remediation_rounds)
      ⊎ ((e ≡ human_resumed) × (is_parked s ≡ true) × (c.resume_target ≡ some remediating))
unfolding transition
remediating_in_budget s e c d h m n = ground arith

-- The effects with which a case may arrive in a state.
abbrev pub Arrives : CaseState → Effect → Type 0
Arrives planning fx = (fx ≡ dispatch_planner) ⊎ (fx ≡ publish_plan)
Arrives waiting_human fx = fx ≡ hold_for_human
Arrives ready_to_build fx = fx ≡ dispatch_builder
Arrives building fx = fx ≡ publish_draft_pull_request
Arrives waiting_ci fx = fx ≡ observe_ci
Arrives reviewing fx = fx ≡ dispatch_reviewers
Arrives remediating fx =
    (fx ≡ dispatch_builder) ⊎ (fx ≡ publish_draft_pull_request) ⊎ (fx ≡ publish_reviews)
Arrives final_review fx =
    (fx ≡ publish_reviews) ⊎ (fx ≡ observe_final_preflight) ⊎ (fx ≡ dispatch_final_reviewer)
Arrives shadow_ready fx = fx ≡ notify_shadow_ready
Arrives ready_to_merge fx = fx ≡ begin_merge
Arrives merging fx = fx ≡ execute_merge
Arrives completed fx = fx ≡ record_completion
Arrives CaseState.blocked fx = fx ≡ record_block
Arrives escalated fx = (fx ≡ publish_reviews) ⊎ (fx ≡ escalate)
Arrives abandoned fx = fx ≡ record_abandonment
Arrives taken_over fx = fx ≡ record_takeover

-- Every effect of a transition belongs to the state in which the case arrives.
pub effects_arrive :
    (s : CaseState) (e : Event) (c : TransitionContext) (d : TransitionDecision)
    → transition s e c ≡ ok d
    → All (Arrives d.next_state) d.effects
unfolding transition
effects_arrive s e c d h = ground arith

-- A refusal by the workflow is the undefined transition of its state and event.
abbrev Refuses : CaseState → Event → Transition → Type 0
Refuses s e (ok _) = Unit
Refuses s e (err x) = x ≡ invalid_transition s e

workflow-Refuses :
    (c : TransitionContext) (s : CaseState) (e : Event) → Refuses s e (workflow c s e)
unfolding workflow
workflow-Refuses c s e = ground arith

live-Refuses : (c : TransitionContext) (s : CaseState) (e : Event) → Refuses s e (live c s e)
unfolding live
live-Refuses c s e = ground (arith, workflow-Refuses c s e)

live_error :
    (c : TransitionContext) (s : CaseState) (e : Event) (x : TransitionError)
    → live c s e ≡ err x
    → x ≡ invalid_transition s e
live_error c s e x h = subst (Refuses s e) h (live-Refuses c s e)

-- The shape of the code before the workflow, with its three refusals.
refusal_cases :
    {A E : Type 0} (n : ℕ) (a b t : Bool) (d d' : A) (m : Result A E)
    (unbounded stopped undefined x : E)
    → (m ≡ err x → x ≡ undefined)
    → (if n == 0
        then err unbounded
        else if a
        then ok d
        else if b
        then ok d'
        else if t
        then err stopped
        else m)
      ≡ err x
    → ((x ≡ unbounded) × (n ≡ 0))
      ⊎ ((x ≡ stopped) × (t ≡ true) × (0 < n))
      ⊎ ((x ≡ undefined) × (t ≡ false) × (0 < n))
refusal_cases n a b t d d' m unbounded stopped undefined x inner h = ground arith

-- The errors: an empty budget is refused before anything else, a terminal state next, and an
-- undefined transition names the state and the event that it was given.
pub error_cases :
    (s : CaseState) (e : Event) (c : TransitionContext) (x : TransitionError)
    → transition s e c ≡ err x
    → ((x ≡ invalid_loop_bound) × (c.max_remediation_rounds ≡ 0))
      ⊎ ((x ≡ terminal_state s) × (is_terminal s ≡ true) × (0 < c.max_remediation_rounds))
      ⊎ ((x ≡ invalid_transition s e) × (is_terminal s ≡ false) × (0 < c.max_remediation_rounds))
unfolding transition
error_cases s e c x h =
    refusal_cases c.max_remediation_rounds (is_taken_over s && is_human_merged e)
      (is_taken_over s && is_follow_up e) (is_terminal s)
      (record { next_state = completed; effects = record_completion ∷ [] })
      (record { next_state = planning; effects = dispatch_planner ∷ [] }) (live c s e)
      invalid_loop_bound (terminal_state s) (invalid_transition s e) x (live_error c s e x) h

-- From every live state the four control events lead to their state, whatever the workflow does.
pub control_events :
    (s : CaseState) (c : TransitionContext)
    → is_terminal s ≡ false
    → 0 < c.max_remediation_rounds
    → (transition s human_took_over c
        ≡ ok (record { next_state = taken_over; effects = record_takeover ∷ [] }))
      × (transition s authorization_removed c
          ≡ ok (record { next_state = abandoned; effects = record_abandonment ∷ [] }))
      × (transition s blocked_unexpected_model c
          ≡ ok (record { next_state = CaseState.blocked; effects = record_block ∷ [] }))
      × (transition s operational_bound_reached c
          ≡ ok (record { next_state = escalated; effects = escalate ∷ [] }))
unfolding transition
control_events s c t p = ground arith

-- The states to which a parked case may be resumed, each with the work that it starts.
abbrev pub Restarts : CaseState → List Effect → Type 0
Restarts planning fx = fx ≡ dispatch_planner ∷ []
Restarts ready_to_build fx = fx ≡ dispatch_builder ∷ []
Restarts remediating fx = fx ≡ dispatch_builder ∷ []
Restarts waiting_ci fx = fx ≡ observe_ci ∷ []
Restarts _ fx = ⊥

-- `HumanResumed` is accepted exactly with a budget of remediation rounds, in a parked state, and with
-- a target that can be restarted; the case then stands in that target, and its work is started.
pub resume_iff :
    (s : CaseState) (c : TransitionContext) (d : TransitionDecision)
    → (transition s human_resumed c ≡ ok d) ↔ (
        (0 < c.max_remediation_rounds)
        × (is_parked s ≡ true)
        × (c.resume_target ≡ some d.next_state)
        × Restarts d.next_state d.effects)
unfolding transition
resume_iff s c d = (λ h. ground arith, λ h. ground arith)
