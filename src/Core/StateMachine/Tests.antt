-- ===== src/Core/StateMachine/Tests.antt =====
-- Runs of the state machine on concrete cases, and the theorems applied to them.
use agent_p1p.Prelude.{◌<◌, ◌≡◌, ◌↔◌, ◌⊎◌, refl, true, false, none, some, List, [], ◌∷◌, arith, ok}
use agent_p1p.Core.StateMachine.{
  planning, waiting_ci, reviewing, remediating, shadow_ready, merging, completed, escalated, Event,
  proceed, builder_dispatched, review_ready, ci_accepted, ci_failed, reviews_approved,
  reviews_published, final_preflight_accepted, ready, human_resumed, request_changes,
  TransitionContext, TransitionDecision, shadow, guarded, transition, is_parked, dispatch_builder,
  publish_reviews, escalate,
}
use agent_p1p.Core.StateMachine.Safety.{remediating_in_budget, Restarts, resume_iff}
use agent_p1p.Core.StateMachine.Runs.{
  run, run_shadow, is_merge_state, InOrder, run_gates, under, recovery, recovery_completes,
}

-- The default context: three rounds, shadow mode.
abbrev fresh : TransitionContext
fresh = record {
  remediation_round = 0;
  max_remediation_rounds = 3;
  merge_mode = shadow;
  resume_target = none;
}

abbrev spent : TransitionContext
spent = record fresh { remediation_round = 3 }

abbrev merging_on : TransitionContext
merging_on = record fresh { merge_mode = guarded }

abbrev to_builder : TransitionContext
to_builder = record fresh { resume_target = some remediating }

abbrev accepted : List Event
accepted =
    proceed ∷ builder_dispatched ∷ review_ready ∷ ci_accepted ∷ reviews_approved ∷ reviews_published
    ∷ final_preflight_accepted ∷ ready ∷ []

accepted_run : run planning (under fresh accepted) ≡ ok shadow_ready
unfolding run transition
accepted_run = refl

budget_spent :
    transition reviewing request_changes spent
    ≡ ok (record { next_state = escalated; effects = publish_reviews ∷ escalate ∷ [] })
unfolding transition
budget_spent = refl

remediating_in_budget_example :
    (0 < 3)
    ⊎ ((ci_failed ≡ human_resumed)
        × (is_parked waiting_ci ≡ true)
        × (fresh.resume_target ≡ some remediating))
unfolding transition
remediating_in_budget_example =
    remediating_in_budget waiting_ci ci_failed fresh
      (record { next_state = remediating; effects = dispatch_builder ∷ [] }) refl refl (λ e. cc)

abbrev resumed : TransitionDecision
resumed = record { next_state = remediating; effects = dispatch_builder ∷ [] }

resume_iff_example : (transition escalated human_resumed to_builder ≡ ok resumed) ↔ (
    (0 < to_builder.max_remediation_rounds)
    × (is_parked escalated ≡ true)
    × (to_builder.resume_target ≡ some resumed.next_state)
    × Restarts resumed.next_state resumed.effects)
resume_iff_example = resume_iff escalated to_builder resumed

run_shadow_example : is_merge_state shadow_ready ≡ false
run_shadow_example =
    run_shadow planning (under fresh accepted) shadow_ready (ground arith) refl accepted_run

run_gates_example : InOrder (ci_accepted ∷ reviews_approved ∷ ready ∷ []) (under fresh accepted)
run_gates_example = run_gates planning (under fresh accepted) shadow_ready refl accepted_run refl

recovery_completes_example : run merging (under spent recovery) ≡ ok completed
recovery_completes_example = recovery_completes merging spent refl refl (omega arith)
