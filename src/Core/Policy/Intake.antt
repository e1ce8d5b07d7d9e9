-- ===== src/Core/Policy/Intake.antt =====
-- What the intake decision of crates/pip-core/src/policy.rs says of policy and issue.
use text.Mathlib.Text.{◌==◌ as str_eq}
use text.Mathlib.TextEquality.{eq_iff}
use mathlib.Core.List.{Memᴰ}
use agent_p1p.Prelude.{
  ℕ, ◌<◌, ◌≡◌, ◌↔◌, refl, Bool, true, false, not, ◌&&◌, Option, none, some, List, [], ◌∷◌, leb,
  ◌==◌, ==_iff, if◌then◌else◌, arith, is_empty, is_none_or, any_mem, mem_any, filter, filter-cons,
  push_if-append, append_assoc, append-nil, not-eq-false_iff, push_if-eq-nil_iff,
}
use agent_p1p.Core.Policy.{
  IntakePolicy, IssueObservation, IntakeBlocker, intake_disabled, global_paused, repository_paused,
  dispatch_disabled, issue_closed, pull_request, required_label_missing, untrusted_label_actor,
  excluded, held, already_owned, assigned_to_other, repository_limit_reached, global_limit_reached,
  all_blockers, IntakeDecision, eligible, ineligible, has_label, is_trusted, intake_blockers,
  evaluate_intake,
}

-- The last actor that set the label is one of the trusted ones.
abbrev pub SetByTrusted : List ℕ → Option ℕ → Type 0
SetByTrusted actors none = ⊥
SetByTrusted actors (some actor) = Memᴰ actor actors

pub record IsEligible (p : IntakePolicy) (o : IssueObservation) : Type 0 where
  pub enabled : p.intake_enabled ≡ true
  pub running : (p.global_paused ≡ false) × (p.repository_paused ≡ false)
  pub dispatching : p.dispatch_enabled ≡ true
  pub an_open_issue : (o.is_open ≡ true) × (o.is_pull_request ≡ false)
  pub labelled : Memᴰ p.required_label o.labels
  pub trusted : SetByTrusted p.trusted_actor_ids o.latest_label_actor_id
  pub free :
      (o.excluded ≡ false)
      × (o.held ≡ false)
      × (o.already_owned ≡ false)
      × (o.assigned_to_other ≡ false)
  pub repository_room : o.repository_active_cases < p.repository_active_limit
  pub global_room : o.global_active_cases < p.global_active_limit

-- The condition of each blocker.
abbrev pub blocks : IntakePolicy → IssueObservation → IntakeBlocker → Bool
blocks p o intake_disabled = not p.intake_enabled
blocks p o global_paused = p.global_paused
blocks p o repository_paused = p.repository_paused
blocks p o dispatch_disabled = not p.dispatch_enabled
blocks p o issue_closed = not o.is_open
blocks p o pull_request = o.is_pull_request
blocks p o required_label_missing = not (has_label p.required_label o.labels)
blocks p o untrusted_label_actor =
    has_label p.required_label o.labels
    && is_none_or (λ actor. not (is_trusted p.trusted_actor_ids actor)) o.latest_label_actor_id
blocks p o excluded = o.excluded
blocks p o held = o.held
blocks p o already_owned = o.already_owned
blocks p o assigned_to_other = o.assigned_to_other
blocks p o repository_limit_reached = leb p.repository_active_limit o.repository_active_cases
blocks p o global_limit_reached = leb p.global_active_limit o.global_active_cases

blockers_filter :
    (p : IntakePolicy) (o : IssueObservation)
    → intake_blockers p o ≡ filter (blocks p o) all_blockers
unfolding intake_blockers
blockers_filter p o = simp (push_if-append, filter-cons, append_assoc, append-nil)

-- The decision on a list of blockers.
abbrev decide : List IntakeBlocker → IntakeDecision
decide [] = eligible
decide (b ∷ bs) = ineligible (b ∷ bs)

-- An issue is refused for exactly the blockers whose conditions hold, each once and in the order
-- of `ALL`, and is accepted if there are none.
evaluate_intake-eq-decide :
    (p : IntakePolicy) (o : IssueObservation)
    → evaluate_intake p o ≡ decide (filter (blocks p o) all_blockers)
unfolding evaluate_intake
evaluate_intake-eq-decide p o =
    rw (blockers_filter p o) (by_cases (filter (blocks p o) all_blockers))
  where
    by_cases :
        (bs : List IntakeBlocker) → (if is_empty bs then eligible else ineligible bs) ≡ decide bs
    by_cases [] = refl
    by_cases (b ∷ bs) = refl

actor_trusted :
    (actors : List ℕ) (last : Option ℕ)
    → (is_none_or (λ actor. not (is_trusted actors actor)) last ≡ false) ↔ SetByTrusted actors last
actor_trusted actors none = (λ h. cc, λ h. absurd h)
actor_trusted actors (some actor) = (
  λ h. any_mem ◌==◌ ==_iff actor actors ((not-eq-false_iff _).0 h),
  λ m. (not-eq-false_iff _).1 (mem_any ◌==◌ ==_iff m),
)

eligible_of_nil :
    (bs : List IntakeBlocker)
    → ((if is_empty bs then eligible else ineligible bs) ≡ eligible) ↔ (bs ≡ [])
eligible_of_nil [] = (λ h. refl, λ h. refl)
eligible_of_nil (b ∷ bs) = (λ h. cc, λ h. cc)

-- An issue becomes a case exactly if intake and dispatch are on and unpaused, it is an open issue
-- with the required label set last by a trusted actor, nobody else has it, and there is room.
pub eligible_iff :
    (p : IntakePolicy) (o : IssueObservation) → (evaluate_intake p o ≡ eligible) ↔ IsEligible p o
unfolding evaluate_intake intake_blockers
eligible_iff p o =
    simp (eligible_of_nil, push_if-eq-nil_iff, not-eq-false_iff)
      (
        λ h.
            let present : has_label p.required_label o.labels ≡ true = ground arith in
            record {
              enabled = ground arith;
              running = ground arith;
              dispatching = ground arith;
              an_open_issue = ground arith;
              labelled = any_mem str_eq eq_iff p.required_label o.labels present;
              trusted =
                  (actor_trusted p.trusted_actor_ids o.latest_label_actor_id).0 (ground arith);
              free = ground arith;
              repository_room = ground arith;
              global_room = ground arith;
            },
        λ h.
            let present : has_label p.required_label o.labels ≡ true =
              mem_any str_eq eq_iff h.labelled in
            let trusted = (actor_trusted p.trusted_actor_ids o.latest_label_actor_id).1 h.trusted in
            ground arith,
      )
