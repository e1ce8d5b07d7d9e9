-- ===== src/Controller/Results/Accepted.antt =====
-- The events of crates/pip-controller/src/results.rs beside the state machine of crates/pip-core.
use text.Mathlib.Text.{◌==◌ as str_eq}
use text.Mathlib.TextEquality.{eq_iff}
use agent_p1p.Prelude.{
  ◌≢◌, ◌≡◌, inl, inr, refl, sym, ◌∙◌, arith, String, Bool, true, false, Bool-cases, Option, ◌&&◌,
  none, some, List, ok, err, is_ok, >>=-eq-ok, >>-eq-ok, [], ◌∷◌, ◌++◌, ◌||◌, if◌then◌else◌,
}
use agent_p1p.Core.StateMachine.{
  CaseState, planning, building, remediating, reviewing, final_review, Event, TransitionContext,
  transition,
}
use agent_p1p.Core.StateMachine.Wire.{state_name}
use agent_p1p.Core.StateMachine.Wire.RoundTrip.{state_name-injective}
use agent_p1p.Contracts.{reviewer_general, reviewer_secperf}
use agent_p1p.Controller.Reviews.{invalid_state}
use agent_p1p.Contracts.{
  PlannerOutcome, BuilderOutcome, ReviewOutcome, approve, request_changes, blocked,
  blocked_unexpected_model, ReviewResult, FinalOutcome, WorkerResult, of_planner, of_builder,
  of_review, of_final,
}
use agent_p1p.Controller.Reviews.{
  Joined, join_review, gather, collect_ids, find_role, verdict, by_policy, by_pair,
}
use agent_p1p.Controller.Results.{
  MappedEvent, only_event, planner_event, builder_event, final_event, review_event, map_event,
}

-- The state machine defines this event here.
abbrev pub IsDefined : CaseState → TransitionContext → Event → Type 0
IsDefined s c e = is_ok (transition s e c) ≡ true

planner-IsDefined :
    (o : PlannerOutcome) (c : TransitionContext)
    → c.max_remediation_rounds ≢ 0
    → IsDefined planning c (planner_event o)
unfolding transition
planner-IsDefined o c n = ground arith

builder-IsDefined :
    (o : BuilderOutcome) (c : TransitionContext)
    → c.max_remediation_rounds ≢ 0
    → IsDefined building c (builder_event o) × IsDefined remediating c (builder_event o)
unfolding transition
builder-IsDefined o c n = ground arith

final-IsDefined :
    (o : FinalOutcome) (c : TransitionContext)
    → c.max_remediation_rounds ≢ 0
    → IsDefined final_review c (final_event o)
unfolding transition
final-IsDefined o c n = ground arith

both_hold : (a b : Bool) → (a && b) ≡ true → (a ≡ true) × (b ≡ true)
both_hold a b h = ground arith

-- A state with this name is this state.
named :
    (s t : CaseState) (name : String)
    → state_name t ≡ name
    → str_eq (state_name s) name ≡ true
    → s ≡ t
named s t name e h = state_name-injective s t ((eq_iff (state_name s) name).0 h ∙ sym e)

review-IsDefined :
    (c : TransitionContext) (n : c.max_remediation_rounds ≢ 0) (o : ReviewOutcome)
    (joined : Joined Event) (e : Event)
    → ((e' : Event) → joined ≡ ok e' → IsDefined reviewing c e')
    → review_event o joined ≡ ok e
    → IsDefined reviewing c e
unfolding transition
review-IsDefined c n approve joined e d h = d e h
review-IsDefined c n request_changes joined e d h = d e h
review-IsDefined c n blocked joined e d h = ground arith
review-IsDefined c n blocked_unexpected_model joined e d h = ground arith

-- An event that is returned behind a test of the state.
guarded_event :
    (at : Bool) (mapped : Joined MappedEvent) (m : MappedEvent)
    → (if at then mapped else err invalid_state) ≡ ok m
    → (at ≡ true) × (mapped ≡ ok m)
guarded_event true mapped m h = (refl, h)
guarded_event false mapped m h = cc

only_event_lem : (e : Event) (m : MappedEvent) → only_event e ≡ ok m → m.event ≡ e
only_event_lem e m h = ground arith

module _ {Value : Type 0} (c : TransitionContext) (n : c.max_remediation_rounds ≢ 0) where
  verdict-IsDefined :
      (required : List String) (rs : List (ReviewResult Value)) (e : Event)
      → verdict required rs ≡ ok e
      → IsDefined reviewing c e
  unfolding verdict transition
  verdict-IsDefined required rs e h = ground arith

  pair-IsDefined :
      (general secperf : Option (ReviewResult Value)) (rs : List (ReviewResult Value)) (e : Event)
      → by_pair general secperf rs ≡ ok e
      → IsDefined reviewing c e
  unfolding by_pair transition
  pair-IsDefined none secperf rs e h = ground arith
  pair-IsDefined (some general) none rs e h = ground arith
  pair-IsDefined (some general) (some secperf) rs e h = verdict-IsDefined _ rs e h

  policy-IsDefined :
      (policy : Option (List (Option String))) (rs : List (ReviewResult Value)) (e : Event)
      → by_policy policy rs ≡ ok e
      → IsDefined reviewing c e
  unfolding by_policy
  policy-IsDefined none rs e h =
      pair-IsDefined (find_role reviewer_general rs) (find_role reviewer_secperf rs) rs e h
  policy-IsDefined (some reviewers) rs e h =
      let (required, _, h1) = >>=-eq-ok (collect_ids reviewers) (λ r. verdict r rs) h in
      verdict-IsDefined required rs e h1

  join-IsDefined :
      (decode : Value → Joined (WorkerResult Value)) (payloads : List Value)
      (policy : Option (List (Option String))) (current : ReviewResult Value) (e : Event)
      → join_review decode payloads policy current ≡ ok e
      → IsDefined reviewing c e
  unfolding join_review by_policy
  join-IsDefined decode payloads policy current e h =
      let (earlier, _, h1) = >>=-eq-ok (gather decode current payloads) _ h in
      let (_, h2) = >>-eq-ok _ (by_policy policy (earlier ++ current ∷ [])) h1 in
      policy-IsDefined policy (earlier ++ current ∷ []) e h2

  -- A worker's result is only taken as an event that the state machine defines in the state of the
  -- case, whatever the merge mode and the round, under every budget but zero.
  pub mapped_event-IsDefined :
      (decode : Value → Joined (WorkerResult Value)) (s : CaseState) (latest : Option String)
      (payloads : List Value) (policy : Option (List (Option String))) (result : WorkerResult Value)
      (m : MappedEvent)
      → map_event decode (state_name s) latest payloads policy result ≡ ok m
      → IsDefined s c m.event
  unfolding map_event state_name
  mapped_event-IsDefined decode s latest payloads policy (of_planner r) m h =
      let (at, mapped) = guarded_event _ _ m h in
      rw (only_event_lem (planner_event r.outcome) m mapped, named s planning "PLANNING" refl at)
        (planner-IsDefined r.outcome c n)
  mapped_event-IsDefined decode s latest payloads policy (of_builder r) m h =
      let (at, mapped) =
        guarded_event (str_eq (state_name s) "BUILDING" || str_eq (state_name s) "REMEDIATING") _ m
          h in
      let same = only_event_lem (builder_event r.outcome) m mapped in
      let (here, there) = builder-IsDefined r.outcome c n in
      elim (Bool-cases (str_eq (state_name s) "BUILDING")) [
        | inl first ↦ rw (same, named s building "BUILDING" refl first) here
        | inr other ↦ rw (same, named s remediating "REMEDIATING" refl (rw other at at)) there
      ]
  mapped_event-IsDefined decode s latest payloads policy (of_review r) m h =
      let (at, mapped) = guarded_event _ _ m h in
      let (e, joined, only) =
        >>=-eq-ok (review_event r.outcome (join_review decode payloads policy r)) only_event
          mapped in
      rw (only_event_lem e m only, named s reviewing "REVIEWING" refl at)
        (review-IsDefined c n r.outcome _ e (join-IsDefined decode payloads policy r) joined)
  mapped_event-IsDefined decode s latest payloads policy (of_final r) m h =
      let (at, mapped) = guarded_event _ _ m h in
      let (here, _) = both_hold _ _ at in
      rw
        (
          only_event_lem (final_event r.outcome) m mapped,
          named s final_review "FINAL_REVIEW" refl here,
        )
        (final-IsDefined r.outcome c n)
