-- ===== src/Controller/Ledger/Transition/Rounds.antt =====
-- crates/pip-controller/src/ledger.rs: what a prepared transition says of its command, its plan
-- version and its remediation round.
use agent_p1p.Prelude.{
  ℕ, ◌+◌, ◌<◌, ◌≡◌, ◌≢◌, ◌⊎◌, inl, inr, refl, ok_injective, ◌↔◌, err, ◌==◌, if◌then◌else◌, String,
  subst, arith, Bool, true, false, Option, none, some, Result, ok, >>=-eq-ok, map_err,
}
use agent_p1p.Core.Domain.{case_key}
use agent_p1p.Core.StateMachine.{
  CaseState, remediating, proceed, human_resumed, transition, Event, TransitionDecision,
}
use agent_p1p.Core.StateMachine.Wire.{state_name, event_name}
use agent_p1p.Core.StateMachine.Safety.{remediating_in_budget}
use agent_p1p.Core.Revision.{CasePolicy, CommandError, evaluate_case_command, context_of}
use agent_p1p.Core.Revision.Commands.{evaluate_iff}
use agent_p1p.Controller.Ledger.{
  Json, WorkflowCommand, TransitionInput, ControllerError, core, Prepared, plan_number,
  is_remediating, is_proceed, invalid_command, is_human_resumed, saturating_add_u32,
}
use agent_p1p.Controller.Ledger.Transition.{
  snapshot_of, command_of, next_plan_version, next_round, next_head_binding, resume_target,
  transition_input,
}

core_ok :
    {A S : Type 0} (r : Result A CommandError) {a : A}
    → map_err {F = ControllerError S} core r ≡ ok a
    → r ≡ ok a
core_ok r h = ground arith

is_remediating_iff : (s : CaseState) → (is_remediating s ≡ true) ↔ (s ≡ remediating)
is_remediating_iff s = (λ h. ground arith, λ h. ground arith)

is_human_resumed_iff : (e : Event) → (is_human_resumed e ≡ true) ↔ (e ≡ human_resumed)
is_human_resumed_iff e = (λ h. ground arith, λ h. ground arith)

is_proceed_iff : (e : Event) → (is_proceed e ≡ true) ↔ (e ≡ proceed)
is_proceed_iff e = (λ h. ground arith, λ h. ground arith)

-- The plan version by the version that was accepted, whatever the command.
plan_cases :
    {S : Type 0} (accepted : Option ℕ) (current next : ℕ) (proceeds : Bool) (m1 m2 : String) (n : ℕ)
    → ◌≡◌ {A = Prepared S ℕ}
        (elim accepted [
          | some a ↦ if a == next then ok a else err (invalid_command m1)
          | none ↦ if proceeds then err (invalid_command m2) else ok current
        ])
        (ok n)
    → ((n ≡ current) × (accepted ≡ none) × (proceeds ≡ false)) ⊎ ((accepted ≡ some n) × (n ≡ next))
plan_cases none current next proceeds m1 m2 n h = ground arith
plan_cases (some a) current next proceeds m1 m2 n h = ground arith

module _ {Value Run Evidence Finding : Type 0} (StoreError : Type 0) where
  -- Where a prepared transition comes from: the decision of the core on the command with its
  -- resume target, and the plan version, round and head that are computed beside it.
  pub record IsPrepared (json : Json Value) (policy : CasePolicy)
      (w : WorkflowCommand Value Run Evidence Finding)
      (t : TransitionInput Value Run Evidence Finding) (target : Option CaseState)
      (d : TransitionDecision) : Type 0 where
    pub decided :
        transition w.expected_state w.event
          (context_of (snapshot_of w) (command_of w target) policy)
        ≡ ok d
    pub plan : next_plan_version {StoreError = StoreError} w ≡ ok t.plan_version
    pub round : next_round {StoreError = StoreError} w d.next_state ≡ ok t.remediation_round
    pub head : next_head_binding {StoreError = StoreError} w ≡ ok (t.pr_number, t.head_sha)
    pub state : t.next_state ≡ state_name d.next_state
    pub revision : t.expected_revision ≡ w.expected_state_revision
    pub key : t.case_key ≡ case_key w.case_id
    pub kind : t.event.event_type ≡ event_name w.event
    pub named : t.event.event_id ≡ w.event_id
    pub run : t.run ≡ w.run

module _ {Value Run Evidence Finding StoreError : Type 0} where
  pub prepared :
      (json : Json Value) (policy : CasePolicy) (w : WorkflowCommand Value Run Evidence Finding)
      (t : TransitionInput Value Run Evidence Finding)
      → transition_input {StoreError = StoreError} json policy w ≡ ok t
      → (target : Option CaseState) × (d : TransitionDecision) × IsPrepared StoreError json policy w
          t target d
  unfolding transition_input
  prepared json policy w t h =
      let (target, _, h1) = >>=-eq-ok (resume_target json w) _ h in
      let (evaluated, e, h2) =
        >>=-eq-ok
          (map_err core (evaluate_case_command (snapshot_of w) (command_of w target) policy)) _
          h1 in
      let (plan, p, h3) = >>=-eq-ok (next_plan_version w) _ h2 in
      let (round, r, h4) = >>=-eq-ok (next_round w evaluated.transition.next_state) _ h3 in
      let (binding, b, h5) = >>=-eq-ok (next_head_binding w) _ h4 in
      let (_, decided, _, _, _, _, _, _) =
        (evaluate_iff (snapshot_of w) (command_of w target) policy evaluated).0 (core_ok _ e) in
      (
        target,
        evaluated.transition,
        subst (λ t. IsPrepared StoreError json policy w t target evaluated.transition)
            (ok_injective h5)
            (record {
              decided = decided;
              plan = p;
              round = r;
              head = b;
              state = refl;
              revision = refl;
              key = refl;
              kind = refl;
              named = refl;
              run = refl;
            }),
      )

  -- The round after a transition, by the state in which the case arrives.
  round_cases :
      (w : WorkflowCommand Value Run Evidence Finding) (s : CaseState) (n : ℕ)
      → next_round {StoreError = StoreError} w s ≡ ok n
      → (n ≡ w.remediation_round)
        ⊎ ((n ≡ w.remediation_round + 1)
            × (s ≡ remediating)
            × (w.expected_state ≢ remediating)
            × (w.event ≢ human_resumed))
  unfolding next_round
  round_cases w s n h = ground (
    arith,
    is_remediating_iff s,
    is_remediating_iff w.expected_state,
    is_human_resumed_iff w.event,
  )

  -- A transition spends at most one remediation round, and it spends one only if the budget has one
  -- left and the case arrives in REMEDIATING.
  pub round_spent :
      (json : Json Value) (policy : CasePolicy) (w : WorkflowCommand Value Run Evidence Finding)
      (t : TransitionInput Value Run Evidence Finding)
      → transition_input {StoreError = StoreError} json policy w ≡ ok t
      → (t.remediation_round ≡ w.remediation_round)
        ⊎ ((t.remediation_round ≡ w.remediation_round + 1)
            × (w.remediation_round < policy.max_remediation_rounds)
            × (t.next_state ≡ state_name remediating))
  round_spent json policy w t h =
      let (target, d, from) = prepared json policy w t h in
      elim (round_cases w d.next_state t.remediation_round from.round) [
        | inl same ↦ inl same
        | inr (more, arrives, moves, human) ↦ inr (
          more,
          ground (
            arith,
            remediating_in_budget w.expected_state w.event
                (context_of (snapshot_of w) (command_of w target) policy) d from.decided arrives
                moves,
          ),
          rw (from.state, arrives),
        )
      ]

  -- The plan version is the case's own, or the accepted one, which is the next; a planner that
  -- proceeds always brings the next.
  plan_advances :
      (json : Json Value) (policy : CasePolicy) (w : WorkflowCommand Value Run Evidence Finding)
      (t : TransitionInput Value Run Evidence Finding)
      → transition_input {StoreError = StoreError} json policy w ≡ ok t
      → ((t.plan_version ≡ plan_number w.plan_version)
          × (w.accepted_plan_version ≡ none)
          × (w.event ≢ proceed))
        ⊎ ((w.accepted_plan_version ≡ some t.plan_version)
            × (t.plan_version ≡ saturating_add_u32 (plan_number w.plan_version) 1))
  unfolding next_plan_version
  plan_advances json policy w t h =
      let (target, d, from) = prepared json policy w t h in
      elim (plan_cases w.accepted_plan_version _ _ (is_proceed w.event) _ _ t.plan_version
        from.plan) [
          | inl (same, unaccepted, other) ↦
              inl (same, unaccepted, λ e. ground (arith, is_proceed_iff w.event))
          | inr next ↦ inr next
        ]
