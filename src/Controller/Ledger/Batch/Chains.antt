-- ===== src/Controller/Ledger/Batch/Chains.antt =====
-- crates/pip-controller/src/ledger.rs: a prepared batch is a run of the state machine, with
-- consecutive revisions and in the budget of rounds.
use text.Mathlib.TextEquality.{eq_iff}
use agent_p1p.Prelude.{
  ℕ, ◌+◌, ◌≡◌, refl, sym, ◌∙◌, ap, subst, arith, Option, none, some, String, List, [], ◌∷◌, All, ok,
  >>=-eq-ok, >>-eq-ok, ok_injective,
}
use agent_p1p.Core.StateMachine.{CaseState, Event, TransitionContext, TransitionDecision}
use agent_p1p.Core.StateMachine.Runs.{run}
use agent_p1p.Core.StateMachine.Wire.{state_name}
use agent_p1p.Core.StateMachine.Wire.RoundTrip.{state_name-injective}
use agent_p1p.Core.Revision.{CasePolicy, context_of}
use agent_p1p.Controller.Ledger.{Json, WorkflowCommand, TransitionInput}
use agent_p1p.Controller.Ledger.Transition.{snapshot_of, command_of, transition_input}
use agent_p1p.Controller.Ledger.Transition.Rounds.{IsPrepared, prepared}
use agent_p1p.Controller.Ledger.Batch.{
  validate_consecutive, validate_workflow_shape, after_previous, prepare_from, prepare_batch,
  effective_policy, validate_workflow, Store,
}

-- The context of a command under this policy.
abbrev pub IsUnder : CasePolicy → Event × TransitionContext → Type 0
IsUnder policy (e, c) =
    (c.merge_mode ≡ policy.merge_mode) × (c.max_remediation_rounds ≡ policy.max_remediation_rounds)

module _ {Value Run Evidence Finding : Type 0} where
  -- The name of the state after some transitions.
  abbrev pub final_state : String → List (TransitionInput Value Run Evidence Finding) → String
  final_state name [] = name
  final_state name (t ∷ ts) = final_state t.next_state ts

  abbrev pub AreNumbered : ℕ → List (TransitionInput Value Run Evidence Finding) → Type 0
  AreNumbered n [] = Unit {0}
  AreNumbered n (t ∷ ts) = (t.expected_revision ≡ n) × AreNumbered (n + 1) ts

  abbrev pub events_of : List (WorkflowCommand Value Run Evidence Finding) → List Event
  events_of [] = []
  events_of (w ∷ ws) = w.event ∷ events_of ws

abbrev pub kinds_of : List (Event × TransitionContext) → List Event
kinds_of [] = []
kinds_of ((e, c) ∷ es) = e ∷ kinds_of es

module _ {Value Run Evidence Finding : Type 0} where
  -- What `prepare_from` makes of commands from this state on: a run of the state machine.
  abbrev pub IsRun :
      CasePolicy
      → CaseState
      → List (WorkflowCommand Value Run Evidence Finding)
      → List (TransitionInput Value Run Evidence Finding)
      → Type 0
  IsRun policy s ws ts =
      (es : List (Event × TransitionContext)) × (s' : CaseState) × (run s es ≡ ok s')
      × (kinds_of es ≡ events_of ws)
      × All (IsUnder policy) es
      × (final_state (state_name s) ts ≡ state_name s')

module _ {Value Run Evidence Finding StoreError : Type 0} where
  -- What the loop has done for its first command.
  pub first_prepared :
      (json : Json Value) (policy : CasePolicy)
      (previous : Option (TransitionInput Value Run Evidence Finding))
      (w : WorkflowCommand Value Run Evidence Finding)
      (ws : List (WorkflowCommand Value Run Evidence Finding))
      (ts : List (TransitionInput Value Run Evidence Finding))
      → prepare_from {StoreError = StoreError} json policy previous (w ∷ ws) ≡ ok ts
      → (t : TransitionInput Value Run Evidence Finding) × (rest : List
          (TransitionInput Value Run Evidence Finding))
        × (after_previous {StoreError = StoreError} previous w ≡ ok tt)
        × (transition_input {StoreError = StoreError} json policy w ≡ ok t)
        × (prepare_from {StoreError = StoreError} json policy (some t) ws ≡ ok rest)
        × (ts ≡ t ∷ rest)
  unfolding prepare_from
  first_prepared json policy previous w ws ts h =
      let (_, h1) = >>-eq-ok (validate_workflow_shape json w) _ h in
      let (follows, h2) = >>-eq-ok (after_previous previous w) _ h1 in
      let (t, made, h3) = >>=-eq-ok (transition_input json policy w) _ h2 in
      let (rest, more, h4) = >>=-eq-ok (prepare_from json policy (some t) ws) _ h3 in
      (t, rest, follows, made, more, sym (ok_injective h4))

  -- A command that follows a transition starts where the transition ends.
  pub followed :
      (previous : TransitionInput Value Run Evidence Finding)
      (w : WorkflowCommand Value Run Evidence Finding)
      → after_previous {StoreError = StoreError} (some previous) w ≡ ok tt
      → (state_name w.expected_state ≡ previous.next_state)
        × (w.expected_state_revision ≡ previous.expected_revision + 1)
        × (w.remediation_round ≡ previous.remediation_round)
  unfolding after_previous validate_consecutive
  followed previous w h = ground (arith, eq_iff (state_name w.expected_state) previous.next_state)

  pub nothing_left :
      (json : Json Value) (policy : CasePolicy)
      (previous : Option (TransitionInput Value Run Evidence Finding))
      (ts : List (TransitionInput Value Run Evidence Finding))
      → prepare_from {StoreError = StoreError} json policy previous [] ≡ ok ts
      → ts ≡ []
  unfolding prepare_from
  nothing_left json policy previous ts h = sym (ok_injective h)

  -- One more command in front of a run.
  IsRun-cons :
      (json : Json Value) (policy : CasePolicy) (w : WorkflowCommand Value Run Evidence Finding)
      (ws : List (WorkflowCommand Value Run Evidence Finding))
      (t : TransitionInput Value Run Evidence Finding)
      (rest : List (TransitionInput Value Run Evidence Finding)) (target : Option CaseState)
      (d : TransitionDecision)
      → IsPrepared StoreError json policy w t target d
      → IsRun policy d.next_state ws rest
      → IsRun policy w.expected_state (w ∷ ws) (t ∷ rest)
  unfolding run
  IsRun-cons json policy w ws t rest target d from (es, s', runs, kinds, under, ends) = (
    (w.event, context_of (snapshot_of w) (command_of w target) policy) ∷ es,
    s',
    rw (from.decided, runs),
    ap (λ tail. w.event ∷ tail) kinds,
    ((refl, refl), under),
    rw (from.state, ends),
  )

  pub chain :
      (json : Json Value) (policy : CasePolicy)
      (previous : Option (TransitionInput Value Run Evidence Finding))
      (w : WorkflowCommand Value Run Evidence Finding)
      (ws : List (WorkflowCommand Value Run Evidence Finding))
      (ts : List (TransitionInput Value Run Evidence Finding))
      → prepare_from {StoreError = StoreError} json policy previous (w ∷ ws) ≡ ok ts
      → IsRun policy w.expected_state (w ∷ ws) ts
  unfolding run
  chain json policy previous w [] ts h =
      let (t, rest, _, made, more, split) = first_prepared json policy previous w [] ts h in
      let (target, d, from) = prepared json policy w t made in
      let last : IsRun policy d.next_state [] rest =
        ([], d.next_state, refl, refl, tt, rw (nothing_left json policy (some t) rest more)) in
      subst (IsRun policy w.expected_state (w ∷ [])) (sym split)
        (IsRun-cons json policy w [] t rest target d from last)
  chain json policy previous w (w2 ∷ ws) ts h =
      let (t, rest, _, made, more, split) = first_prepared json policy previous w (w2 ∷ ws) ts h in
      let (target, d, from) = prepared json policy w t made in
      let (_, _, follows, _, _, _) = first_prepared json policy (some t) w2 ws rest more in
      let same =
        state_name-injective w2.expected_state d.next_state
          ((followed t w2 follows).0 ∙ from.state) in
      let later =
        subst (λ s. IsRun policy s (w2 ∷ ws) rest) same
          (chain json policy (some t) w2 ws rest more) in
      subst (IsRun policy w.expected_state (w ∷ w2 ∷ ws)) (sym split)
        (IsRun-cons json policy w (w2 ∷ ws) t rest target d from later)

module _ {Value Run Evidence Finding StoreError Ledger : Type 0} where
  pub batch_prepared :
      (json : Json Value)
      (ops : Store Ledger StoreError (TransitionInput Value Run Evidence Finding)) (ledger : Ledger)
      (policy : CasePolicy) (w : WorkflowCommand Value Run Evidence Finding)
      (ws : List (WorkflowCommand Value Run Evidence Finding))
      (ts : List (TransitionInput Value Run Evidence Finding))
      → prepare_batch json ops ledger policy (w ∷ ws) ≡ ok ts
      → (effective : CasePolicy) × (effective_policy ops ledger policy w ≡ ok effective)
        × (prepare_from {StoreError = StoreError} json effective none (w ∷ ws) ≡ ok ts)
  unfolding prepare_batch
  batch_prepared json ops ledger policy w ws ts h =
      let (_, h1) = >>-eq-ok (validate_workflow json ops ledger w) _ h in
      >>=-eq-ok (effective_policy ops ledger policy w) _ h1

  -- A batch that is prepared for the store is a run of the state machine: the events of its
  -- commands, in their order, under the merge mode and the budget of the effective policy, lead from
  -- the state of the first command to the state that the last transition names.
  pub batch-IsRun :
      (json : Json Value)
      (ops : Store Ledger StoreError (TransitionInput Value Run Evidence Finding)) (ledger : Ledger)
      (policy : CasePolicy) (w : WorkflowCommand Value Run Evidence Finding)
      (ws : List (WorkflowCommand Value Run Evidence Finding))
      (ts : List (TransitionInput Value Run Evidence Finding))
      → prepare_batch json ops ledger policy (w ∷ ws) ≡ ok ts
      → (effective : CasePolicy) × (effective_policy ops ledger policy w ≡ ok effective)
        × IsRun effective w.expected_state (w ∷ ws) ts
  batch-IsRun json ops ledger policy w ws ts h =
      let (effective, granted, made) = batch_prepared json ops ledger policy w ws ts h in
      (effective, granted, chain json effective none w ws ts made)
