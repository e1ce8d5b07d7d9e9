-- ===== src/Controller/Ledger/Batch/Budgets.antt =====
-- crates/pip-controller/src/ledger.rs: the revisions and the remediation rounds along a batch.
use agent_p1p.Prelude.{
  ℕ, ◌+◌, ◌≤◌, ◌≡◌, sym, subst, ap, ◌∙◌, arith, Option, none, some, List, [], ◌∷◌, All, ok,
  ok_injective,
}
use agent_p1p.Core.Revision.{CasePolicy}
use agent_p1p.Controller.Ledger.{Json, WorkflowCommand, TransitionInput}
use agent_p1p.Controller.Ledger.Transition.{transition_input}
use agent_p1p.Controller.Ledger.Transition.Rounds.{prepared, round_spent}
use agent_p1p.Controller.Ledger.Batch.{Store, prepare_from, prepare_batch, effective_policy}
use agent_p1p.Controller.Ledger.Batch.Chains.{
  AreNumbered, first_prepared, nothing_left, followed, batch_prepared,
}

module _ {Value Run Evidence Finding : Type 0} where
  -- Consecutive revisions from this one on, and no round beyond the budget.
  abbrev pub IsAccounted : ℕ → ℕ → List (TransitionInput Value Run Evidence Finding) → Type 0
  IsAccounted budget revision ts =
      AreNumbered revision ts × All (λ t. t.remediation_round ≤ budget) ts

module _ {Value Run Evidence Finding StoreError : Type 0} where
  step_in_budget :
      (json : Json Value) (policy : CasePolicy) (w : WorkflowCommand Value Run Evidence Finding)
      (t : TransitionInput Value Run Evidence Finding)
      → transition_input {StoreError = StoreError} json policy w ≡ ok t
      → w.remediation_round ≤ policy.max_remediation_rounds
      → t.remediation_round ≤ policy.max_remediation_rounds
  step_in_budget json policy w t h below = ground (arith, round_spent json policy w t h)

  accounted :
      (json : Json Value) (policy : CasePolicy)
      (previous : Option (TransitionInput Value Run Evidence Finding))
      (w : WorkflowCommand Value Run Evidence Finding)
      (ws : List (WorkflowCommand Value Run Evidence Finding))
      (ts : List (TransitionInput Value Run Evidence Finding))
      → prepare_from {StoreError = StoreError} json policy previous (w ∷ ws) ≡ ok ts
      → w.remediation_round ≤ policy.max_remediation_rounds
      → IsAccounted policy.max_remediation_rounds w.expected_state_revision ts
  accounted json policy previous w [] ts h below =
      let (t, rest, _, made, more, split) = first_prepared json policy previous w [] ts h in
      let (target, d, from) = prepared json policy w t made in
      subst (IsAccounted policy.max_remediation_rounds w.expected_state_revision) (sym split) (
        rw (nothing_left json policy (some t) rest more)
          ((from.revision, tt), (step_in_budget json policy w t made below, tt)))
  accounted json policy previous w (w2 ∷ ws) ts h below =
      let (t, rest, _, made, more, split) = first_prepared json policy previous w (w2 ∷ ws) ts h in
      let (target, d, from) = prepared json policy w t made in
      let (_, _, follows, _, _, _) = first_prepared json policy (some t) w2 ws rest more in
      let (_, next, round) = followed t w2 follows in
      let held = step_in_budget json policy w t made below in
      let (numbered, within) = accounted json policy (some t) w2 ws rest more (rw (round) held) in
      subst (IsAccounted policy.max_remediation_rounds w.expected_state_revision) (sym split) (
        (
          from.revision,
          subst (λ n. AreNumbered n rest) (next ∙ ap (λ n. n + 1) from.revision) numbered,
        ),
        (held, within),
      )

module _ {Value Run Evidence Finding StoreError Ledger : Type 0} where
  -- In a batch that is prepared for the store the expected revisions count up by one from the first
  -- command's, and where the first command's round is in the effective budget, every transition's
  -- is: no batch spends more rounds than there are.
  pub batch_is_accounted :
      (json : Json Value)
      (ops : Store Ledger StoreError (TransitionInput Value Run Evidence Finding)) (ledger : Ledger)
      (policy effective : CasePolicy) (w : WorkflowCommand Value Run Evidence Finding)
      (ws : List (WorkflowCommand Value Run Evidence Finding))
      (ts : List (TransitionInput Value Run Evidence Finding))
      → prepare_batch json ops ledger policy (w ∷ ws) ≡ ok ts
      → effective_policy ops ledger policy w ≡ ok effective
      → w.remediation_round ≤ effective.max_remediation_rounds
      → AreNumbered w.expected_state_revision ts
        × All (λ t. t.remediation_round ≤ effective.max_remediation_rounds) ts
  batch_is_accounted json ops ledger policy effective w ws ts h e below =
      let (granted, same, made) = batch_prepared json ops ledger policy w ws ts h in
      let agreed = ok_injective (sym same ∙ e) in
      accounted json effective none w ws ts
        (subst (λ p. prepare_from {StoreError = StoreError} json p none (w ∷ ws) ≡ ok ts) agreed
          made)
        below
