-- ===== src/Controller/Ledger/Batch/Single.antt =====
-- crates/pip-controller/src/ledger.rs: `apply` beside `apply_batch`.
use agent_p1p.Prelude.{◌≡◌, refl, ap, [], ◌∷◌, Result, ok, err, ◌>>=◌, ◌>>◌}
use agent_p1p.Core.Revision.{CasePolicy}
use agent_p1p.Controller.Ledger.{Json, WorkflowCommand, TransitionInput}
use agent_p1p.Controller.Ledger.Transition.{transition_input}
use agent_p1p.Controller.Ledger.Batch.{
  Store, validate_workflow_shape, validate_workflow, effective_policy, after_previous, prepare_from,
  prepare_batch, prepare_one, commit, apply, apply_batch,
}

-- A check that was made is not made again.
checked_twice :
    {A B E : Type 0} (check : Result (Unit {0}) E) (rest : Result (Unit {0}) E)
    (middle : Result B E) (last : B → Result A E)
    → ((check >> rest) >> (middle >>= last))
      ≡ ((check >> rest) >> (middle >>= λ b. check >> last b))
checked_twice (err e) rest middle last = refl
checked_twice (ok tt) rest middle last = refl

module _ {Value Run Evidence Finding StoreError Ledger : Type 0} where
  -- One command is applied as the batch of that command alone, with the same errors.
  pub apply-eq-apply_batch :
      (json : Json Value)
      (ops : Store Ledger StoreError (TransitionInput Value Run Evidence Finding)) (ledger : Ledger)
      (policy : CasePolicy) (w : WorkflowCommand Value Run Evidence Finding)
      → apply json ops ledger policy w ≡ apply_batch json ops ledger policy (w ∷ [])
  unfolding apply apply_batch prepare_one prepare_batch prepare_from after_previous
      validate_workflow
  apply-eq-apply_batch json ops ledger policy w = ap (commit ops ledger) (
      checked_twice (validate_workflow_shape json w) _ (effective_policy ops ledger policy w)
        (λ p. transition_input json p w >>= λ t. ok (t ∷ [])))
