-- ===== src/Controller/Ledger/Transition/Heads.antt =====
-- crates/pip-controller/src/ledger.rs: how the pull request and the head of a case may change.
use agent_p1p.Prelude.{ℕ, ◌≡◌, ◌≢◌, ◌↔◌, ◌⊎◌, arith, true, Option, none, is_some, ok}
use agent_p1p.Core.StateMachine.{Event, review_ready}
use agent_p1p.Core.ExactHead.{GitSha}
use agent_p1p.Core.Revision.{CasePolicy}
use agent_p1p.Controller.Ledger.{Json, WorkflowCommand, TransitionInput, is_review_ready}
use agent_p1p.Controller.Ledger.Transition.{replace_head, next_head_binding, transition_input}
use agent_p1p.Controller.Ledger.Transition.Rounds.{prepared}

is_review_ready_iff : (e : Event) → (is_review_ready e ≡ true) ↔ (e ≡ review_ready)
is_review_ready_iff e = (λ h. ground arith, λ h. ground arith)

module _ {Value Run Evidence Finding StoreError : Type 0} where
  -- A build brings the head, and a pull request where the case has none.
  replaced :
      (w : WorkflowCommand Value Run Evidence Finding) (pr : Option ℕ) (head : Option GitSha)
      → replace_head {StoreError = StoreError} w ≡ ok (pr, head)
      → (head ≡ w.next_head_sha)
        × (is_some head ≡ true)
        × (is_some pr ≡ true)
        × ((w.pr_number ≡ none) ⊎ (pr ≡ w.pr_number))
  unfolding replace_head
  replaced w pr head h = ground arith

  bound :
      (w : WorkflowCommand Value Run Evidence Finding) (pr : Option ℕ) (head : Option GitSha)
      → next_head_binding {StoreError = StoreError} w ≡ ok (pr, head)
      → ((pr ≡ w.pr_number) × (head ≡ w.head_sha) × (w.event ≢ review_ready))
        ⊎ ((w.event ≡ review_ready)
            × (head ≡ w.next_head_sha)
            × (is_some head ≡ true)
            × (is_some pr ≡ true)
            × ((w.pr_number ≡ none) ⊎ (pr ≡ w.pr_number)))
  unfolding next_head_binding
  bound w pr head h = ground (arith, is_review_ready_iff w.event, replaced w pr head)

  -- Only a build that is ready for review changes the head of a case, to the head that it names;
  -- it brings a pull request where the case has none, and never replaces one.
  pub head_changes_by_build :
      (json : Json Value) (policy : CasePolicy) (w : WorkflowCommand Value Run Evidence Finding)
      (t : TransitionInput Value Run Evidence Finding)
      → transition_input {StoreError = StoreError} json policy w ≡ ok t
      → ((t.pr_number ≡ w.pr_number) × (t.head_sha ≡ w.head_sha) × (w.event ≢ review_ready))
        ⊎ ((w.event ≡ review_ready)
            × (t.head_sha ≡ w.next_head_sha)
            × (is_some t.head_sha ≡ true)
            × (is_some t.pr_number ≡ true)
            × ((w.pr_number ≡ none) ⊎ (t.pr_number ≡ w.pr_number)))
  head_changes_by_build json policy w t h =
      let (target, d, from) = prepared json policy w t h in bound w t.pr_number t.head_sha from.head
