-- ===== src/Store/Apply/Final.antt =====
-- crates/pip-store/src/lib.rs: where a batch that is applied leaves its case.
use text.Mathlib.Text.{◌==◌ as str_eq}
use text.Mathlib.TextEquality.{eq_iff}
use agent_p1p.Prelude.{
  ℕ, ◌+◌, ◌≡◌, refl, sym, ◌∙◌, subst, ap, arith, String, Bool, true, Option, some, List, [], ◌∷◌,
  length, All, ok, >>=-eq-ok, >>-eq-ok, ok_injective, some_injective, fail_if, any, not, ◌||◌,
}
use agent_p1p.Controller.Ledger.{StoredCase}
use agent_p1p.Controller.Ledger.Batch.Chains.{final_state}
use agent_p1p.Store.{FaultPoint, between_transitions, StoreError, invalid_input, Tables}
use agent_p1p.Store.Statements.{inject, query_case}
use agent_p1p.Store.Checks.{validate_common, Transition, Codec, Guards}
use agent_p1p.Store.Step.Facts.{IsStored, apply_one-IsStored}
use agent_p1p.Store.Apply.{follows, validate_batch, apply_all}
use agent_p1p.Store.History.Agreement.{moved_case, query_case-update_same}

first_passes : (a b : Bool) (e : StoreError) → fail_if (not a || b) e ≡ ok tt → a ≡ true
first_passes a b e h = ground arith

module _ {Value : Type 0} where
  -- The inputs of a batch are of one case.
  pub validate_batch-keys :
      (codec : Codec Value) (key : String) (ids : List String) (previous : Option ℕ)
      (inputs : List (Transition Value))
      → validate_batch codec key ids previous inputs ≡ ok tt
      → All (λ input. input.case_key ≡ key) inputs
  unfolding validate_batch
  validate_batch-keys codec key ids previous [] h = tt
  validate_batch-keys codec key ids previous (input ∷ inputs) h =
      let (_, h1) = >>-eq-ok (validate_common codec input.case_key input.event) _ h in
      let (mine, h2) =
        >>-eq-ok
          (fail_if (not (str_eq input.case_key key) || any (str_eq input.event.event_id) ids)
            (invalid_input "batch transitions must be unique, consecutive, and for one case"))
          _ h1 in
      let (_, h3) = >>-eq-ok (follows previous input.expected_revision) _ h2 in
      (
        (eq_iff input.case_key key).0 (first_passes _ _ _ mine),
        validate_batch-keys codec key (input.event.event_id ∷ ids) (some input.expected_revision)
            inputs h3,
      )

  stored_case :
      (codec : Codec Value) (guards : Guards Value) (t t' : Tables Value) (input : Transition Value)
      → IsStored codec guards t t' input
      → (case : StoredCase) × (query_case t'.cases input.case_key ≡ some case)
        × (case.state ≡ input.next_state)
        × (case.state_revision ≡ input.expected_revision + 1)
  stored_case codec guards t t' input stored = (
    moved_case input (input.expected_revision + 1) stored.policy stored.current,
    ap (λ rows. query_case rows input.case_key) stored.cases
        ∙ query_case-update_same input (input.expected_revision + 1) stored.policy stored.current
            t.cases stored.found stored.revision,
    refl,
    refl,
  )

  -- The case after a batch: in the state of its last transition, one revision on for each.
  abbrev pub IsFinal : Tables Value → String → Transition Value → List (Transition Value) → Type 0
  IsFinal t key first rest =
      (case : StoredCase) × (query_case t.cases key ≡ some case)
      × (case.state ≡ final_state first.next_state rest)
      × (case.state_revision ≡ first.expected_revision + 1 + length rest)

  pub apply_all-IsFinal :
      (codec : Codec Value) (guards : Guards Value) (fault : Option FaultPoint) (key : String)
      (t t' : Tables Value) (first : Transition Value) (rest : List (Transition Value))
      → All (λ input. input.case_key ≡ key) (first ∷ rest)
      → apply_all codec guards fault t (first ∷ rest) ≡ ok t'
      → IsFinal t' key first rest
  unfolding apply_all
  apply_all-IsFinal codec guards fault key t t' first [] (mine, _) h =
      let (t1, one, h1) = >>=-eq-ok _ _ h in
      let (case, shown, state, at) =
        stored_case codec guards t t1 first
          (apply_one-IsStored codec guards fault t t1 first one) in
      subst (λ u. IsFinal u key first []) (ok_injective h1)
        (
          case,
          subst (λ k. query_case t1.cases k ≡ some case) mine shown,
          state,
          rw at (omega arith),
        )
  apply_all-IsFinal codec guards fault key t t' first (second ∷ rest) (mine, (yours, others)) h =
      let (t1, one, h1) = >>=-eq-ok _ _ h in
      let (_, h2) = >>-eq-ok (inject fault between_transitions) _ h1 in
      let (t2, two, h3) = >>=-eq-ok _ _ h2 in
      let (case, shown, _, at) =
        stored_case codec guards t t1 first
          (apply_one-IsStored codec guards fault t t1 first one) in
      let next = apply_one-IsStored codec guards fault t1 t2 second two in
      let same =
        some_injective (sym shown ∙ ap (query_case t1.cases) (mine ∙ sym yours) ∙ next.found) in
      let follows = sym at ∙ ap (λ c. c.state_revision) same ∙ next.revision in
      let (last, found, state, revision) =
        apply_all-IsFinal codec guards fault key t1 t' second rest (yours, others) h2 in
      (last, found, state, (omega arith))
