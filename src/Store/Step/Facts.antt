-- ===== src/Store/Step/Facts.antt =====
-- crates/pip-store/src/lib.rs: what a transition that is stored does to the tables.
use text.Mathlib.Text.{◌==◌ as str_eq}
use agent_p1p.Prelude.{
  ℕ, ◌+◌, ◌≡◌, ◌≢◌, refl, ◌∙◌, subst, ap, arith, String, Bool, true, false, Option, none, some,
  List, [], ◌∷◌, any, ok, sym, ◌||◌, >>=-eq-ok, >>-eq-ok, ok_injective, ok_or-eq-ok, fail_if, ◌==◌,
  not, ◌&&◌,
}
use agent_p1p.Core.Domain.{checked_add_u64}
use agent_p1p.Controller.Ledger.{StoredCase}
use agent_p1p.Store.{FaultPoint, RunInput, EvidenceInput, FindingInput, EventRow, RunRow, Tables}
use agent_p1p.Store.Statements.{
  query_case, existing_event, same_revision, insert_event, insert_run, insert_runs, add_evidence,
  insert_evidence, add_finding, insert_findings, is_case_at, update, insert_effects,
}
use agent_p1p.Store.Checks.{Transition, Codec, Guards, admit}
use agent_p1p.Store.Step.{
  event_row, moved, update_case, is_superseded, supersede_row, insert_results, replace_effects,
  apply_one,
}

pub checked_add_u64_lem : (a b n : ℕ) → checked_add_u64 a b ≡ some n → n ≡ a + b
checked_add_u64_lem a b n h = ground arith

checks : {E : Type 0} (a b : ℕ) (e : E) → fail_if (not (a == b)) e ≡ ok tt → a ≡ b
checks a b e h = ground arith

-- A check of a chain has passed.
fail_if-eq-ok : {E : Type 0} (b : Bool) (e : E) → fail_if b e ≡ ok tt → b ≡ false
fail_if-eq-ok true e h = cc
fail_if-eq-ok false e h = refl

module _ {Value : Type 0} where
  pub insert_event_lem :
      (t t' : Tables Value) (row : EventRow Value)
      → insert_event t row ≡ ok t'
      → (t' ≡ record t { events = row ∷ t.events })
        × (existing_event t.events row.event.event_id ≡ none)
        × (any (same_revision row) t.events ≡ false)
        × (row.policy_revision ≢ 0)
  unfolding insert_event
  insert_event_lem t t' row h = ground arith

  -- The tables that the results of a transition leave alone.
  abbrev pub Same : Tables Value → Tables Value → Type 0
  Same t t' = (t'.cases ≡ t.cases) × (t'.events ≡ t.events) × (t'.outbox ≡ t.outbox)

  pub Same-trans : (t u v : Tables Value) → Same t u → Same u v → Same t v
  Same-trans t u v (c, e, o) (c', e', o') = (c' ∙ c, e' ∙ e, o' ∙ o)

  insert_runs-Same :
      (t t' : Tables Value) (run : Option (RunInput Value)) (key id : String) (at : ℕ)
      → insert_runs t run key id at ≡ ok t'
      → Same t t'
  unfolding insert_run
  insert_runs-Same t t' none key id at h = ground arith
  insert_runs-Same t t' (some run) key id at h = ground arith

  pub insert_evidence-Same :
      (is_object : Value → Bool) (key : String) (at : ℕ) (t t' : Tables Value)
      (items : List (EvidenceInput Value))
      → insert_evidence is_object key at t items ≡ ok t'
      → Same t t'
  unfolding insert_evidence
  insert_evidence-Same is_object key at t t' [] h = ground arith
  insert_evidence-Same is_object key at t t' (item ∷ items) h =
      ground (
        arith,
        insert_evidence-Same is_object key at (add_evidence is_object key at item t) t' items,
      )

  insert_findings-Same :
      (is_object : Value → Bool) (key : String) (at : ℕ) (id : String) (t t' : Tables Value)
      (items : List (FindingInput Value))
      → insert_findings is_object key at id t items ≡ ok t'
      → Same t t'
  unfolding insert_findings
  insert_findings-Same is_object key at id t t' [] h = ground arith
  insert_findings-Same is_object key at id t t' (item ∷ items) h = ground (
    arith,
    insert_findings-Same is_object key at id (add_finding is_object key at id item t) t' items,
  )

  insert_results-Same :
      (codec : Codec Value) (fault : Option FaultPoint) (input : Transition Value)
      (t t' : Tables Value)
      → insert_results codec fault input t ≡ ok t'
      → Same t t'
  unfolding insert_results
  insert_results-Same codec fault input t t' h =
      let (ran, runs, h1) = >>=-eq-ok _ _ h in
      let (_, h2) = >>-eq-ok _ _ h1 in
      let (proven, evidence, h3) = >>=-eq-ok _ _ h2 in
      let (found, findings, h4) = >>=-eq-ok _ _ h3 in
      let (_, h5) = >>-eq-ok _ _ h4 in
      subst (Same t) (ok_injective h5) (
        Same-trans t proven found
          (Same-trans t ran proven (insert_runs-Same t ran input.run _ _ _ runs)
            (insert_evidence-Same codec.is_object _ _ ran proven input.evidence evidence))
          (insert_findings-Same codec.is_object _ _ _ proven found input.findings findings))

  pub update_case_lem :
      (t t' : Tables Value) (current : StoredCase) (input : Transition Value) (next policy : ℕ)
      → update_case t current input next policy ≡ ok t'
      → t' ≡ record t {
        cases =
            update
              (is_case_at input.case_key input.expected_revision)
              (moved input next policy)
              t.cases;
      }
  unfolding update_case
  update_case_lem t t' current input next policy h = ground arith

  pub replace_effects_lem :
      (fault : Option FaultPoint) (current : StoredCase) (input : Transition Value) (next : ℕ)
      (t t' : Tables Value)
      → replace_effects fault current input next t ≡ ok t'
      → (t' ≡ record t { outbox = t'.outbox })
        × (insert_effects input.case_key next input.observed_at
              (update (is_superseded t.events current input next) (supersede_row input) t.outbox)
              input.effects
            ≡ ok t'.outbox)
  unfolding replace_effects
  replace_effects_lem fault current input next t t' h =
      let (outbox, effects, h1) = >>=-eq-ok _ _ h in
      let (_, h2) = >>-eq-ok _ _ h1 in
      subst
        (λ u.
          (u ≡ record t { outbox = u.outbox })
          × (insert_effects input.case_key next input.observed_at
                (update (is_superseded t.events current input next) (supersede_row input) t.outbox)
                input.effects
              ≡ ok u.outbox))
        (ok_injective h2) (refl, effects)

  -- The run of a transition is new, with its id, event and task, and stands before the others.
  abbrev pub RunStored :
      Option (RunInput Value)
      → String
      → String
      → ℕ
      → List (RunRow Value)
      → List (RunRow Value)
      → Type 0
  RunStored none key id at rows rows' = rows' ≡ rows
  RunStored (some run) key id at rows rows' =
      (any (λ old. str_eq old.run.task_id run.task_id) rows ≡ false)
      × (rows' ≡ record { run = run; case_key = key; event_id = id; accepted_at = at } ∷ rows)

  no_clash :
      (run : RunInput Value) (id : String) (rows : List (RunRow Value))
      → any
          (λ old.
            str_eq old.run.run_id run.run_id
            || str_eq old.event_id id
            || str_eq old.run.task_id run.task_id)
          rows
        ≡ false
      → any (λ old. str_eq old.run.task_id run.task_id) rows ≡ false
  no_clash run id [] h = refl
  no_clash run id (row ∷ rows) h = ground (arith, no_clash run id rows)

  insert_run_lem :
      (t t' : Tables Value) (row : RunRow Value)
      → insert_run t row ≡ ok t'
      → (any
            (λ old.
              str_eq old.run.run_id row.run.run_id
              || str_eq old.event_id row.event_id
              || str_eq old.run.task_id row.run.task_id)
            t.runs
          ≡ false)
        × (t'.runs ≡ row ∷ t.runs)
  unfolding insert_run
  insert_run_lem t t' row h = ground arith

  insert_runs-RunStored :
      (t t' : Tables Value) (run : Option (RunInput Value)) (key id : String) (at : ℕ)
      → insert_runs t run key id at ≡ ok t'
      → RunStored run key id at t.runs t'.runs
  insert_runs-RunStored t t' none key id at h = ap (λ u. u.runs) (sym (ok_injective h))
  insert_runs-RunStored t t' (some run) key id at h =
      let (new, first) = insert_run_lem t t' _ h in (no_clash run id t.runs new, first)

  pub insert_evidence-runs :
      (is_object : Value → Bool) (key : String) (at : ℕ) (t t' : Tables Value)
      (items : List (EvidenceInput Value))
      → insert_evidence is_object key at t items ≡ ok t'
      → t'.runs ≡ t.runs
  unfolding insert_evidence
  insert_evidence-runs is_object key at t t' [] h = ground arith
  insert_evidence-runs is_object key at t t' (item ∷ items) h =
      ground (
        arith,
        insert_evidence-runs is_object key at (add_evidence is_object key at item t) t' items,
      )

  insert_findings-runs :
      (is_object : Value → Bool) (key : String) (at : ℕ) (id : String) (t t' : Tables Value)
      (items : List (FindingInput Value))
      → insert_findings is_object key at id t items ≡ ok t'
      → t'.runs ≡ t.runs
  unfolding insert_findings
  insert_findings-runs is_object key at id t t' [] h = ground arith
  insert_findings-runs is_object key at id t t' (item ∷ items) h = ground (
    arith,
    insert_findings-runs is_object key at id (add_finding is_object key at id item t) t' items,
  )

  insert_results-RunStored :
      (codec : Codec Value) (fault : Option FaultPoint) (input : Transition Value)
      (t t' : Tables Value)
      → insert_results codec fault input t ≡ ok t'
      → RunStored input.run input.case_key input.event.event_id input.observed_at t.runs t'.runs
  unfolding insert_results
  insert_results-RunStored codec fault input t t' h =
      let (ran, runs, h1) = >>=-eq-ok _ _ h in
      let (_, h2) = >>-eq-ok _ _ h1 in
      let (proven, evidence, h3) = >>=-eq-ok _ _ h2 in
      let (found, findings, h4) = >>=-eq-ok _ _ h3 in
      let (_, h5) = >>-eq-ok _ _ h4 in
      subst (RunStored input.run input.case_key input.event.event_id input.observed_at t.runs)
        (sym (insert_evidence-runs codec.is_object _ _ ran proven input.evidence evidence)
          ∙ sym (insert_findings-runs codec.is_object _ _ _ proven found input.findings findings)
          ∙ ap (λ u. u.runs) (ok_injective h5))
        (insert_runs-RunStored t ran input.run _ _ _ runs)

  -- An event of the case stands at the revision.
  abbrev pub is_taken : String → ℕ → List (EventRow Value) → Bool
  is_taken key revision events =
      any (λ other. str_eq key other.case_key && revision == other.state_revision) events

  -- A transition that is stored: the case was at the expected revision and its event is new; the
  -- event is recorded, the case moved and the outbox rewritten.
  pub record IsStored (codec : Codec Value) (guards : Guards Value) (t t' : Tables Value)
      (input : Transition Value) : Type 0 where
    pub current : StoredCase
    pub policy : ℕ
    pub found : query_case t.cases input.case_key ≡ some current
    pub revision : current.state_revision ≡ input.expected_revision
    pub admitted : admit guards t current input ≡ ok policy
    pub event_is_new : existing_event t.events input.event.event_id ≡ none
    pub revision_is_new : is_taken input.case_key (input.expected_revision + 1) t.events ≡ false
    pub events :
        t'.events
        ≡ event_row current input (codec.hash_transition input) (input.expected_revision + 1) policy
          ∷ t.events
    pub runs :
        RunStored input.run input.case_key input.event.event_id input.observed_at t.runs t'.runs
    pub cases :
        t'.cases
        ≡ update
            (is_case_at input.case_key input.expected_revision)
            (moved input (input.expected_revision + 1) policy)
            t.cases
    pub outbox :
        insert_effects input.case_key
          (input.expected_revision + 1)
          input.observed_at
          (update
            (is_superseded t'.events current input (input.expected_revision + 1))
            (supersede_row input)
            t.outbox)
          input.effects
        ≡ ok t'.outbox

  IsStored-parts :
      (codec : Codec Value) (guards : Guards Value) (fault : Option FaultPoint)
      (t recorded results projected t' : Tables Value) (input : Transition Value)
      (current : StoredCase) (next policy : ℕ)
      → query_case t.cases input.case_key ≡ some current
      → current.state_revision ≡ input.expected_revision
      → next ≡ input.expected_revision + 1
      → admit guards t current input ≡ ok policy
      → insert_event t (event_row current input (codec.hash_transition input) next policy)
        ≡ ok recorded
      → insert_results codec fault input recorded ≡ ok results
      → update_case results current input next policy ≡ ok projected
      → replace_effects fault current input next projected ≡ ok t'
      → IsStored codec guards t t' input
  IsStored-parts codec guards fault t recorded results projected t' input current next policy found
        revision n admitted event inserted updated replaced =
      let (t1, is_new, untaken, _) = insert_event_lem t recorded _ event in
      let (c, e, o) = insert_results-Same codec fault input recorded results inserted in
      let t3 = update_case_lem results projected current input next policy updated in
      let (t4, effects) = replace_effects_lem fault current input next projected t' replaced in
      let events = ap (λ u. u.events) t4 in
      let new = ap (λ u. u.events) t1 in
      let moved_cases = ap (λ u. u.cases) t3 in
      let old_cases = ap (λ u. u.cases) t1 in
      let last_cases = ap (λ u. u.cases) t4 in
      let last_events = ap (λ u. u.events) t3 in
      let outbox = ap (λ u. u.outbox) t3 ∙ o ∙ ap (λ u. u.outbox) t1 in
      let old_runs = ap (λ u. u.runs) t1 in
      let new_runs = sym (ap (λ u. u.runs) t4 ∙ ap (λ u. u.runs) t3) in
      record {
        runs =
            subst
              (λ rows.
                RunStored input.run input.case_key input.event.event_id input.observed_at rows
                  t'.runs)
              old_runs
              (subst
                (RunStored input.run input.case_key input.event.event_id input.observed_at
                  recorded.runs)
                new_runs (insert_results-RunStored codec fault input recorded results inserted));
        current = current;
        policy = policy;
        found = found;
        revision = revision;
        admitted = admitted;
        event_is_new = is_new;
        revision_is_new = subst (λ r. is_taken input.case_key r t.events ≡ false) n untaken;
        events = cc;
        cases = cc;
        outbox = cc;
      }

  pub apply_one-IsStored :
      (codec : Codec Value) (guards : Guards Value) (fault : Option FaultPoint)
      (t t' : Tables Value) (input : Transition Value)
      → apply_one codec guards fault t input ≡ ok t'
      → IsStored codec guards t t' input
  unfolding apply_one
  apply_one-IsStored codec guards fault t t' input h =
      let (current, found, h1) = >>=-eq-ok _ _ h in
      let (same, h2) = >>-eq-ok _ _ h1 in
      let (next, added, h3) = >>=-eq-ok _ _ h2 in
      let (policy, admitted, h4) = >>=-eq-ok _ _ h3 in
      let (recorded, event, h5) = >>=-eq-ok _ _ h4 in
      let (_, h6) = >>-eq-ok _ _ h5 in
      let (results, inserted, h7) = >>=-eq-ok _ _ h6 in
      let (projected, update, h8) = >>=-eq-ok _ _ h7 in
      let (_, h9) = >>-eq-ok _ _ h8 in
      IsStored-parts codec guards fault t recorded results projected t' input current next policy
        (ok_or-eq-ok _ _ found) (checks current.state_revision input.expected_revision _ same)
        (checked_add_u64_lem _ _ _ (ok_or-eq-ok _ _ added)) admitted event inserted update h9
