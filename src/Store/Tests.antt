-- ===== src/Store/Tests.antt =====
-- The ledger of crates/pip-store/src/lib.rs on concrete rows: a case is created with two effects, a
-- transition is stored, and the effects are leased.
use mathlib.Core.List.{Memᴰ}
use agent_p1p.Prelude.{◌≢◌, ℕ, ◌≡◌, ◌≢◌, refl, arith, true, none, some, List, [], ◌∷◌, ok}
use agent_p1p.Controller.Ledger.{EffectPayload, EffectInput}
use agent_p1p.Controller.Ledger.Batch.{applied, replayed}
use agent_p1p.Store.{NewCase, OutboxRow, Handle, Stored}
use agent_p1p.Store.Statements.{
  insert_event, insert_run, insert_evidence, insert_findings, insert_effects, new_effect,
}
use agent_p1p.Store.Checks.{Transition, Codec, Guards, validate_common, admit}
use agent_p1p.Store.Step.{
  moved, update_case, is_superseded, supersede_row, insert_results, replace_effects, apply_one,
}
use agent_p1p.Store.Apply.{
  validate_batch, apply_all, run_batch, apply_transition_batch, with_tables,
}
use agent_p1p.Store.Creation.{first_event, first_row, insert_case, start_case, create_case}
use agent_p1p.Store.Creation.Facts.{with_case}
use agent_p1p.Store.History.{
  case_at_revision_limit, reconstruct_case, projection_matches_history, repair_case_projection,
}
use agent_p1p.Store.Outbox.{
  claimed, with_lease, deliver, take_lease, claim_effect_inner,
  claim_repository_case_effect_matching, acknowledge_effect, with_outbox,
}
use agent_p1p.Store.Outbox.Scope.{IsInScope, claim-IsInScope}
use agent_p1p.Store.Moves.{
  Reach, here, next, creates, applies, repairs, leases, acknowledges, empty_handle,
}
use agent_p1p.Store.Moves.Projected.{Reach-projection_matches_history}
use agent_p1p.Store.Moves.Taken.{revision_is_taken_once}
use agent_p1p.Store.Moves.Replayed.{accepted_is_replayed}
use agent_p1p.Store.Moves.Exclusive.{starts, goes_on, lease_is_exclusive, delivery_is_final}

abbrev codec : Codec ℕ
codec = record {
  is_object = λ _. true;
  hash_transition = λ input. input.event.event_id;
  hash_new_case = λ input. input.event.event_id;
}

abbrev guards : Guards ℕ
guards = record {
  infrastructure_recovery = λ _ _ _. ok tt;
  follow_up_recovery = λ _ _ _. ok tt;
  native_review_retry = λ _ _ _. ok tt;
  review_coordination_recovery = λ _ _ _. ok tt;
  reauthorization = λ _ _ _. ok 1;
  remediation_extension = λ _ _ _. ok 1;
  resume = λ _ _ _. ok 1;
}

abbrev read : OutboxRow → Stored EffectPayload
read row = ok row.payload

abbrev effect : EffectInput
effect = record {
  effect_id = "a";
  effect_type = "RUN";
  payload = record {
    case_key = "k";
    state_revision = 1;
    effect = "run";
    remediation_round = 0;
    plan_version = 0;
    pr_number = none;
    head_sha = none;
  };
}

abbrev second : EffectInput
second = record effect { effect_id = "b" }

abbrev opened : NewCase ℕ
opened = record {
  case_key = "k";
  repository_id = 1;
  issue_number = 7;
  workflow_version = 1;
  policy_revision = 1;
  initial_state = "ELIGIBLE";
  observed_at = 100;
  event = record { event_id = "e1"; event_type = "LABELLED"; payload = 0 };
  effects = effect ∷ second ∷ [];
}

abbrev rows : List OutboxRow
rows = new_effect "k" 1 100 second ∷ new_effect "k" 1 100 effect ∷ []

abbrev with_one : Handle ℕ
with_one = with_tables empty_handle (with_case codec empty_handle opened rows)

create_test : create_case codec empty_handle opened ≡ ok (with_one, applied)
unfolding create_case start_case insert_case insert_event insert_effects validate_common
create_test = refl

one_reached : Reach codec guards read empty_handle with_one
one_reached = next here (creates opened applied create_test)

-- The first effect is leased, then the second.
abbrev leased_first : Handle ℕ
leased_first =
    with_outbox with_one (
      new_effect "k" 1 100 second
      ∷ with_lease (some ("w1", 110)) (new_effect "k" 1 100 effect)
      ∷ [])

abbrev leased_both : Handle ℕ
leased_both = with_outbox with_one (
    with_lease (some ("w2", 115)) (new_effect "k" 1 100 second)
    ∷ with_lease (some ("w1", 110)) (new_effect "k" 1 100 effect)
    ∷ [])

claim_test :
    claim_effect_inner read with_one "w1" 100 10 none none none
    ≡ ok (leased_first, some (claimed (new_effect "k" 1 100 effect) effect.payload "w1" 110))
unfolding claim_effect_inner take_lease
claim_test = refl

second_claim_test :
    claim_effect_inner read leased_first "w2" 105 10 none none none
    ≡ ok (leased_both, some (claimed (new_effect "k" 1 100 second) second.payload "w2" 115))
unfolding claim_effect_inner take_lease
second_claim_test = refl

abbrev delivered : Handle ℕ
delivered =
    with_outbox with_one
      (new_effect "k" 1 100 second ∷ deliver 106 (new_effect "k" 1 100 effect) ∷ [])

acknowledge_test : acknowledge_effect leased_first "a" "w1" 106 ≡ ok delivered
unfolding acknowledge_effect
acknowledge_test = refl

repair_test : repair_case_projection leased_first "k" ≡ ok leased_first
unfolding repair_case_projection reconstruct_case case_at_revision_limit
repair_test = refl

last_claim_test :
    claim_effect_inner read delivered "w2" 120 10 none none none
    ≡ ok (
      with_outbox with_one (
          with_lease (some ("w2", 130)) (new_effect "k" 1 100 second)
          ∷ deliver 106 (new_effect "k" 1 100 effect)
          ∷ []),
      some (claimed (new_effect "k" 1 100 second) second.payload "w2" 130),
    )
unfolding claim_effect_inner take_lease
last_claim_test = refl

-- A transition of the case, with its run, in place of both effects.
abbrev planned : Transition ℕ
planned = record {
  case_key = "k";
  expected_revision = 1;
  next_state = "PLANNING";
  remediation_round = 0;
  plan_version = 0;
  pr_number = none;
  head_sha = none;
  observed_at = 107;
  event = record { event_id = "e2"; event_type = "ELIGIBLE"; payload = 0 };
  run = some (record { run_id = "r1"; task_id = "t1"; role = "planner"; payload = 0 });
  evidence = [];
  findings = [];
  effects = record effect { effect_id = "c" } ∷ [];
}

abbrev moved_on : Handle ℕ
moved_on = with_tables delivered (record {
  cases = moved planned 2 1 (first_row opened) ∷ [];
  events =
      record {
        event = planned.event;
        case_key = "k";
        state_revision = 2;
        observed_at = 107;
        command_hash = "e2";
        previous_state = some "ELIGIBLE";
        next_state = "PLANNING";
        policy_revision = 1;
        remediation_round = 0;
        plan_version = 0;
        pr_number = none;
        head_sha = none;
      }
      ∷ first_event opened "e1"
      ∷ [];
  runs =
      record {
        run = record { run_id = "r1"; task_id = "t1"; role = "planner"; payload = 0 };
        case_key = "k";
        event_id = "e2";
        accepted_at = 107;
      }
      ∷ [];
  evidence = [];
  findings = [];
  outbox =
      new_effect "k" 2 107 (record effect { effect_id = "c" })
      ∷ supersede_row planned (new_effect "k" 1 100 second)
      ∷ deliver 106 (new_effect "k" 1 100 effect)
      ∷ [];
})

apply_test :
    apply_transition_batch codec guards none delivered (planned ∷ []) ≡ ok (moved_on, applied)
unfolding apply_transition_batch validate_batch validate_common run_batch apply_all apply_one admit
    insert_event insert_results insert_run insert_evidence insert_findings update_case
    replace_effects is_superseded insert_effects
apply_test = refl

leased_reached : Reach codec guards read empty_handle leased_first
leased_reached = next one_reached (leases "w1" 100 10 none none none _ claim_test)

delivered_reached : Reach codec guards read empty_handle delivered
delivered_reached = next leased_reached (acknowledges "a" "w1" 106 acknowledge_test)

moved_reached : Reach codec guards read empty_handle moved_on
moved_reached = next delivered_reached (applies none (planned ∷ []) applied apply_test)

scoped_claim_test :
    claim_repository_case_effect_matching read with_one 1 (some "k") "w1" 100 10 ("RUN" ∷ [])
    ≡ ok (leased_first, some (claimed (new_effect "k" 1 100 effect) effect.payload "w1" 110))
unfolding claim_effect_inner take_lease
scoped_claim_test = refl

claim-IsInScope_example :
    IsInScope read with_one leased_first 1
      (some "k")
      "w1"
      100
      110
      ("RUN" ∷ [])
      (claimed (new_effect "k" 1 100 effect) effect.payload "w1" 110)
claim-IsInScope_example =
    claim-IsInScope read with_one leased_first 1 (some "k") "w1" 100 10 ("RUN" ∷ [])
      (claimed (new_effect "k" 1 100 effect) effect.payload "w1" 110) scoped_claim_test

Reach-projection_matches_history_example : projection_matches_history moved_on.tables "k" ≡ true
Reach-projection_matches_history_example =
    Reach-projection_matches_history codec guards read moved_on "k" moved_reached

-- Another event that expects the revision of `planned`.
revision_is_taken_once_example :
    apply_transition_batch codec guards none moved_on
      (record planned { event = record planned.event { event_id = "e3" } } ∷ [])
    ≢ ok (moved_on, applied)
revision_is_taken_once_example =
    revision_is_taken_once codec guards read none none delivered moved_on moved_on moved_on
      (planned ∷ []) (record planned { event = record planned.event { event_id = "e3" } } ∷ [])
      planned (record planned { event = record planned.event { event_id = "e3" } }) apply_test
      (Memᴰ.head refl) here (Memᴰ.head refl) refl refl

accepted_is_replayed_example :
    apply_transition_batch codec guards none moved_on (planned ∷ []) ≡ ok (moved_on, replayed)
accepted_is_replayed_example =
    accepted_is_replayed codec guards read none none delivered moved_on moved_on (planned ∷ [])
      applied apply_test here

lease_is_exclusive_example : second.effect_id ≢ effect.effect_id
lease_is_exclusive_example =
    lease_is_exclusive codec guards read with_one leased_first leased_first leased_both "w1" "w2"
      100 105 10 10 none none none none none none
      (claimed (new_effect "k" 1 100 effect) effect.payload "w1" 110)
      (claimed (new_effect "k" 1 100 second) second.payload "w2" 115) one_reached claim_test
      (goes_on starts (repairs "k" repair_test) tt) (omega arith) second_claim_test

delivery_is_final_example : second.effect_id ≢ effect.effect_id
delivery_is_final_example =
    delivery_is_final codec guards read leased_first delivered delivered _ "a" "w1" "w2" 106 120 10
      none none none (claimed (new_effect "k" 1 100 second) second.payload "w2" 130) leased_reached
      acknowledge_test here last_claim_test
