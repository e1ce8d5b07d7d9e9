-- ===== src/Store/Attempts/Tests.antt =====
-- The direct attempts of crates/pip-store/src/lib.rs on concrete rows: an effect is leased, an attempt
-- begun, and then completed, or reported as an outage.
use agent_p1p.Prelude.{
  ℕ, ◌+◌, ◌≤◌, ◌≡◌, ◌≢◌, refl, arith, String, true, Option, none, some, [], ◌∷◌, ok, err, ◌==◌,
  if◌then◌else◌,
}
use agent_p1p.Core.Domain.{decimal}
use agent_p1p.Controller.Ledger.{EffectPayload, EffectInput}
use agent_p1p.Controller.Ledger.Batch.{applied}
use agent_p1p.Store.{NewCase, OutboxRow, Handle, Stored, database, idempotency_conflict}
use agent_p1p.Store.Statements.{insert_event, insert_evidence, insert_effects, new_effect}
use agent_p1p.Store.Checks.{Codec, Guards, validate_common}
use agent_p1p.Store.Apply.{with_tables}
use agent_p1p.Store.Creation.{insert_case, start_case, create_case}
use agent_p1p.Store.Creation.Facts.{with_case}
use agent_p1p.Store.History.{case_at_revision_limit, reconstruct_case, repair_case_projection}
use agent_p1p.Store.Outbox.{
  ClaimedEffect, claimed, with_lease, take_lease, claim_effect_inner, with_outbox,
}
use agent_p1p.Store.Moves.{creates, leases, repairs, empty_handle}
use agent_p1p.Store.Moves.Exclusive.{starts}
use agent_p1p.Store.Attempts.{
  StoredDirectAttempt, DirectStore, Json, fail_row, complete_row, new_attempt, insert_attempt,
  record_expired, outage_evidence, check_claim, check_lease, check_completion, check_failure,
  complete_attempt, end_attempt, begin_direct_attempt, complete_direct_attempt,
}
use agent_p1p.Store.Attempts.Cooldown.{
  next_retry, hold_effect, first_unavailability, record_direct_unavailability_with_cause,
  fail_direct_attempt_with_cooldown, attempt_row,
}
use agent_p1p.Store.Attempts.Counts.{
  completed_direct_attempt, with_result, direct_stage_failure_count,
  failed_direct_attempt_count_for_case, direct_stage_outage,
}
use agent_p1p.Store.Attempts.Steps.{Run, start, then_step, reports, begins, moves, empty_store}
use agent_p1p.Store.Attempts.Final.{settled_is_final}
use agent_p1p.Store.Attempts.Orderly.{IsOrderly, Run-IsOrderly}
use agent_p1p.Store.Attempts.Results.{result_is_found}
use agent_p1p.Store.Attempts.Held.{delay_is_kept}
use agent_p1p.Store.Attempts.Charges.{outage_is_not_charged}
use agent_p1p.Store.Attempts.Repeats.{IsFaithful, report_is_repeatable}

-- A JSON object with a number, or the record of an outage.
data Doc : Type 0 where
  number : ℕ → Doc
  outage : ℕ → String → String → ℕ → Doc

abbrev cause_of : Doc → Option String
cause_of (number n) = none
cause_of (outage id cause error retry_at) = some cause

abbrev error_of : Doc → Option String
error_of (number n) = none
error_of (outage id cause error retry_at) = some error

abbrev retry_at_of : Doc → Option ℕ
retry_at_of (number n) = none
retry_at_of (outage id cause error retry_at) = some retry_at

-- A number is printed, but 9 is read back as 4.
abbrev text : Doc → String
text (number n) = if n == 9 then "9" else "4"
text (outage id cause error retry_at) = cause

abbrev json : Json Doc
json = record {
  is_object = λ _. true;
  text = text;
  parse = λ _. some (number 4);
  sha256 = λ t. t;
  outage = outage;
  cause_of = cause_of;
  error_of = error_of;
  retry_at_of = retry_at_of;
}

json-IsFaithful : IsFaithful json
json-IsFaithful = record {
  error_read = λ id cause error retry_at. refl;
  retry_read = λ id cause error retry_at. refl;
}

abbrev codec : Codec Doc
codec = record {
  is_object = λ _. true;
  hash_transition = λ input. input.event.event_id;
  hash_new_case = λ input. input.event.event_id;
}

abbrev guards : Guards Doc
guards = record {
  infrastructure_recovery = λ _ _ _. ok tt;
  follow_up_recovery = λ _ _ _. ok tt;
  native_review_retry = λ _ _ _. ok tt;
  review_coordination_recovery = λ _ _ _. ok tt;
  reauthorization = λ _ _ _. ok 1;
  remediation_extension = λ _ _ _. ok 1;
  resume = λ _ _ _. ok 1;
}

abbrev read : OutboxRow → Stored EffectPayload
read row = ok row.payload

abbrev effect : EffectInput
effect = record {
  effect_id = "a";
  effect_type = "RUN_DIRECT_BUILDER";
  payload = record {
    case_key = "k";
    state_revision = 1;
    effect = "run";
    remediation_round = 0;
    plan_version = 0;
    pr_number = none;
    head_sha = none;
  };
}

abbrev other : EffectInput
other = record effect { effect_id = "b" }

abbrev opened : NewCase Doc
opened = record {
  case_key = "k";
  repository_id = 1;
  issue_number = 7;
  workflow_version = 1;
  policy_revision = 1;
  initial_state = "ELIGIBLE";
  observed_at = 100;
  event = record { event_id = "e1"; event_type = "LABELLED"; payload = number 0 };
  effects = effect ∷ other ∷ [];
}

abbrev with_one : Handle Doc
with_one = with_tables empty_handle (
    with_case codec empty_handle opened
      (new_effect "k" 1 100 other ∷ new_effect "k" 1 100 effect ∷ []))

create_test : create_case codec empty_handle opened ≡ ok (with_one, applied)
unfolding create_case start_case insert_case insert_event insert_effects validate_common
create_test = refl

abbrev leased_until : ℕ → Handle Doc
leased_until end =
    with_outbox with_one (
      new_effect "k" 1 100 other ∷ with_lease (some ("w1", end)) (new_effect "k" 1 100 effect) ∷ [])

abbrev claim : ClaimedEffect
claim = claimed (new_effect "k" 1 100 effect) effect.payload "w1" 110

claim_test :
    claim_effect_inner read with_one "w1" 100 10 none none none ≡ ok (leased_until 110, some claim)
unfolding claim_effect_inner take_lease
claim_test = refl

abbrev first : StoredDirectAttempt String
first = new_attempt claim "t1" 101 1

abbrev begun : DirectStore Doc
begun = record { handle = leased_until 110; attempts = first ∷ [] }

begin_test :
    begin_direct_attempt json (record { handle = leased_until 110; attempts = [] }) claim "t1" 101
    ≡ ok (begun, 1)
unfolding begin_direct_attempt check_claim check_lease record_expired insert_attempt
begin_test = refl

-- While the attempt runs, no other is begun.
begin_again_test : begin_direct_attempt json begun claim "t2" 102 ≡ err database
unfolding begin_direct_attempt check_claim check_lease record_expired insert_attempt
begin_again_test = refl

begun_run : Run json codec guards read empty_store begun
begun_run =
    then_step
      (then_step (then_step start (moves (creates opened applied create_test) refl))
        (moves (leases "w1" 100 10 none none none (some claim) claim_test) refl))
      (begins claim "t1" 101 1 begin_test)

abbrev done : DirectStore Doc
done = record { handle = leased_until 110; attempts = complete_row 105 "4" "4" first ∷ [] }

complete_test : complete_direct_attempt json begun 1 "w1" 105 (number 4) ≡ ok done
unfolding complete_direct_attempt check_completion complete_attempt
complete_test = refl

repair_test : repair_case_projection (leased_until 110) "k" ≡ ok (leased_until 110)
unfolding repair_case_projection reconstruct_case case_at_revision_limit
repair_test = refl

done_later : Run json codec guards read done done
done_later = then_step start (moves (repairs "k" repair_test) refl)

abbrev reported : DirectStore Doc
reported = record {
  handle = with_tables (leased_until 165) (record (leased_until 165).tables {
    evidence =
        record {
          evidence = outage_evidence json "a" 1 "MODEL_UNAVAILABLE" "no model" 165;
          case_key = "k";
          observed_at = 105;
        }
        ∷ [];
  });
  attempts = fail_row 105 "no model" first ∷ [];
}

report_test :
    record_direct_unavailability_with_cause json begun 1 "w1" 105 "no model" "MODEL_UNAVAILABLE"
    ≡ ok (reported, 165)
unfolding record_direct_unavailability_with_cause check_failure first_unavailability next_retry
    end_attempt insert_evidence hold_effect decimal
report_test = refl

second_report_test :
    record_direct_unavailability_with_cause json reported 1 "w1" 106 "no model" "MODEL_UNAVAILABLE"
    ≡ ok (reported, 165)
unfolding record_direct_unavailability_with_cause check_failure decimal
second_report_test = refl

fail_test :
    fail_direct_attempt_with_cooldown begun 1 "w1" 105 " no model " 30
    ≡ ok (record { handle = leased_until 135; attempts = fail_row 105 "no model" first ∷ [] }, 135)
unfolding fail_direct_attempt_with_cooldown check_failure end_attempt hold_effect
fail_test = refl

outage_test :
    direct_stage_outage json reported "k"
    ≡ ok (
        some (record {
          effect_id = "a";
          since = 105;
          cause = "MODEL_UNAVAILABLE";
          error = "no model";
        }))
unfolding direct_stage_outage decimal
outage_test = refl

charged_before_test : direct_stage_failure_count begun "k" ≡ ok 0
unfolding direct_stage_failure_count
charged_before_test = refl

charged_test : direct_stage_failure_count reported "k" ≡ ok 0
unfolding direct_stage_failure_count decimal
charged_test = refl

failed_test :
    failed_direct_attempt_count_for_case
      (record { handle = leased_until 110; attempts = fail_row 105 "broken" first ∷ [] })
      "k"
    ≡ ok 1
unfolding failed_direct_attempt_count_for_case
failed_test = refl

other_claim_test :
    claim_effect_inner read reported.handle "w2" 140 10 none none none
    ≡ ok (
      with_outbox reported.handle (
          with_lease (some ("w2", 150)) (new_effect "k" 1 100 other)
          ∷ with_lease (some ("w1", 165)) (new_effect "k" 1 100 effect)
          ∷ []),
      some (claimed (new_effect "k" 1 100 other) effect.payload "w2" 150),
    )
unfolding claim_effect_inner take_lease
other_claim_test = refl

settled_is_final_example : attempt_row done.attempts 1 ≡ some (complete_row 105 "4" "4" first)
settled_is_final_example =
    settled_is_final json codec guards read 1 (complete_row 105 "4" "4" first) done_later refl refl

Run-IsOrderly_example : IsOrderly begun.attempts
Run-IsOrderly_example = Run-IsOrderly json codec guards read begun_run

result_is_found_example :
    completed_direct_attempt json done "a"
    ≡ ok (some (with_result (complete_row 105 "4" "4" first) (some (number 4))))
result_is_found_example =
    result_is_found json codec guards read begun done done 1 "w1" 105 (number 4) (number 4) first
      begun_run refl refl complete_test refl done_later

-- A result that is read back as another value is a conflict.
misread_test :
    completed_direct_attempt json
      (record { handle = leased_until 110; attempts = complete_row 105 "9" "9" first ∷ [] })
      "a"
    ≡ err (idempotency_conflict "direct-attempt:1")
unfolding completed_direct_attempt decimal
misread_test = refl

delay_is_kept_example :
    (165 ≡ 105 + 60) × (105 + 60 ≤ 165) × (165 ≤ 105 + 3600) × (other.effect_id ≢ effect.effect_id)
delay_is_kept_example =
    delay_is_kept json codec guards read begun reported reported.handle _ 1 "w1" "w2" 105 140 10 165
      "no model" "MODEL_UNAVAILABLE" first none none none
      (claimed (new_effect "k" 1 100 other) effect.payload "w2" 150) begun_run refl refl report_test
      starts (omega arith) other_claim_test

outage_is_not_charged_example : 0 ≤ 0
outage_is_not_charged_example =
    outage_is_not_charged json begun reported 1 "w1" 105 "no model" "MODEL_UNAVAILABLE" 165 "k" 0 0
      report_test charged_before_test charged_test

reported_later : Run json codec guards read reported reported
reported_later =
    then_step start (reports 1 "w1" 106 "no model" "MODEL_UNAVAILABLE" 165 second_report_test)

report_is_repeatable_example :
    record_direct_unavailability_with_cause json reported 1 "w1" 500 "no model" "LEASE_EXPIRED"
    ≡ ok (reported, 165)
report_is_repeatable_example =
    report_is_repeatable json json-IsFaithful codec guards read begun reported reported 1 "w1" 105
      500 "no model" "MODEL_UNAVAILABLE" "LEASE_EXPIRED" 165 report_test reported_later refl
