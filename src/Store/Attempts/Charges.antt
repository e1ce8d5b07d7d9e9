-- ===== src/Store/Attempts/Charges.antt =====
-- crates/pip-store/src/lib.rs: an outage is not charged to the stage of a case.
use text.Mathlib.TextEquality.{eq_iff}
use agent_p1p.Prelude.{
  ℕ, ◌≤◌, ◌≡◌, refl, sym, subst, arith, String, Bool, true, false, not, Option, some, List, [], ◌∷◌,
  filter, ==_iff, ok, inl, inr, >>-eq-ok, ok_injective, fail_if,
}
use agent_p1p.Prelude.Text.{not_blank}
use agent_p1p.Store.{EvidenceInput, EvidenceRow, OutboxRow, Tables, invalid_input}
use agent_p1p.Store.Statements.{update, count, insert_evidence}
use agent_p1p.Store.Outbox.{with_lease, is_held}
use agent_p1p.Store.Attempts.{
  StoredDirectAttempt, DirectStore, Json, is_current, fail_row, unavailable_id, outage_evidence,
}
use agent_p1p.Store.Attempts.Cooldown.{record_direct_unavailability_with_cause}
use agent_p1p.Store.Attempts.Counts.{
  is_pending_work, is_outage, is_charged, most_failures, direct_stage_failure_count,
}
use agent_p1p.Store.Attempts.Reports.{IsReported, record_direct_unavailability_with_cause_lem}
use agent_p1p.Store.Attempts.Steps.{end_attempt_lem}
use agent_p1p.Store.Attempts.Delays.{hold_effect_lem}
use agent_p1p.Store.Step.Facts.{insert_evidence-Same}

count-update_mono {ℓ} :
    {A : Type ℓ} (p q chosen : A → Bool) (change : A → A) (rows : List A)
    → ((row : A) → chosen row ≡ true → p (change row) ≡ false)
    → ((row : A) → p row ≡ true → q row ≡ true)
    → count p (update chosen change rows) ≤ count q rows
count-update_mono p q chosen change [] spared kept = omega arith
count-update_mono p q chosen change (row ∷ rows) spared kept =
    ground (arith, count-update_mono p q chosen change rows spared kept, spared row, kept row)

module _ {Value : Type 0} where
  -- The evidence that is inserted comes first.
  pub insert_evidence-one :
      (is_object : Value → Bool) (key : String) (at : ℕ) (t t' : Tables Value)
      (item : EvidenceInput Value)
      → insert_evidence is_object key at t (item ∷ []) ≡ ok t'
      → t'.evidence ≡ record { evidence = item; case_key = key; observed_at = at } ∷ t.evidence
  unfolding insert_evidence
  insert_evidence-one is_object key at t t' item h = ground arith

  chosen_is_out :
      (new : EvidenceRow Value) (evidence : List (EvidenceRow Value)) (e : String) (id : ℕ)
      (owner : String) (now : ℕ) (error : String) (row : StoredDirectAttempt String)
      → is_outage id new ≡ true
      → is_current id owner now row ≡ true
      → is_charged (new ∷ evidence) e (fail_row now error row) ≡ false
  chosen_is_out new evidence e id owner now error row out chosen =
      let same : row.attempt_id ≡ id = (==_iff row.attempt_id id).0 (ground arith) in
      let out' = subst (λ k. is_outage k new ≡ true) (sym same) out in ground arith

  -- Every count of charged failures stands or falls.
  charged-le :
      (new : EvidenceRow Value) (evidence : List (EvidenceRow Value)) (e : String) (id : ℕ)
      (owner : String) (now : ℕ) (error : String) (rows : List (StoredDirectAttempt String))
      → is_outage id new ≡ true
      → count
          (is_charged (new ∷ evidence) e)
          (update (is_current id owner now) (fail_row now error) rows)
        ≤ count (is_charged evidence e) rows
  charged-le new evidence e id owner now error rows out =
      count-update_mono (is_charged (new ∷ evidence) e) (is_charged evidence e)
        (is_current id owner now) (fail_row now error) rows
        (λ row chosen. chosen_is_out new evidence e id owner now error row out chosen)
        (λ row h. ground arith)

  most_failures-le :
      (key : String) (evidence evidence' : List (EvidenceRow Value))
      (attempts attempts' : List (StoredDirectAttempt String)) (chosen : OutboxRow → Bool)
      (lease : Option (String × ℕ)) (rows : List OutboxRow)
      → ((e : String)
          → count (is_charged evidence' e) attempts' ≤ count (is_charged evidence e) attempts)
      → most_failures evidence' attempts'
          (filter (is_pending_work key) (update chosen (with_lease lease) rows))
        ≤ most_failures evidence attempts (filter (is_pending_work key) rows)
  most_failures-le key evidence evidence' attempts attempts' chosen lease [] le = omega arith
  most_failures-le key evidence evidence' attempts attempts' chosen lease (row ∷ rows) le = ground (
    arith,
    most_failures-le key evidence evidence' attempts attempts' chosen lease rows le,
    le row.effect_id,
  )

  direct_stage_failure_count_lem :
      (store : DirectStore Value) (key : String) (n : ℕ)
      → direct_stage_failure_count store key ≡ ok n
      → n
        ≡ most_failures store.handle.tables.evidence store.attempts
            (filter (is_pending_work key) store.handle.tables.outbox)
  unfolding direct_stage_failure_count
  direct_stage_failure_count_lem store key n h =
      let (_, h1) =
        >>-eq-ok (fail_if (not (not_blank key)) (invalid_input "case key is required")) _ h in
      sym (ok_injective h1)

  reported-le :
      (json : Json Value) (store after : DirectStore Value) (id : ℕ) (owner : String) (now : ℕ)
      (error cause : String) (retry_at : ℕ) (attempt : StoredDirectAttempt String) (key : String)
      → IsReported json store after id owner now error cause retry_at attempt
      → most_failures after.handle.tables.evidence after.attempts
          (filter (is_pending_work key) after.handle.tables.outbox)
        ≤ most_failures store.handle.tables.evidence store.attempts
            (filter (is_pending_work key) store.handle.tables.outbox)
  reported-le json store after id owner now error cause retry_at attempt key reported =
      let (_, ended) =
        end_attempt_lem store.attempts after.attempts id owner now error _ reported.ended in
      let noted =
        insert_evidence-one json.is_object attempt.case_key now store.handle.tables reported.tables
          (outage_evidence json attempt.effect_id id cause error retry_at) reported.noted in
      let (_, _, same) =
        insert_evidence-Same json.is_object attempt.case_key now store.handle.tables reported.tables
          _ reported.noted in
      let (_, held) =
        hold_effect_lem reported.tables.outbox reported.rows attempt.effect_id owner retry_at _
          reported.held in
      let new : EvidenceRow Value = record {
        evidence = outage_evidence json attempt.effect_id id cause error retry_at;
        case_key = attempt.case_key;
        observed_at = now;
      } in
      let le =
        most_failures-le key store.handle.tables.evidence (new ∷ store.handle.tables.evidence)
          store.attempts (update (is_current id owner now) (fail_row now error) store.attempts)
          (is_held attempt.effect_id owner) (some (owner, retry_at)) store.handle.tables.outbox
          (λ e.
            charged-le new store.handle.tables.evidence e id owner now error store.attempts
              (rw ((eq_iff (unavailable_id id) (unavailable_id id)).1 refl) refl)) in
      rw (reported.handle_after, ended, held, noted, same) le

  -- A report that the provider of an attempt was out, whether it is the first or a repetition,
  -- raises the failures charged to the current stage of no case.
  pub outage_is_not_charged :
      (json : Json Value) (store after : DirectStore Value) (id : ℕ) (owner : String) (now : ℕ)
      (error cause : String) (retry_at : ℕ) (key : String) (before later : ℕ)
      → record_direct_unavailability_with_cause json store id owner now error cause
        ≡ ok (after, retry_at)
      → direct_stage_failure_count store key ≡ ok before
      → direct_stage_failure_count after key ≡ ok later
      → later ≤ before
  outage_is_not_charged json store after id owner now error cause retry_at key before later h e e' =
      let was = direct_stage_failure_count_lem store key before e in
      let is = direct_stage_failure_count_lem after key later e' in
      elim (record_direct_unavailability_with_cause_lem json store after id owner now error cause
        retry_at h) [
          | inl (_, (attempt, _, reported)) ↦
              let le =
                reported-le json store after id owner now error cause retry_at attempt key
                  reported in
              omega arith
          | inr (same, _) ↦
              let unmoved = subst (λ s. direct_stage_failure_count s key ≡ ok later) same e' in
              let is' = direct_stage_failure_count_lem store key later unmoved in omega arith
        ]
