-- ===== src/Store/Attempts/Held.antt =====
-- crates/pip-store/src/lib.rs: an effect whose provider was out is not claimed before its delay is
-- over.
use agent_p1p.Prelude.{
  ℕ, ◌+◌, ◌≤◌, ◌≡◌, ◌≢◌, sym, ◌∙◌, subst, arith, String, Option, none, some, List, ok, inl, inr,
  some_injective,
}
use agent_p1p.Controller.Ledger.{EffectPayload}
use agent_p1p.Store.{OutboxRow, Handle, Stored}
use agent_p1p.Store.Statements.{count}
use agent_p1p.Store.Checks.{Codec, Guards}
use agent_p1p.Store.Step.Facts.{insert_evidence-Same}
use agent_p1p.Store.Outbox.{ClaimedEffect, claim_effect_inner}
use agent_p1p.Store.Outbox.Rows.{IsUnique}
use agent_p1p.Store.Outbox.Once.{Each-mono}
use agent_p1p.Store.Completion.{existing_evidence}
use agent_p1p.Store.Moves.Leases.{IsTaken, is_claimable_mono, claim_effect_inner-held}
use agent_p1p.Store.Moves.Exclusive.{During, During-IsTaken}
use agent_p1p.Store.Attempts.{StoredDirectAttempt, DirectStore, Json, unavailable_id}
use agent_p1p.Store.Attempts.Cooldown.{
  outage_delay, is_outage_of, attempt_row, record_direct_unavailability_with_cause,
}
use agent_p1p.Store.Attempts.Reports.{IsReported, record_direct_unavailability_with_cause_lem}
use agent_p1p.Store.Attempts.Steps.{Run, empty_store}
use agent_p1p.Store.Attempts.Delays.{outage_delay_bounds, next_retry_lem, hold_effect-IsTaken}
use agent_p1p.Store.Attempts.Outbox.{Run-IsUnique}

module _ {Value : Type 0} (json : Json Value) where
  -- The report of an attempt that has no evidence yet.
  report-IsReported :
      (store after : DirectStore Value) (id : ℕ) (owner : String) (now : ℕ) (error cause : String)
      (retry_at : ℕ) (attempt : StoredDirectAttempt String)
      → attempt_row store.attempts id ≡ some attempt
      → existing_evidence store.handle.tables.evidence (unavailable_id id) ≡ none
      → record_direct_unavailability_with_cause json store id owner now error cause
        ≡ ok (after, retry_at)
      → IsReported json store after id owner now error cause retry_at attempt
  report-IsReported store after id owner now error cause retry_at attempt found new h =
      elim (record_direct_unavailability_with_cause_lem json store after id owner now error cause
        retry_at h) [
          | inl (_, (other, found', reported)) ↦
              subst (IsReported json store after id owner now error cause retry_at)
                (some_injective (sym found' ∙ found)) reported
          | inr (_, (row, old, _)) ↦ cc
        ]

  module _ (codec : Codec Value) (guards : Guards Value)
      (read : OutboxRow → Stored EffectPayload) where
    -- In a store that began empty, the first report that the provider of an attempt was out delays
    -- the effect of the attempt by a minute at least and an hour at most, as `outage_delay` has it
    -- of the outages that the effect has had before. Up to that time nobody claims the effect,
    -- whatever moves of Store/Moves.antt are made but a release of the effect or a claim at a later
    -- time.
    pub delay_is_kept :
        (store after : DirectStore Value) (h h' : Handle Value) (id : ℕ) (owner owner' : String)
        (now now' seconds retry_at : ℕ) (error cause : String)
        (attempt : StoredDirectAttempt String) (types : Option (List String))
        (repository : Option ℕ) (key : Option String) (claim : ClaimedEffect)
        → Run json codec guards read empty_store store
        → attempt_row store.attempts id ≡ some attempt
        → existing_evidence store.handle.tables.evidence (unavailable_id id) ≡ none
        → record_direct_unavailability_with_cause json store id owner now error cause
          ≡ ok (after, retry_at)
        → During codec guards read attempt.effect_id retry_at after.handle h
        → now' ≤ retry_at
        → claim_effect_inner read h owner' now' seconds types repository key ≡ ok (h', some claim)
        → (retry_at
            ≡ now
              + outage_delay (count (is_outage_of attempt.effect_id) store.handle.tables.evidence))
          × (now + 60 ≤ retry_at)
          × (retry_at ≤ now + 3600)
          × (claim.effect_id ≢ attempt.effect_id)
    delay_is_kept store after h h' id owner owner' now now' seconds retry_at error cause attempt
          types repository key claim run found new reports during earlier claims =
        let reported =
          report-IsReported store after id owner now error cause retry_at attempt found new
            reports in
        let retry_is = next_retry_lem now _ retry_at reported.delayed in
        let (low, high) =
          outage_delay_bounds
            (count (is_outage_of attempt.effect_id) store.handle.tables.evidence) in
        let (_, _, same) =
          insert_evidence-Same json.is_object attempt.case_key now store.handle.tables
            reported.tables _ reported.noted in
        let unique = subst IsUnique (sym same) (Run-IsUnique json codec guards read run) in
        let taken =
          subst (λ g. IsTaken Value attempt.effect_id retry_at g.tables.outbox)
            (sym reported.handle_after)
            (hold_effect-IsTaken Value reported.tables.outbox reported.rows attempt.effect_id owner
              retry_at _ unique reported.held) in
        let (known, each) =
          During-IsTaken codec guards read attempt.effect_id retry_at during taken in
        (
          retry_is,
          omega arith,
          omega arith,
          claim_effect_inner-held read h h' owner' attempt.effect_id now' seconds types repository
              key claim
              (
                known,
                Each-mono attempt.effect_id _ _ h.tables.outbox
                    (λ row. is_claimable_mono now' retry_at row earlier) each,
              )
              claims,
        )
