-- ===== src/Store/Attempts/Kept.antt =====
-- crates/pip-store/src/lib.rs: every step of the store keeps the evidence that was stored, and how the
-- store was opened.
use agent_p1p.Prelude.{
  ℕ, ◌≡◌, refl, sym, ◌∙◌, subst, ap, String, some, List, [], ◌∷◌, ok, inl, inr, >>=-eq-ok,
  ok_injective,
}
use agent_p1p.Controller.Ledger.{EffectPayload}
use agent_p1p.Store.{OutboxRow, Stored, Tables}
use agent_p1p.Store.Statements.{insert_evidence}
use agent_p1p.Store.Checks.{Codec, Guards}
use agent_p1p.Store.Completion.{existing_evidence, KeepsEvidence, insert_evidence-KeepsEvidence}
use agent_p1p.Store.Moves.Evidence.{same-KeepsEvidence, Move-KeepsEvidence}
use agent_p1p.Store.Moves.Kept.{Move-is_read_only}
use agent_p1p.Store.Attempts.{
  StoredDirectAttempt, DirectStore, Json, record_expired, outage_evidence,
}
use agent_p1p.Store.Attempts.Cooldown.{record_direct_unavailability_with_cause}
use agent_p1p.Store.Attempts.Reports.{record_direct_unavailability_with_cause_lem}
use agent_p1p.Store.Attempts.Steps.{
  Step, begins, finishes, fails, reports, cools, moves, Run, start, then_step,
}
use agent_p1p.Store.Attempts.Outbox.{
  begin_direct_attempt-handle, complete_direct_attempt-handle, fail_direct_attempt-handle,
  fail_direct_attempt_with_cooldown-handle,
}

module _ {Value : Type 0} where
  record_expired-KeepsEvidence :
      (json : Json Value) (effect_id : String) (now : ℕ) (t t' : Tables Value)
      (attempts : List (StoredDirectAttempt String))
      → record_expired json effect_id now t attempts ≡ ok t'
      → KeepsEvidence t t'
  unfolding record_expired
  record_expired-KeepsEvidence json effect_id now t t' [] h id row found =
      subst (λ u. existing_evidence u.evidence id ≡ some row) (ok_injective h) found
  record_expired-KeepsEvidence json effect_id now t t' (attempt ∷ attempts) h id row found =
      let (u, one, rest) =
        >>=-eq-ok
          (insert_evidence json.is_object attempt.case_key now t (
            outage_evidence json effect_id attempt.attempt_id "LEASE_EXPIRED"
              "worker lease expired before completion" now
            ∷ []))
          _ h in
      record_expired-KeepsEvidence json effect_id now u t' attempts rest id row
        (insert_evidence-KeepsEvidence json.is_object attempt.case_key now t u _ one id row found)

  -- What a step keeps: the evidence, and whether the handle may write.
  abbrev pub Keeps : DirectStore Value → DirectStore Value → Type 0
  Keeps store store' =
      KeepsEvidence store.handle.tables store'.handle.tables
      × (store'.handle.is_read_only ≡ store.handle.is_read_only)

  same-Keeps :
      (store store' : DirectStore Value) → store'.handle ≡ store.handle → Keeps store store'
  same-Keeps store store' same = (
    same-KeepsEvidence store.handle.tables store'.handle.tables (ap (λ g. g.tables.evidence) same),
    ap (λ g. g.is_read_only) same,
  )

  reported-Keeps :
      (json : Json Value) (store store' : DirectStore Value) (id : ℕ) (owner : String) (now : ℕ)
      (error cause : String) (retry_at : ℕ)
      → record_direct_unavailability_with_cause json store id owner now error cause
        ≡ ok (store', retry_at)
      → Keeps store store'
  reported-Keeps json store store' id owner now error cause retry_at h =
      elim (record_direct_unavailability_with_cause_lem json store store' id owner now error cause
        retry_at h) [
          | inl (_, (attempt, _, reported)) ↦ (
            subst (λ g. KeepsEvidence store.handle.tables g.tables) (sym reported.handle_after)
                (insert_evidence-KeepsEvidence json.is_object attempt.case_key now
                  store.handle.tables reported.tables _ reported.noted),
            ap (λ g. g.is_read_only) reported.handle_after,
          )
          | inr (same, _) ↦ same-Keeps store store' (ap (λ s. s.handle) same)
        ]

  module _ (json : Json Value) (codec : Codec Value) (guards : Guards Value)
      (read : OutboxRow → Stored EffectPayload) where
    Step-Keeps :
        {store store' : DirectStore Value}
        → Step json codec guards read store store'
        → Keeps store store'
    Step-Keeps {store} {store'} (begins claim task_id at id h) =
        let (t, expired, after) =
          begin_direct_attempt-handle json store store' claim task_id at id h in
        (
          subst (λ g. KeepsEvidence store.handle.tables g.tables) (sym after)
              (record_expired-KeepsEvidence json claim.effect_id at store.handle.tables t _
                expired),
          ap (λ g. g.is_read_only) after,
        )
    Step-Keeps {store} {store'} (finishes id owner now result h) =
        same-Keeps store store'
          (complete_direct_attempt-handle json store store' id owner now result h)
    Step-Keeps {store} {store'} (fails id owner now error h) =
        same-Keeps store store' (fail_direct_attempt-handle store store' id owner now error h)
    Step-Keeps {store} {store'} (reports id owner now error cause retry_at h) =
        reported-Keeps json store store' id owner now error cause retry_at h
    Step-Keeps {store} {store'} (cools id owner now error cooldown retry_at h) =
        let (_, _, _, _, after) =
          fail_direct_attempt_with_cooldown-handle store store' id owner now error cooldown retry_at
            h in
        (
          same-KeepsEvidence store.handle.tables store'.handle.tables
              (ap (λ g. g.tables.evidence) after),
          ap (λ g. g.is_read_only) after,
        )
    Step-Keeps (moves move _) =
        (Move-KeepsEvidence codec guards read move, Move-is_read_only codec guards read move)

    pub Run-Keeps :
        {store store' : DirectStore Value}
        → Run json codec guards read store store'
        → Keeps store store'
    Run-Keeps start = (λ id row found. found, refl)
    Run-Keeps (then_step run step) =
        let (kept, mode) = Run-Keeps run in
        let (kept', mode') = Step-Keeps step in
        (λ id row found. kept' id row (kept id row found), mode' ∙ mode)
