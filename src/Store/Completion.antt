-- ===== src/Store/Completion.antt =====
-- crates/pip-store/src/lib.rs: `complete_effect_evidence`, which delivers an effect with the evidence
-- that it was performed. Whether two JSON values print alike is a parameter.
use text.Mathlib.Text.{◌==◌ as str_eq}
use text.Mathlib.TextEquality.{eq_iff}
use agent_p1p.Prelude.{
  ℕ, ◌≡◌, sym, subst, arith, true, ◌∙◌, ap, String, Bool, false, not, ◌&&◌, ◌||◌, Option, none,
  some, List, [], ◌∷◌, ◌==◌, if◌then◌else◌, is_some, any, ok, err, ◌>>=◌, ◌>>◌, fail_if, ok_or,
  >>=-eq-ok, >>-eq-ok, ok_injective, ◌⊎◌, inl, inr, Bool-cases, if-true, if-false,
}
use agent_p1p.Prelude.Text.{not_blank}
use agent_p1p.Controller.Ledger.Batch.{ApplyResult, applied, replayed}
use agent_p1p.Store.{
  invalid_input, idempotency_conflict, lease_lost, Stored, EvidenceInput, EvidenceRow, OutboxRow,
  Tables, Handle, sql_u64, ensure_writable,
}
use agent_p1p.Store.Statements.{add_evidence, insert_evidence, update, count}
use agent_p1p.Store.Step.Facts.{Same, insert_evidence-Same, insert_evidence-runs}
use agent_p1p.Store.Apply.{with_tables}
use agent_p1p.Store.Outbox.{is_held_at, deliver}

-- `FROM outbox WHERE effect_id = ?1`
abbrev pub effect_row : List OutboxRow → String → Option OutboxRow
effect_row [] id = none
effect_row (row ∷ rows) id = if str_eq row.effect_id id then some row else effect_row rows id

module _ {Value : Type 0} where
  -- `FROM evidence WHERE evidence_id = ?1`
  abbrev pub existing_evidence : List (EvidenceRow Value) → String → Option (EvidenceRow Value)
  existing_evidence [] id = none
  existing_evidence (row ∷ rows) id =
      if str_eq row.evidence.evidence_id id then some row else existing_evidence rows id

  -- What is asked of new tables: the evidence that was stored is found as it was.
  abbrev pub KeepsEvidence : Tables Value → Tables Value → Type 0
  KeepsEvidence t t' =
      (id : String) (row : EvidenceRow Value)
      → existing_evidence t.evidence id ≡ some row
      → existing_evidence t'.evidence id ≡ some row

  -- Evidence may be added, and the runs stay.
  abbrev pub Adds : Tables Value → Tables Value → Type 0
  Adds t t' = KeepsEvidence t t' × (t'.runs ≡ t.runs)

  known_evidence :
      (rows : List (EvidenceRow Value)) (id : String) (row : EvidenceRow Value)
      → existing_evidence rows id ≡ some row
      → any (λ old. str_eq old.evidence.evidence_id id) rows ≡ true
  known_evidence [] id row found = cc
  known_evidence (first ∷ rows) id row found = ground (arith, known_evidence rows id row)

  add_evidence-KeepsEvidence :
      (is_object : Value → Bool) (key : String) (at : ℕ) (t : Tables Value)
      (item : EvidenceInput Value)
      → any (λ old. str_eq old.evidence.evidence_id item.evidence_id) t.evidence ≡ false
      → KeepsEvidence t (add_evidence is_object key at item t)
  add_evidence-KeepsEvidence is_object key at t item new id row found =
      elim (Bool-cases (str_eq item.evidence_id id)) [
        | inl same ↦
            let known = known_evidence t.evidence id row found in
            let known' =
              subst (λ k. any (λ old. str_eq old.evidence.evidence_id k) t.evidence ≡ true)
                (sym ((eq_iff item.evidence_id id).0 same)) known in
            cc
        | inr other ↦ rw other found
      ]

  insert_evidence-cons :
      (is_object : Value → Bool) (key : String) (at : ℕ) (t t' : Tables Value)
      (item : EvidenceInput Value) (items : List (EvidenceInput Value))
      → insert_evidence is_object key at t (item ∷ items) ≡ ok t'
      → (any (λ old. str_eq old.evidence.evidence_id item.evidence_id) t.evidence ≡ false)
        × (insert_evidence is_object key at (add_evidence is_object key at item t) items ≡ ok t')
  unfolding insert_evidence
  insert_evidence-cons is_object key at t t' item items h = ground arith

  insert_evidence-nil :
      (is_object : Value → Bool) (key : String) (at : ℕ) (t t' : Tables Value)
      → insert_evidence is_object key at t [] ≡ ok t'
      → t ≡ t'
  unfolding insert_evidence
  insert_evidence-nil is_object key at t t' h = ok_injective h

  pub insert_evidence-KeepsEvidence :
      (is_object : Value → Bool) (key : String) (at : ℕ) (t t' : Tables Value)
      (items : List (EvidenceInput Value))
      → insert_evidence is_object key at t items ≡ ok t'
      → KeepsEvidence t t'
  insert_evidence-KeepsEvidence is_object key at t t' [] h =
      subst (KeepsEvidence t) (insert_evidence-nil is_object key at t t' h) (λ id row found. found)
  insert_evidence-KeepsEvidence is_object key at t t' (item ∷ items) h =
      let (new, rest) = insert_evidence-cons is_object key at t t' item items h in
      λ id row found.
        insert_evidence-KeepsEvidence is_object key at (add_evidence is_object key at item t) t'
          items rest id row (add_evidence-KeepsEvidence is_object key at t item new id row found)

  module _ (same_value : Value → Value → Bool) (is_object : Value → Bool) where
    abbrev pub is_same_evidence : String → EvidenceInput Value → Option (EvidenceRow Value) → Bool
    is_same_evidence key evidence none = false
    is_same_evidence key evidence (some row) =
        str_eq row.case_key key
        && str_eq row.evidence.kind evidence.kind
        && str_eq row.evidence.source evidence.source
        && same_value row.evidence.payload evidence.payload

    -- The evidence is stored and the effect delivered, under its lease.
    abbrev pub deliver_evidence :
        Handle Value
        → String
        → String
        → ℕ
        → EvidenceInput Value
        → OutboxRow
        → Stored (Handle Value × ApplyResult)
    deliver_evidence handle id owner now evidence row = do
      sql_u64 now
      fail_if (not (any (is_held_at id owner now) handle.tables.outbox)) (lease_lost id)
      t ← insert_evidence is_object row.case_key now handle.tables (evidence ∷ [])
      fail_if (not (count (is_held_at id owner now) t.outbox == 1)) (lease_lost id)
      ok (
        with_tables handle
            (record t { outbox = update (is_held_at id owner now) (deliver now) t.outbox }),
        applied,
      )

    abbrev pub settle_evidence :
        Handle Value
        → String
        → String
        → ℕ
        → EvidenceInput Value
        → OutboxRow
        → Option (EvidenceRow Value)
        → Stored (Handle Value × ApplyResult)
    settle_evidence handle id owner now evidence row existing =
        if is_some row.delivered_at
        then (if is_same_evidence row.case_key evidence existing
            then ok (handle, replayed)
            else err (idempotency_conflict evidence.evidence_id))
        else if is_some row.superseded || is_some existing
        then err (idempotency_conflict evidence.evidence_id)
        else deliver_evidence handle id owner now evidence row

    unfoldable pub complete_effect_evidence :
        Handle Value
        → String
        → String
        → ℕ
        → EvidenceInput Value
        → Stored (Handle Value × ApplyResult)
    complete_effect_evidence handle id owner now evidence = do
      ensure_writable handle
      fail_if
          (not (not_blank id)
            || not (not_blank owner)
            || not (not_blank evidence.evidence_id)
            || not (not_blank evidence.kind)
            || not (not_blank evidence.source)
            || not (is_object evidence.payload))
          (invalid_input "effect, owner, and object evidence identity are required")
      row ← ok_or (effect_row handle.tables.outbox id) (lease_lost id)
      settle_evidence handle id owner now evidence row
          (existing_evidence handle.tables.evidence evidence.evidence_id)

    -- Nothing was changed, or evidence was added and the effect delivered.
    abbrev pub IsCompletion : Handle Value → String → String → ℕ → Handle Value → Type 0
    IsCompletion handle id owner now handle' =
        (handle' ≡ handle)
        ⊎ ((t : Tables Value) × Same handle.tables t
            × Adds handle.tables t
            × (handle'
                ≡ with_tables handle (record t {
                  outbox = update (is_held_at id owner now) (deliver now) t.outbox;
                })))

    deliver_evidence-IsCompletion :
        (handle handle' : Handle Value) (id owner : String) (now : ℕ)
        (evidence : EvidenceInput Value) (row : OutboxRow) (result : ApplyResult)
        → deliver_evidence handle id owner now evidence row ≡ ok (handle', result)
        → IsCompletion handle id owner now handle'
    deliver_evidence-IsCompletion handle handle' id owner now evidence row result h =
        let (_, h1) = >>-eq-ok (sql_u64 now) _ h in
        let (_, h2) =
          >>-eq-ok
            (fail_if (not (any (is_held_at id owner now) handle.tables.outbox)) (lease_lost id)) _
            h1 in
        let (t, inserted, h3) =
          >>=-eq-ok (insert_evidence is_object row.case_key now handle.tables (evidence ∷ [])) _
            h2 in
        let (_, h4) =
          >>-eq-ok (fail_if (not (count (is_held_at id owner now) t.outbox == 1)) (lease_lost id)) _
            h3 in
        inr (
          t,
          insert_evidence-Same is_object row.case_key now handle.tables t (evidence ∷ []) inserted,
          (
            insert_evidence-KeepsEvidence is_object row.case_key now handle.tables t (evidence ∷ [])
                inserted,
            insert_evidence-runs is_object row.case_key now handle.tables t (evidence ∷ [])
                inserted,
          ),
          sym (ap (λ p. p.0) (ok_injective h4)),
        )

    settle_evidence-IsCompletion :
        (handle handle' : Handle Value) (id owner : String) (now : ℕ)
        (evidence : EvidenceInput Value) (row : OutboxRow) (existing : Option (EvidenceRow Value))
        (result : ApplyResult)
        → settle_evidence handle id owner now evidence row existing ≡ ok (handle', result)
        → IsCompletion handle id owner now handle'
    settle_evidence-IsCompletion handle handle' id owner now evidence row existing result h =
        elim (Bool-cases (is_some row.delivered_at)) [
          | inl done ↦ elim (Bool-cases (is_same_evidence row.case_key evidence existing)) [
            | inl same ↦ inl (
                sym (
                  ap (λ p. p.0)
                    (ok_injective (sym (if-true _ _ same) ∙ sym (if-true _ _ done) ∙ h))))
            | inr other ↦ let refused = sym (if-false _ _ other) ∙ sym (if-true _ _ done) ∙ h in cc
          ]
          | inr undone ↦ elim (Bool-cases (is_some row.superseded || is_some existing)) [
            | inl conflict ↦
                let refused = sym (if-true _ _ conflict) ∙ sym (if-false _ _ undone) ∙ h in cc
            | inr free ↦
                deliver_evidence-IsCompletion handle handle' id owner now evidence row result
                  (sym (if-false _ _ free) ∙ sym (if-false _ _ undone) ∙ h)
          ]
        ]

    pub complete_effect_evidence-IsCompletion :
        (handle handle' : Handle Value) (id owner : String) (now : ℕ)
        (evidence : EvidenceInput Value) (result : ApplyResult)
        → complete_effect_evidence handle id owner now evidence ≡ ok (handle', result)
        → IsCompletion handle id owner now handle'
    unfolding complete_effect_evidence
    complete_effect_evidence-IsCompletion handle handle' id owner now evidence result h =
        let (_, h1) = >>-eq-ok (ensure_writable handle) _ h in
        let (_, h2) =
          >>-eq-ok
            (fail_if
              (not (not_blank id)
                || not (not_blank owner)
                || not (not_blank evidence.evidence_id)
                || not (not_blank evidence.kind)
                || not (not_blank evidence.source)
                || not (is_object evidence.payload))
              (invalid_input "effect, owner, and object evidence identity are required"))
            _ h1 in
        let (row, _, h3) =
          >>=-eq-ok (ok_or (effect_row handle.tables.outbox id) (lease_lost id)) _ h2 in
        settle_evidence-IsCompletion handle handle' id owner now evidence row _ result h3
