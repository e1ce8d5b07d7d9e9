-- ===== src/Store/Apply/Facts.antt =====
-- crates/pip-store/src/lib.rs: what a batch that is accepted has done.
use agent_p1p.Prelude.{
  ◌≡◌, refl, sym, ◌∙◌, ap, arith, String, Bool, true, false, Option, none, some, List, [], ◌∷◌, all,
  ok, err, >>=-eq-ok, >>-eq-ok, ok_injective, ◌⊎◌, inl, inr, ◌>>◌,
}
use agent_p1p.Controller.Ledger.Batch.{ApplyResult, applied, replayed}
use agent_p1p.Store.{FaultPoint, EventRow, Tables, Handle, ensure_writable, idempotency_conflict}
use agent_p1p.Store.Checks.{Transition, Codec, Guards}
use agent_p1p.Store.Apply.{
  validate_batch, is_recorded, replay_all, first_recorded, apply_all, with_tables, run_batch,
  replay_batch, first_key, settle_batch, apply_transition_batch,
}

module _ {Value : Type 0} (codec : Codec Value) where
  pub replay_all_lem :
      (events : List (EventRow Value)) (inputs : List (Transition Value)) (result : ApplyResult)
      → replay_all codec events inputs ≡ ok result
      → result ≡ replayed
  unfolding replay_all
  replay_all_lem events [] result h = cc
  replay_all_lem events (input ∷ inputs) result h =
      ground (arith, replay_all_lem events inputs result)

  module _ (guards : Guards Value) (fault : Option FaultPoint) (handle : Handle Value)
      (inputs : List (Transition Value)) where
    -- The batch was applied: none of its events was recorded before.
    pub record IsApplied (handle' : Handle Value) (result : ApplyResult) : Type 0 where
      pub tables : Tables Value
      pub is_new : first_recorded handle.tables.events inputs ≡ none
      pub ran : apply_all codec guards fault handle.tables inputs ≡ ok tables
      pub handle_after : handle' ≡ with_tables handle tables
      pub result_is : result ≡ applied

    run_batch-IsApplied :
        (handle' : Handle Value) (result : ApplyResult)
        → run_batch codec guards fault handle inputs ≡ ok (handle', result)
        → (tables : Tables Value) × (apply_all codec guards fault handle.tables inputs ≡ ok tables)
          × (handle' ≡ with_tables handle tables)
          × (result ≡ applied)
    unfolding run_batch
    run_batch-IsApplied handle' result h =
        let (tables, ran, h1) = >>=-eq-ok _ _ h in
        let e = ok_injective h1 in (tables, ran, sym (ap (λ p. p.0) e), sym (ap (λ p. p.1) e))

    replay_batch_lem :
        (handle' : Handle Value) (result : ApplyResult)
        → replay_batch codec handle inputs ≡ ok (handle', result)
        → (handle' ≡ handle)
          × (result ≡ replayed)
          × (replay_all codec handle.tables.events inputs ≡ ok replayed)
    replay_batch_lem handle' result h =
        let (r, replays, h1) = >>=-eq-ok _ _ h in
        let e = ok_injective h1 in
        let is_replayed = replay_all_lem handle.tables.events inputs r replays in
        (sym (ap (λ p. p.0) e), sym (ap (λ p. p.1) e) ∙ is_replayed, replays ∙ ap ok is_replayed)

    abbrev pub IsOutcome : Handle Value → ApplyResult → Type 0
    IsOutcome handle' result =
        ((handle' ≡ handle)
          × (result ≡ replayed)
          × (replay_all codec handle.tables.events inputs ≡ ok replayed))
        ⊎ IsApplied handle' result

    settle_batch-cases :
        (handle' : Handle Value) (result : ApplyResult)
        → (recorded : Bool) → (all (is_recorded handle.tables.events) inputs ≡ recorded)
        → (first : Option String) → (first_recorded handle.tables.events inputs ≡ first)
        → settle_batch codec guards fault handle inputs ≡ ok (handle', result)
        → IsOutcome handle' result
    settle_batch-cases handle' result true a first f h =
        let shown : settle_batch codec guards fault handle inputs
            ≡ replay_batch codec handle inputs =
          rw a refl in
        inl (replay_batch_lem handle' result (sym shown ∙ h))
    settle_batch-cases handle' result false a (some id) f h =
        let refused : settle_batch codec guards fault handle inputs
            ≡ err (idempotency_conflict id) =
          rw (a, f) refl in
        cc
    settle_batch-cases handle' result false a none f h =
        let shown : settle_batch codec guards fault handle inputs
            ≡ run_batch codec guards fault handle inputs =
          rw (a, f) refl in
        let (tables, ran, after, is) = run_batch-IsApplied handle' result (sym shown ∙ h) in
        inr
          (record { tables = tables; is_new = f; ran = ran; handle_after = after; result_is = is })

    -- What is asked of a batch whether it is applied or replayed.
    abbrev pub IsAccepted : Type 0
    IsAccepted =
        (ensure_writable handle ≡ ok tt)
        × (key : String) × (first_key inputs ≡ ok key)
        × (validate_batch codec key [] none inputs ≡ ok tt)

    pub apply_transition_batch-IsOutcome :
        (handle' : Handle Value) (result : ApplyResult)
        → apply_transition_batch codec guards fault handle inputs ≡ ok (handle', result)
        → IsAccepted × IsOutcome handle' result
    unfolding apply_transition_batch
    apply_transition_batch-IsOutcome handle' result h =
        let (writable, h1) = >>-eq-ok (ensure_writable handle) _ h in
        let (key, first, h2) =
          >>=-eq-ok (first_key inputs)
            (λ key.
              validate_batch codec key [] none inputs
              >> settle_batch codec guards fault handle inputs)
            h1 in
        let (valid, h3) = >>-eq-ok _ _ h2 in
        ((writable, key, first, valid), settle_batch-cases handle' result _ refl _ refl h3)

    pub replay_again :
        IsAccepted
        → all (is_recorded handle.tables.events) inputs ≡ true
        → replay_all codec handle.tables.events inputs ≡ ok replayed
        → apply_transition_batch codec guards fault handle inputs ≡ ok (handle, replayed)
    unfolding apply_transition_batch
    replay_again (writable, key, first, valid) old replays =
        rw (writable, first, valid, old, replays) refl
