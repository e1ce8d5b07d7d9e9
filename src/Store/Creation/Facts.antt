-- ===== src/Store/Creation/Facts.antt =====
-- crates/pip-store/src/lib.rs: what a case that is created adds to the tables.
use agent_p1p.Prelude.{
  ◌≡◌, sym, ◌∙◌, subst, ap, arith, String, Option, none, some, List, ◌∷◌, ok, >>=-eq-ok, >>-eq-ok,
  ok_injective, ◌⊎◌, inl, inr,
}
use agent_p1p.Controller.Ledger.Batch.{ApplyResult}
use agent_p1p.Store.{NewCase, OutboxRow, Tables, Handle, ensure_writable}
use agent_p1p.Store.Statements.{query_case, existing_event, insert_effects}
use agent_p1p.Store.Step.Facts.{insert_event_lem}
use agent_p1p.Store.Checks.{Codec, replay_or_conflict}
use agent_p1p.Store.Apply.{with_tables}
use agent_p1p.Store.Creation.{
  first_event, first_row, insert_case, start_case, settle_case, create_case,
}

module _ {Value : Type 0} where
  insert_case_lem :
      (t t' : Tables Value) (input : NewCase Value)
      → insert_case t input ≡ ok t'
      → (query_case t.cases input.case_key ≡ none)
        × (t' ≡ record t { cases = first_row input ∷ t.cases })
  unfolding insert_case
  insert_case_lem t t' input h = ground arith

  module _ (codec : Codec Value) (handle : Handle Value) (input : NewCase Value) where
    -- The tables with the case, its event and the effects that it starts with.
    abbrev pub with_case : List OutboxRow → Tables Value
    with_case outbox = record handle.tables {
      cases = first_row input ∷ handle.tables.cases;
      events = first_event input (codec.hash_new_case input) ∷ handle.tables.events;
      outbox = outbox;
    }

    -- The case and its event are new.
    pub record IsCreated (handle' : Handle Value) : Type 0 where
      pub outbox : List OutboxRow
      pub case_is_new : query_case handle.tables.cases input.case_key ≡ none
      pub event_is_new : existing_event handle.tables.events input.event.event_id ≡ none
      pub effects :
          insert_effects input.case_key 1 input.observed_at handle.tables.outbox input.effects
          ≡ ok outbox
      pub handle_after : handle' ≡ with_tables handle (with_case outbox)

    start_case-IsCreated :
        (handle' : Handle Value) (result : ApplyResult)
        → start_case codec handle input ≡ ok (handle', result)
        → IsCreated handle'
    unfolding start_case
    start_case-IsCreated handle' result h =
        let (t, inserted, h1) = >>=-eq-ok _ _ h in
        let (recorded, event, h2) = >>=-eq-ok _ _ h1 in
        let (outbox, effects, h3) = >>=-eq-ok _ _ h2 in
        let (is_new, t_is) = insert_case_lem handle.tables t input inserted in
        let (recorded_is, event_is_new, _, _) = insert_event_lem t recorded _ event in
        let outbox_is = ap (λ u. u.outbox) recorded_is ∙ ap (λ u. u.outbox) t_is in
        let events_are = ap (λ u. u.events) t_is in
        record {
          outbox = outbox;
          case_is_new = is_new;
          event_is_new =
              subst (λ rows. existing_event rows input.event.event_id ≡ none) events_are
                event_is_new;
          effects =
              subst
                (λ rows.
                  insert_effects input.case_key 1 input.observed_at rows input.effects ≡ ok outbox)
                outbox_is effects;
          handle_after =
              sym (ap (λ p. p.0) (ok_injective h3))
              ∙ ap (λ u. with_tables handle (record u { outbox = outbox })) recorded_is
              ∙ ap
                  (λ u. with_tables handle (record u {
                    events = first_event input (codec.hash_new_case input) ∷ u.events;
                    outbox = outbox;
                  }))
                  t_is;
        }

    settle_case-cases :
        (existing : Option (String × String)) (handle' : Handle Value) (result : ApplyResult)
        → settle_case codec handle input existing ≡ ok (handle', result)
        → (handle' ≡ handle) ⊎ IsCreated handle'
    settle_case-cases none handle' result h = inr (start_case-IsCreated handle' result h)
    settle_case-cases (some existing) handle' result h =
        let (_, _, h1) =
          >>=-eq-ok
            (replay_or_conflict existing input.case_key (codec.hash_new_case input)
              input.event.event_id)
            _ h in
        inl (sym (ap (λ p. p.0) (ok_injective h1)))

    -- A case that is there was created before, or is created now.
    pub create_case-cases :
        (handle' : Handle Value) (result : ApplyResult)
        → create_case codec handle input ≡ ok (handle', result)
        → (handle' ≡ handle) ⊎ IsCreated handle'
    unfolding create_case
    create_case-cases handle' result h =
        let (_, h1) = >>-eq-ok (ensure_writable handle) _ h in
        let (_, h2) = >>-eq-ok _ _ h1 in settle_case-cases _ handle' result h2
