-- ===== src/Store/Apply/Replay.antt =====
-- crates/pip-store/src/lib.rs: an event that is recorded stays recorded, and its batch is replayed.
use text.Mathlib.TextEquality.{eq_iff}
use agent_p1p.Prelude.{
  ◌+◌, ◌≡◌, refl, ◌∙◌, subst, ap, arith, String, true, Option, none, some, List, [], ◌∷◌, all, ok,
  >>=-eq-ok, >>-eq-ok, ok_injective, All, ◌↔◌,
}
use agent_p1p.Controller.Ledger.Batch.{replayed}
use agent_p1p.Store.{FaultPoint, EventRow, Tables}
use agent_p1p.Store.Statements.{existing_event}
use agent_p1p.Store.Checks.{Transition, Codec, Guards, replay_or_conflict}
use agent_p1p.Store.Step.{event_row}
use agent_p1p.Store.Step.Facts.{IsStored, apply_one-IsStored}
use agent_p1p.Store.Apply.{is_recorded, replay_all, replay_one, apply_all}

-- A new event does not hide an older one.
pub existing_event-cons :
    {Value : Type 0} (row : EventRow Value) (events : List (EventRow Value)) (id : String)
    (found : String × String)
    → existing_event events row.event.event_id ≡ none
    → existing_event events id ≡ some found
    → existing_event (row ∷ events) id ≡ some found
existing_event-cons row events id found new old = ground (arith, eq_iff row.event.event_id id)

module _ {Value : Type 0} (codec : Codec Value) where
  abbrev pub IsRecorded : List (EventRow Value) → Transition Value → Type 0
  IsRecorded events input =
      existing_event events input.event.event_id
      ≡ some (input.case_key, codec.hash_transition input)

  replay_one_iff :
      (existing : Option (String × String)) (input : Transition Value)
      → (replay_one codec existing input ≡ ok tt)
        ↔ (existing ≡ some (input.case_key, codec.hash_transition input))
  unfolding replay_or_conflict
  replay_one_iff none input = (λ h. cc, λ h. cc)
  replay_one_iff (some (key, hash)) input =
      let same_key = eq_iff key input.case_key in
      let same_hash = eq_iff hash (codec.hash_transition input) in
      (λ h. ground (arith, same_key, same_hash), λ h. ground (arith, same_key, same_hash))

  pub replay_all_iff :
      (events : List (EventRow Value)) (inputs : List (Transition Value))
      → (replay_all codec events inputs ≡ ok replayed) ↔ All (IsRecorded events) inputs
  unfolding replay_all
  replay_all_iff events [] = (λ h. tt, λ h. refl)
  replay_all_iff events (input ∷ inputs) =
      let (first, first') = replay_one_iff (existing_event events input.event.event_id) input in
      let (rest, rest') = replay_all_iff events inputs in
      (
        λ h. let (one, all) = >>-eq-ok _ _ h in (first one, rest all),
        λ h. rw (first' h.0) (rest' h.1),
      )

  pub all-is_recorded :
      (events : List (EventRow Value)) (inputs : List (Transition Value))
      → All (IsRecorded events) inputs
      → all (is_recorded events) inputs ≡ true
  all-is_recorded events [] h = refl
  all-is_recorded events (input ∷ inputs) h = rw h.0 (all-is_recorded events inputs h.1)

  module _ (guards : Guards Value) where
    stored-existing_event :
        (t t' : Tables Value) (input : Transition Value) (id : String) (found : String × String)
        → IsStored codec guards t t' input
        → existing_event t.events id ≡ some found
        → existing_event t'.events id ≡ some found
    stored-existing_event t t' input id found stored old =
        ap (λ events. existing_event events id) stored.events
        ∙ existing_event-cons
            (event_row stored.current input (codec.hash_transition input)
              (input.expected_revision + 1) stored.policy)
            t.events id found stored.event_is_new old

    stored-IsRecorded :
        (t t' : Tables Value) (input : Transition Value)
        → IsStored codec guards t t' input
        → IsRecorded t'.events input
    stored-IsRecorded t t' input stored =
        ap (λ events. existing_event events input.event.event_id) stored.events
        ∙ rw ((eq_iff input.event.event_id input.event.event_id).1 refl) refl

    pub apply_all-existing_event :
        (fault : Option FaultPoint) (t t' : Tables Value) (inputs : List (Transition Value))
        (id : String) (found : String × String)
        → apply_all codec guards fault t inputs ≡ ok t'
        → existing_event t.events id ≡ some found
        → existing_event t'.events id ≡ some found
    unfolding apply_all
    apply_all-existing_event fault t t' [] id found h old =
        subst (λ u. existing_event u.events id ≡ some found) (ok_injective h) old
    apply_all-existing_event fault t t' (input ∷ inputs) id found h old =
        let (t1, one, h1) = >>=-eq-ok _ _ h in
        let (_, rest) = >>-eq-ok _ _ h1 in
        apply_all-existing_event fault t1 t' inputs id found rest (
          stored-existing_event t t1 input id found
            (apply_one-IsStored codec guards fault t t1 input one) old)

    pub apply_all-IsRecorded :
        (fault : Option FaultPoint) (t t' : Tables Value) (inputs : List (Transition Value))
        → apply_all codec guards fault t inputs ≡ ok t'
        → All (IsRecorded t'.events) inputs
    unfolding apply_all
    apply_all-IsRecorded fault t t' [] h = tt
    apply_all-IsRecorded fault t t' (input ∷ inputs) h =
        let (t1, one, h1) = >>=-eq-ok _ _ h in
        let (_, rest) = >>-eq-ok _ _ h1 in
        (
          apply_all-existing_event fault t1 t' inputs _ _ rest
              (stored-IsRecorded t t1 input (apply_one-IsStored codec guards fault t t1 input one)),
          apply_all-IsRecorded fault t1 t' inputs rest,
        )
