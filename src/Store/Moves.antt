-- ===== src/Store/Moves.antt =====
-- crates/pip-store/src/lib.rs: the operations of the ledger as moves of its handle, each one that
-- succeeds, and what any sequence of them keeps.
pub mod Kept
pub mod Replayed
pub mod Taken
pub mod Projected
pub mod Rows
pub mod Leases
pub mod Exclusive
pub mod Beside
pub mod Evidence
pub mod Runs
use agent_p1p.Prelude.{ℕ, ◌≡◌, String, Bool, false, Option, List, [], Result, ok}
use agent_p1p.Controller.Ledger.{EffectPayload}
use agent_p1p.Controller.Ledger.Batch.{ApplyResult}
use agent_p1p.Store.{FaultPoint, EvidenceInput, NewCase, OutboxRow, Tables, Handle, Stored}
use agent_p1p.Store.Checks.{Transition, Codec, Guards}
use agent_p1p.Store.Creation.{create_case}
use agent_p1p.Store.Apply.{apply_transition_batch}
use agent_p1p.Store.Completion.{complete_effect_evidence}
use agent_p1p.Store.History.{repair_case_projection}
use agent_p1p.Store.Outbox.{ClaimedEffect, claim_effect_inner, acknowledge_effect, release_effect}

module _ {Value : Type 0} where
  -- A ledger without a row.
  abbrev pub empty_tables : Tables Value
  empty_tables = record {
    cases = [];
    events = [];
    runs = [];
    evidence = [];
    findings = [];
    outbox = [];
  }

  abbrev pub empty_handle : Handle Value
  empty_handle = record { is_read_only = false; tables = empty_tables }

  module _ (codec : Codec Value) (guards : Guards Value)
      (read : OutboxRow → Stored EffectPayload) where
    pub data Move (h h' : Handle Value) : Type 0 where
      creates :
          (input : NewCase Value) (result : ApplyResult)
          → create_case codec h input ≡ ok (h', result)
          → Move h h'
      applies :
          (fault : Option FaultPoint) (inputs : List (Transition Value)) (result : ApplyResult)
          → apply_transition_batch codec guards fault h inputs ≡ ok (h', result)
          → Move h h'
      repairs : (key : String) → repair_case_projection h key ≡ ok h' → Move h h'
      leases :
          (owner : String) (now seconds : ℕ) (types : Option (List String)) (repository : Option ℕ)
          (key : Option String) (claim : Option ClaimedEffect)
          → claim_effect_inner read h owner now seconds types repository key ≡ ok (h', claim)
          → Move h h'
      acknowledges :
          (id owner : String) (now : ℕ) → acknowledge_effect h id owner now ≡ ok h' → Move h h'
      completes :
          (same_value : Value → Value → Bool) (id owner : String) (now : ℕ)
          (evidence : EvidenceInput Value) (result : ApplyResult)
          → complete_effect_evidence same_value codec.is_object h id owner now evidence
            ≡ ok (h', result)
          → Move h h'
      releases : (id owner : String) → release_effect h id owner ≡ ok h' → Move h h'

    pub data Reach (h : Handle Value) : Handle Value → Type 0 where
      here : Reach h h
      next : {g h' : Handle Value} → Reach h g → Move g h' → Reach h h'
