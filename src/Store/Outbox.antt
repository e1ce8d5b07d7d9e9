-- ===== src/Store/Outbox.antt =====
-- crates/pip-store/src/lib.rs: the leases of the outbox, `claim_effect` and its variants,
-- `acknowledge_effect` and `release_effect`.
pub mod Facts
pub mod Rows
pub mod Once
pub mod Scope
use text.Mathlib.Text.{◌==◌ as str_eq}
use Prim.Native.String.{compare}
use Prim.Native.Nat.{Ordering}
use agent_p1p.Prelude.{
  ℕ, ◌+◌, String, Bool, true, false, not, ◌&&◌, ◌||◌, Option, none, some, List, [], ◌∷◌, ltb, leb,
  ◌==◌, if◌then◌else◌, is_some, is_none, is_none_or, is_empty, any, filter, Result, ok, err, ◌>>=◌,
  ◌>>◌, fail_if, ok_or,
}
use agent_p1p.Prelude.Text.{not_blank}
use agent_p1p.Core.Domain.{checked_add_u64}
use agent_p1p.Controller.Ledger.{EffectPayload}
use agent_p1p.Store.{
  invalid_integer, invalid_input, lease_lost, Stored, CaseRow, OutboxRow, Tables, Handle, sql_u64,
  sql_option, ensure_writable,
}
use agent_p1p.Store.Statements.{update, count, is_open}
use agent_p1p.Store.Apply.{with_tables}

pub record ClaimedEffect : Type 0 where
  pub effect_id : String
  pub case_key : String
  pub state_revision : ℕ
  pub effect_type : String
  pub payload : EffectPayload
  pub lease_owner : String
  pub lease_until : ℕ

-- `lease_until IS NULL OR lease_until < ?1`
abbrev pub lease_is_over : ℕ → Option (String × ℕ) → Bool
lease_is_over now none = true
lease_is_over now (some (owner, until)) = ltb until now

abbrev pub is_claimable : ℕ → OutboxRow → Bool
is_claimable now row = is_open row && lease_is_over now row.lease

-- `case_key IN (SELECT case_key FROM cases WHERE repository_id = ?2)`
abbrev pub in_repository : List CaseRow → Option ℕ → String → Bool
in_repository cases none key = true
in_repository cases (some id) key =
    any (λ row. str_eq row.case.case_key key && row.case.repository_id == id) cases

-- `created_at, effect_id`
abbrev pub is_before : OutboxRow → OutboxRow → Bool
is_before a b =
    ltb a.created_at b.created_at
    || (a.created_at == b.created_at
        && elim (compare a.effect_id b.effect_id) [ Ordering.lt ↦ true | _ ↦ false ])

abbrev pub earlier : OutboxRow → Option OutboxRow → OutboxRow
earlier row none = row
earlier row (some best) = if is_before best row then best else row

-- The first row of the query that has one of the effect types.
abbrev pub first_candidate : (OutboxRow → Bool) → List OutboxRow → Option OutboxRow
first_candidate chosen [] = none
first_candidate chosen (row ∷ rows) =
    if chosen row
    then some (earlier row (first_candidate chosen rows))
    else first_candidate chosen rows

-- `unique.len() != types.len()`
abbrev pub has_repeat : List String → Bool
has_repeat [] = false
has_repeat (x ∷ xs) = any (str_eq x) xs || has_repeat xs

abbrev pub bad_types : List String → Bool
bad_types types = is_empty types || has_repeat types || any (λ value. not (not_blank value)) types

-- `if let Some(types) = effect_types`
abbrev pub check_types : Option (List String) → Stored (Unit {0})
check_types none = ok tt
check_types (some types) =
    fail_if (bad_types types) (invalid_input "unique nonempty effect types are required")

-- `allowed.contains(..)`
abbrev pub is_allowed : Option (List String) → String → Bool
is_allowed none kind = true
is_allowed (some allowed) kind = any (str_eq kind) allowed

abbrev pub is_zero : Option ℕ → Bool
is_zero none = false
is_zero (some n) = n == 0

abbrev pub claimed : OutboxRow → EffectPayload → String → ℕ → ClaimedEffect
claimed row payload owner lease_until = record {
  effect_id = row.effect_id;
  case_key = row.case_key;
  state_revision = row.state_revision;
  effect_type = row.effect_type;
  payload = payload;
  lease_owner = owner;
  lease_until = lease_until;
}

abbrev pub with_lease : Option (String × ℕ) → OutboxRow → OutboxRow
with_lease lease row = record row { lease = lease }

-- `WHERE effect_id = ?3 AND …`
abbrev pub is_leasable : String → ℕ → OutboxRow → Bool
is_leasable id now row = str_eq row.effect_id id && is_claimable now row

-- `lease_owner = ?`
abbrev pub is_owner : String → Option (String × ℕ) → Bool
is_owner owner none = false
is_owner owner (some (holder, until)) = str_eq holder owner

-- `lease_until >= ?1`
abbrev pub is_running : ℕ → Option (String × ℕ) → Bool
is_running now none = false
is_running now (some (holder, until)) = leb now until

abbrev pub is_held : String → String → OutboxRow → Bool
is_held id owner row = str_eq row.effect_id id && is_owner owner row.lease && is_open row

abbrev pub is_held_at : String → String → ℕ → OutboxRow → Bool
is_held_at id owner now row =
    str_eq row.effect_id id && is_owner owner row.lease && is_running now row.lease && is_open row

abbrev pub deliver : ℕ → OutboxRow → OutboxRow
deliver now row = record row { delivered_at = some now; lease = none }

module _ {Value : Type 0} where
  abbrev pub claims :
      Tables Value → ℕ → Option (List String) → Option ℕ → Option String → OutboxRow → Bool
  claims t now effect_types repository_id case_key row =
      is_claimable now row
      && in_repository t.cases repository_id row.case_key
      && is_none_or (str_eq row.case_key) case_key
      && is_allowed effect_types row.effect_type

  abbrev pub with_outbox : Handle Value → List OutboxRow → Handle Value
  with_outbox handle rows = with_tables handle (record handle.tables { outbox = rows })

  -- What the payload is read as, with its digest and its dispatch intent, is a parameter, which may
  -- refuse it.
  abbrev pub lease_row :
      (OutboxRow → Stored EffectPayload)
      → Handle Value
      → String
      → ℕ
      → ℕ
      → OutboxRow
      → Stored (Handle Value × Option ClaimedEffect)
  lease_row read handle owner now lease_until row = do
    payload ← read row
    ok (
      with_outbox handle (
          update (is_leasable row.effect_id now) (with_lease (some (owner, lease_until)))
            handle.tables.outbox),
      some (claimed row payload owner lease_until),
    )

  -- The lease of the row that was selected.
  unfoldable pub take_lease :
      (OutboxRow → Stored EffectPayload)
      → Handle Value
      → String
      → ℕ
      → ℕ
      → Option OutboxRow
      → Stored (Handle Value × Option ClaimedEffect)
  take_lease read handle owner now lease_until none = ok (handle, none)
  take_lease read handle owner now lease_until (some row) = do
    sql_u64 lease_until
    if count (is_leasable row.effect_id now) handle.tables.outbox == 1
        then lease_row read handle owner now lease_until row
        else ok (handle, none)

  unfoldable pub claim_effect_inner :
      (OutboxRow → Stored EffectPayload)
      → Handle Value
      → String
      → ℕ
      → ℕ
      → Option (List String)
      → Option ℕ
      → Option String
      → Stored (Handle Value × Option ClaimedEffect)
  claim_effect_inner read handle owner now lease_seconds effect_types repository_id case_key = do
    ensure_writable handle
    fail_if
        (not (not_blank owner)
          || lease_seconds == 0
          || is_zero repository_id
          || not (is_none_or not_blank case_key))
        (invalid_input "owner, positive lease and valid repository scope are required")
    check_types effect_types
    lease_until ← ok_or (checked_add_u64 now lease_seconds) invalid_integer
    sql_u64 now
    sql_option repository_id
    take_lease read handle owner now lease_until (
        first_candidate (claims handle.tables now effect_types repository_id case_key)
          handle.tables.outbox)

  module _ (read : OutboxRow → Stored EffectPayload) (handle : Handle Value) where
    abbrev pub claim_effect : String → ℕ → ℕ → Stored (Handle Value × Option ClaimedEffect)
    claim_effect owner now lease_seconds =
        claim_effect_inner read handle owner now lease_seconds none none none

    abbrev pub claim_effect_matching :
        String → ℕ → ℕ → List String → Stored (Handle Value × Option ClaimedEffect)
    claim_effect_matching owner now lease_seconds effect_types =
        claim_effect_inner read handle owner now lease_seconds (some effect_types) none none

    abbrev pub claim_repository_case_effect_matching :
        ℕ
        → Option String
        → String
        → ℕ
        → ℕ
        → List String
        → Stored (Handle Value × Option ClaimedEffect)
    claim_repository_case_effect_matching repository_id case_key owner now lease_seconds
          effect_types =
        claim_effect_inner read handle owner now lease_seconds (some effect_types)
          (some repository_id) case_key

    abbrev pub claim_repository_effect_matching :
        ℕ → String → ℕ → ℕ → List String → Stored (Handle Value × Option ClaimedEffect)
    claim_repository_effect_matching repository_id owner now lease_seconds effect_types =
        claim_repository_case_effect_matching repository_id none owner now lease_seconds
          effect_types

  unfoldable pub acknowledge_effect : Handle Value → String → String → ℕ → Stored (Handle Value)
  acknowledge_effect handle id owner now = do
    ensure_writable handle
    sql_u64 now
    fail_if (not (count (is_held_at id owner now) handle.tables.outbox == 1)) (lease_lost id)
    ok (with_outbox handle (update (is_held_at id owner now) (deliver now) handle.tables.outbox))

  unfoldable pub release_effect : Handle Value → String → String → Stored (Handle Value)
  release_effect handle id owner = do
    ensure_writable handle
    fail_if (not (not_blank id) || not (not_blank owner))
        (invalid_input "effect id and lease owner are required")
    fail_if (not (count (is_held id owner) handle.tables.outbox == 1)) (lease_lost id)
    ok (with_outbox handle (update (is_held id owner) (with_lease none) handle.tables.outbox))
