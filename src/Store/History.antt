-- ===== src/Store/History.antt =====
-- crates/pip-store/src/lib.rs: the projection of a case, rebuilt from its events.
pub mod Agreement
pub mod Repair
use text.Mathlib.Text.{◌==◌ as str_eq}
use agent_p1p.Prelude.{
  ℕ, String, Bool, true, false, not, ◌&&◌, Option, none, some, List, [], ◌∷◌, ltb, ◌==◌,
  if◌then◌else◌, option_eq, is_none_or, Result, ok, err, ◌>>=◌, ◌>>◌, fail_if, ok_or,
}
use agent_p1p.Core.ExactHead.{same_sha}
use agent_p1p.Controller.Ledger.{StoredCase}
use agent_p1p.Store.{
  missing_case, Stored, CaseRow, EventRow, Tables, Handle, sql_u64, sql_option, ensure_writable,
}
use agent_p1p.Store.Statements.{query_case, update, count}
use agent_p1p.Store.Apply.{with_tables}

-- `derive(PartialEq)`
abbrev pub same_stored : StoredCase → StoredCase → Bool
same_stored a b =
    str_eq a.case_key b.case_key
    && a.repository_id == b.repository_id
    && a.issue_number == b.issue_number
    && a.workflow_version == b.workflow_version
    && str_eq a.state b.state
    && a.state_revision == b.state_revision
    && a.policy_revision == b.policy_revision
    && a.remediation_round == b.remediation_round
    && a.plan_version == b.plan_version
    && option_eq ◌==◌ a.pr_number b.pr_number
    && option_eq same_sha a.head_sha b.head_sha

abbrev pub restore : StoredCase → CaseRow → CaseRow
restore rebuilt row = record row {
  case = record row.case {
    state = rebuilt.state;
    state_revision = rebuilt.state_revision;
    policy_revision = rebuilt.policy_revision;
    remediation_round = rebuilt.remediation_round;
    plan_version = rebuilt.plan_version;
    pr_number = rebuilt.pr_number;
    head_sha = rebuilt.head_sha;
  };
}

module _ {Value : Type 0} where
  -- The later of a row and of what the rest has, `ORDER BY state_revision DESC LIMIT 1`.
  abbrev pub later : EventRow Value → Option (EventRow Value) → Option (EventRow Value)
  later row none = some row
  later row (some best) = if ltb row.state_revision best.state_revision then some best else some row

  -- `WHERE e.case_key = ?1 AND (?2 IS NULL OR e.state_revision = ?2)`
  abbrev pub latest : String → Option ℕ → List (EventRow Value) → Option (EventRow Value)
  latest key revision [] = none
  latest key revision (row ∷ rows) =
      if str_eq row.case_key key && is_none_or (λ n. row.state_revision == n) revision
      then later row (latest key revision rows)
      else latest key revision rows

  -- A case as an event leaves it; the issue is the one of its row.
  abbrev pub replayed_case : StoredCase → EventRow Value → StoredCase
  replayed_case case row = record case {
    state = row.next_state;
    state_revision = row.state_revision;
    policy_revision = row.policy_revision;
    remediation_round = row.remediation_round;
    plan_version = row.plan_version;
    pr_number = row.pr_number;
    head_sha = row.head_sha;
  }

  -- `events JOIN cases`
  abbrev pub join_case : Option StoredCase → Option (EventRow Value) → Option StoredCase
  join_case (some case) (some row) = some (replayed_case case row)
  join_case _ _ = none

  unfoldable pub case_at_revision_limit : Tables Value → String → Option ℕ → Option StoredCase
  case_at_revision_limit t key revision =
      join_case (query_case t.cases key) (latest key revision t.events)

  unfoldable pub reconstruct_case : Tables Value → String → Option StoredCase
  unfolding case_at_revision_limit
  reconstruct_case t key = case_at_revision_limit t key none

  unfoldable pub case_at_revision : Tables Value → String → ℕ → Stored (Option StoredCase)
  case_at_revision t key revision = do
    sql_u64 revision
    ok (case_at_revision_limit t key (some revision))

  unfoldable pub projection_matches_history : Tables Value → String → Bool
  projection_matches_history t key =
      option_eq same_stored (query_case t.cases key) (reconstruct_case t key)

  unfoldable pub repair_case_projection : Handle Value → String → Stored (Handle Value)
  repair_case_projection handle key = do
    ensure_writable handle
    rebuilt ← ok_or (reconstruct_case handle.tables key) (missing_case key)
    sql_u64 rebuilt.state_revision
    sql_u64 rebuilt.policy_revision
    sql_option rebuilt.pr_number
    fail_if (not (count (λ row. str_eq row.case.case_key key) handle.tables.cases == 1))
        (missing_case key)
    ok (
        with_tables handle (record handle.tables {
          cases =
              update (λ row. str_eq row.case.case_key key) (restore rebuilt) handle.tables.cases;
        }))
