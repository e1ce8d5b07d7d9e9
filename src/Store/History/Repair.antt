-- ===== src/Store/History/Repair.antt =====
-- crates/pip-store/src/lib.rs: a projection that is repaired is the one that its events give.
use text.Mathlib.Text.{◌==◌ as str_eq}
use text.Mathlib.TextEquality.{eq_iff}
use agent_p1p.Prelude.{
  ℕ, ◌≡◌, refl, sym, ◌∙◌, subst, ap, arith, String, true, false, Option, none, some, option_eq,
  ◌==◌, List, [], ◌∷◌, ok, >>=-eq-ok, >>-eq-ok, ok_injective, ok_or, ok_or-eq-ok, Bool-cases, inl,
  inr, list_eq_iff, ==_iff,
}
use agent_p1p.Core.ExactHead.{GitSha, same_sha}
use agent_p1p.Controller.Ledger.{StoredCase}
use agent_p1p.Store.{
  CaseRow, EventRow, Tables, Handle, missing_case, ensure_writable, sql_u64, sql_option,
}
use agent_p1p.Store.Statements.{query_case, update}
use agent_p1p.Store.Apply.{with_tables}
use agent_p1p.Store.History.{
  same_stored, latest, replayed_case, join_case, reconstruct_case, case_at_revision_limit,
  projection_matches_history, restore, repair_case_projection,
}
use agent_p1p.Store.History.Agreement.{AgreesAt, Agrees}

str_eq_refl : (s : String) → str_eq s s ≡ true
str_eq_refl s = (eq_iff s s).1 refl

same_number_refl : (n : Option ℕ) → option_eq ◌==◌ n n ≡ true
same_number_refl none = refl
same_number_refl (some n) = ground arith

same_head_refl : (sha : Option GitSha) → option_eq same_sha sha sha ≡ true
same_head_refl none = refl
same_head_refl (some sha) = (list_eq_iff ◌==◌ ==_iff sha sha).1 refl

same_stored_refl : (case : StoredCase) → same_stored case case ≡ true
same_stored_refl case =
    rw
      (
        str_eq_refl case.case_key,
        str_eq_refl case.state,
        same_number_refl case.pr_number,
        same_head_refl case.head_sha,
      )
      (ground arith)

same_option_refl : (found : Option StoredCase) → option_eq same_stored found found ≡ true
same_option_refl none = refl
same_option_refl (some case) = same_stored_refl case

abbrev restored : StoredCase → StoredCase → StoredCase
restored rebuilt case = record case {
  state = rebuilt.state;
  state_revision = rebuilt.state_revision;
  policy_revision = rebuilt.policy_revision;
  remediation_round = rebuilt.remediation_round;
  plan_version = rebuilt.plan_version;
  pr_number = rebuilt.pr_number;
  head_sha = rebuilt.head_sha;
}

query_case-restore_same :
    (rebuilt case : StoredCase) (key : String) (rows : List CaseRow)
    → query_case rows key ≡ some case
    → query_case (update (λ row. str_eq row.case.case_key key) (restore rebuilt) rows) key
      ≡ some (restored rebuilt case)
query_case-restore_same rebuilt case key [] h = cc
query_case-restore_same rebuilt case key (row ∷ rows) h =
    ground (arith, query_case-restore_same rebuilt case key rows)

query_case-restore_other :
    (rebuilt : StoredCase) (key other : String) (rows : List CaseRow)
    → str_eq key other ≡ false
    → query_case (update (λ row. str_eq row.case.case_key key) (restore rebuilt) rows) other
      ≡ query_case rows other
query_case-restore_other rebuilt key other [] apart = refl
query_case-restore_other rebuilt key other (row ∷ rows) apart = ground (
  arith,
  query_case-restore_other rebuilt key other rows apart,
  eq_iff row.case.case_key key,
  eq_iff row.case.case_key other,
  eq_iff key other,
)

module _ {Value : Type 0} where
  -- The test of the code is true where the projection agrees.
  pub AgreesAt-matches :
      (t : Tables Value) (key : String)
      → join_case (query_case t.cases key) (latest key none t.events) ≡ query_case t.cases key
      → projection_matches_history t key ≡ true
  unfolding projection_matches_history reconstruct_case case_at_revision_limit
  AgreesAt-matches t key agrees = rw agrees (same_option_refl (query_case t.cases key))

  rebuilt_lem :
      (found : Option StoredCase) (row : Option (EventRow Value)) (rebuilt : StoredCase)
      → join_case found row ≡ some rebuilt
      → (case : StoredCase) × (last : EventRow Value) × (found ≡ some case)
        × (row ≡ some last)
        × (rebuilt ≡ replayed_case case last)
  rebuilt_lem none row rebuilt h = cc
  rebuilt_lem (some case) none rebuilt h = cc
  rebuilt_lem (some case) (some last) rebuilt h = (case, last, refl, refl, cc)

  pub repair_case_projection_lem :
      (handle handle' : Handle Value) (key : String)
      → repair_case_projection handle key ≡ ok handle'
      → (rebuilt : StoredCase) × (reconstruct_case handle.tables key ≡ some rebuilt)
        × (handle'
            ≡ with_tables handle (record handle.tables {
              cases =
                  update
                    (λ row. str_eq row.case.case_key key)
                    (restore rebuilt)
                    handle.tables.cases;
            }))
  unfolding repair_case_projection
  repair_case_projection_lem handle handle' key h =
      let (_, h1) = >>-eq-ok (ensure_writable handle) _ h in
      let (rebuilt, found, h2) =
        >>=-eq-ok (ok_or (reconstruct_case handle.tables key) (missing_case key)) _ h1 in
      let (_, h3) = >>-eq-ok (sql_u64 rebuilt.state_revision) _ h2 in
      let (_, h4) = >>-eq-ok (sql_u64 rebuilt.policy_revision) _ h3 in
      let (_, h5) = >>-eq-ok (sql_option rebuilt.pr_number) _ h4 in
      let (_, h6) = >>-eq-ok _ _ h5 in (rebuilt, ok_or-eq-ok _ _ found, sym (ok_injective h6))

  -- The case that is repaired agrees with its events, whatever its row was before.
  pub repair-AgreesAt :
      (handle handle' : Handle Value) (key : String)
      → repair_case_projection handle key ≡ ok handle'
      → AgreesAt handle'.tables key
  unfolding reconstruct_case case_at_revision_limit
  repair-AgreesAt handle handle' key h =
      let (rebuilt, found, after) = repair_case_projection_lem handle handle' key h in
      let (case, last, is_case, is_last, is) = rebuilt_lem _ _ rebuilt found in
      let shown =
        ap (λ u. query_case u.tables.cases key) after
        ∙ query_case-restore_same rebuilt case key handle.tables.cases is_case in
      let events = ap (λ u. latest key none u.tables.events) after ∙ is_last in
      (rw (shown, events) (rw is refl), rw shown (λ e. cc))

  repair-AgreesAt_other :
      (handle handle' : Handle Value) (key other : String)
      → repair_case_projection handle key ≡ ok handle'
      → str_eq key other ≡ false
      → AgreesAt handle.tables other
      → AgreesAt handle'.tables other
  repair-AgreesAt_other handle handle' key other h apart agrees =
      let (rebuilt, _, after) = repair_case_projection_lem handle handle' key h in
      let shown =
        ap (λ u. query_case u.tables.cases other) after
        ∙ query_case-restore_other rebuilt key other handle.tables.cases apart in
      let events = ap (λ u. latest other none u.tables.events) after in rw (shown, events) agrees

  pub repair-Agrees :
      (handle handle' : Handle Value) (key : String)
      → repair_case_projection handle key ≡ ok handle'
      → Agrees handle.tables
      → Agrees handle'.tables
  repair-Agrees handle handle' key h agrees other = elim (Bool-cases (str_eq key other)) [
    | inl same ↦
        subst (AgreesAt handle'.tables) ((eq_iff key other).0 same)
          (repair-AgreesAt handle handle' key h)
    | inr apart ↦ repair-AgreesAt_other handle handle' key other h apart (agrees other)
  ]
