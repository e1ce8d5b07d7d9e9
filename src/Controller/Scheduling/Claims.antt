-- ===== src/Controller/Scheduling/Claims.antt =====
-- crates/pip-controller/src/scheduling.rs: the tasks that are made of a claimed effect.
use text.Mathlib.Text.{◌==◌ as str_eq}
use text.Mathlib.TextEquality.{eq_iff}
use agent_p1p.Prelude.{
  ℕ, ◌≡◌, sym, ◌∙◌, ap, arith, String, not, ◌||◌, Option, none, some, List, [], ◌∷◌, ok, ◌==◌,
  ==_iff, >>=-eq-ok, >>-eq-ok, ok_or, ok_or-eq-ok, fail_if, All, if◌then◌else◌,
}
use agent_p1p.Core.ExactHead.{GitSha}
use agent_p1p.Core.Domain.{CaseId, case_key, non_zero}
use agent_p1p.Controller.Ledger.{StoredCase}
use agent_p1p.Controller.Scheduling.{
  RolePolicy, WorkflowPolicy, Dispatched, stale_effect, invalid_stored_case,
}
use agent_p1p.Controller.Scheduling.Policy.{reviewers}
use agent_p1p.Controller.Scheduling.Tasks.{
  BodyValue, number, string_value, Body, WorkflowDispatch, Outside,
}
use agent_p1p.Controller.Scheduling.Effects.{
  context_of, read_case_id, read_effect, check_head, schedule_claimed_dispatch,
}
use agent_p1p.Controller.Scheduling.Made.{IsMade, schedule_effect-IsMade}
use agent_p1p.Store.Outbox.{ClaimedEffect}

all_hold : (bindings : List RolePolicy) → All (λ _. Unit {0}) bindings
all_hold [] = tt
all_hold (binding ∷ bindings) = (tt, all_hold bindings)

non_zero_lem : (n m : ℕ) → non_zero n ≡ some m → n ≡ m
non_zero_lem n m h = ground arith

read_case_id_lem :
    (case : StoredCase) (id : CaseId)
    → read_case_id case ≡ ok id
    → (id.repository ≡ case.repository_id) × (id.issue ≡ case.issue_number)
unfolding read_case_id
read_case_id_lem case id h = (ground arith, ground arith)

module _ {Value : Type 0} where
  -- The first field of this name in a body.
  abbrev pub field_of : String → Body Value → Option (BodyValue Value)
  field_of key [] = none
  field_of key ((name, value) ∷ fields) =
      if str_eq name key then some value else field_of key fields

  -- What binds a task to a claim.
  pub record IsBoundTo (claimed : ClaimedEffect) (case : StoredCase) (task : WorkflowDispatch Value)
      : Type 0 where
    pub source_is : task.source_effect_id ≡ claimed.effect_id
    pub key_is : field_of "case_key" task.worker_body ≡ some (string_value claimed.case_key)
    pub repository_is : field_of "repository_id" task.worker_body ≡ some (number case.repository_id)
    pub issue_is : field_of "issue_number" task.worker_body ≡ some (number case.issue_number)
    pub revision_is :
        field_of "state_revision" task.worker_body ≡ some (number claimed.state_revision)

  made-IsBoundTo :
      (outside : Outside Value) (claimed : ClaimedEffect) (case : StoredCase) (id : CaseId)
      (revision : ℕ) (commit : GitSha) (bundle : Value) (policy : WorkflowPolicy)
      (tasks : List (WorkflowDispatch Value))
      → case_key id ≡ claimed.case_key
      → id.repository ≡ case.repository_id
      → id.issue ≡ case.issue_number
      → revision ≡ claimed.state_revision
      → All
          (IsMade outside claimed.effect_id
            (context_of case id revision commit bundle)
            policy
            (λ _. Unit {0}))
          tasks
      → All (IsBoundTo claimed case) tasks
  made-IsBoundTo outside claimed case id revision commit bundle policy [] key repository issue r
        made =
      tt
  made-IsBoundTo outside claimed case id revision commit bundle policy (task ∷ tasks) key repository
        issue r (made, rest) =
      (
        record {
          source_is = ap (λ t. t.source_effect_id) made.is;
          key_is =
              ap (λ t. field_of "case_key" t.worker_body) made.is
              ∙ ap (λ k. some (string_value k)) key;
          repository_is =
              ap (λ t. field_of "repository_id" t.worker_body) made.is
              ∙ ap (λ k. some (number k)) repository;
          issue_is =
              ap (λ t. field_of "issue_number" t.worker_body) made.is
              ∙ ap (λ k. some (number k)) issue;
          revision_is =
              ap (λ t. field_of "state_revision" t.worker_body) made.is
              ∙ ap (λ k. some (number k)) r;
        },
        made-IsBoundTo outside claimed case id revision commit bundle policy tasks key repository
            issue r rest,
      )

  -- Tasks are made of a claimed effect only where it is of the key and the current revision of the
  -- case. Each task is for the effect, and its body names the key of the claim, the repository and
  -- issue of the case, and the revision of the claim.
  pub schedule_claimed_dispatch-IsBoundTo :
      (outside : Outside Value) (bundle_of : StoredCase → Dispatched Value)
      (claimed : ClaimedEffect) (case : StoredCase) (policy : WorkflowPolicy) (commit : GitSha)
      (tasks : List (WorkflowDispatch Value))
      → schedule_claimed_dispatch outside bundle_of claimed case policy commit ≡ ok tasks
      → (claimed.case_key ≡ case.case_key)
        × (claimed.state_revision ≡ case.state_revision)
        × All (IsBoundTo claimed case) tasks
  unfolding schedule_claimed_dispatch
  schedule_claimed_dispatch-IsBoundTo outside bundle_of claimed case policy commit tasks h =
      let (current, h1) =
        >>-eq-ok
          (fail_if
            (not (str_eq claimed.case_key case.case_key)
              || not (claimed.state_revision == case.state_revision))
            stale_effect)
          _ h in
      let (id, read, h2) = >>=-eq-ok (read_case_id case) _ h1 in
      let (named, h3) =
        >>-eq-ok (fail_if (not (str_eq (case_key id) case.case_key)) invalid_stored_case) _ h2 in
      let (effect, _, h4) = >>=-eq-ok (read_effect claimed.effect_type) _ h3 in
      let (revision, counted, h5) =
        >>=-eq-ok (ok_or (non_zero case.state_revision) invalid_stored_case) _ h4 in
      let (_, h6) = >>-eq-ok (check_head case.head_sha) _ h5 in
      let (bundle, _, h7) = >>=-eq-ok (bundle_of case) _ h6 in
      let key : claimed.case_key ≡ case.case_key = (eq_iff _ _).0 (ground arith) in
      let at : claimed.state_revision ≡ case.state_revision = (==_iff _ _).0 (ground arith) in
      let id_is : case_key id ≡ case.case_key = (eq_iff _ _).0 (ground arith) in
      let revision_is =
        non_zero_lem case.state_revision revision (ok_or-eq-ok _ invalid_stored_case counted) in
      let (repository, issue) = read_case_id_lem case id read in
      (
        key,
        at,
        made-IsBoundTo outside claimed case id revision commit bundle policy tasks (id_is ∙ sym key)
            repository issue (sym revision_is ∙ sym at)
            (schedule_effect-IsMade outside claimed.effect_id
              (context_of case id revision commit bundle) policy (λ _. Unit {0}) (λ _ _ _. tt)
              (all_hold (reviewers policy)) effect tasks h7),
      )
