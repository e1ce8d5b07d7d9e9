-- ===== src/Controller/Results/Commands.antt =====
-- crates/pip-controller/src/results.rs: the command that a worker's result becomes, with its run,
-- its evidence and its findings.
use text.Mathlib.Text.{◌==◌ as str_eq}
use agent_p1p.Prelude.{
  ℕ, ◌/◌, ◌%◌, String, Bool, not, ◌||◌, Option, none, some, List, [], ◌∷◌, map, ltb, ◌==◌,
  if◌then◌else◌, option_eq, all, length, Result, ok, err, ◌>>=◌, ◌>>◌, fail_if, ok_or, map_err,
}
use agent_p1p.Prelude.Text.{bytes, concat}
use agent_p1p.Core.Domain.{CaseId, decimal, is_lower_hex, non_zero, parse_textual_id, parse_git_sha}
use agent_p1p.Core.StateMachine.{Event}
use agent_p1p.Core.StateMachine.Wire.{parse_state}
use agent_p1p.Core.ExactHead.{GitSha}
use agent_p1p.Core.Revision.{CasePolicy}
use agent_p1p.Contracts.{
  ReviewMode, required, advisory, shadow, same_role, WorkerBinding, BlockingFinding, ReviewResult,
  WorkerResult, of_review,
}
use agent_p1p.Contracts.Validation.{common_of}
use agent_p1p.Controller.Ledger.{WorkflowCommand, StoredCase}
use agent_p1p.Controller.Scheduling.{WorkflowPolicy, is_reviewer, is_required, role_name}
use agent_p1p.Controller.Scheduling.Policy.{reviewer, required_reviewers}
use agent_p1p.Controller.Reviews.{Joined, invalid_binding, invalid_state, serialization}
use agent_p1p.Controller.Results.{map_event}
use agent_p1p.Store.{RunInput, EvidenceInput, FindingInput}

-- What `serde_json` and SHA-256 do: values of results, of findings, of objects and texts, the
-- result that a value stands for, equality of values, and the bytes of a digest.
pub record Serde (Value : Type 0) : Type 0 where
  pub to_value : WorkerResult Value → Result Value String
  pub finding_value : BlockingFinding → Result Value String
  pub from_value : Value → Result (WorkerResult Value) String
  pub object : List (String × Value) → Value
  pub text : String → Value
  pub same_value : Value → Value → Bool
  pub sha256 : List ℕ → List ℕ

abbrev pub Command : Type 0 → Type 0
Command Value = WorkflowCommand Value (RunInput Value) (EvidenceInput Value) (FindingInput Value)

-- `derive(PartialEq)`
abbrev pub mode_number : ReviewMode → ℕ
mode_number required = 0
mode_number advisory = 1
mode_number shadow = 2

abbrev pub same_mode : ReviewMode → ReviewMode → Bool
same_mode a b = mode_number a == mode_number b

-- A review is only taken of a required reviewer as the policy configures it.
unfoldable pub validate_review_policy_binding : WorkflowPolicy → WorkerBinding → Joined (Unit {0})
validate_review_policy_binding policy binding = if not (is_reviewer binding.role) then ok tt else do
  fail_if (not (is_required binding.review_mode)) invalid_binding
  id ← ok_or binding.reviewer_id invalid_binding
  configured ← map_err (λ _. invalid_binding) (reviewer policy id)
  fail_if
      (not (same_role configured.role binding.role)
        || not (option_eq same_mode configured.review_mode binding.review_mode)
        || not (
            str_eq (concat (configured.provider ∷ "/" ∷ configured.model ∷ []))
              binding.requested_model))
      invalid_binding

-- `if let Some(workflow_policy) = workflow_policy`
abbrev pub validate_review_policy : Option WorkflowPolicy → WorkerBinding → Joined (Unit {0})
validate_review_policy none binding = ok tt
validate_review_policy (some policy) binding = validate_review_policy_binding policy binding

unfoldable pub validate_case_binding : StoredCase → WorkerBinding → CasePolicy → Joined (Unit {0})
validate_case_binding case binding policy =
    fail_if
      (not (case.repository_id == binding.case.repository_id)
        || not (case.issue_number == binding.case.issue_number)
        || not (case.workflow_version == binding.case.workflow_version)
        || not (case.policy_revision == policy.revision))
      invalid_binding

unfoldable pub case_id : WorkerBinding → Joined CaseId
case_id binding = do
  repository ← ok_or (non_zero binding.case.repository_id) invalid_binding
  issue ← ok_or (non_zero binding.case.issue_number) invalid_binding
  workflow ← ok_or (non_zero binding.case.workflow_version) invalid_binding
  ok (record { repository = repository; issue = issue; workflow = workflow })

-- `{:x}` of a number below sixteen
abbrev pub hex_digit : ℕ → String
hex_digit n =
    if ltb n 10
    then decimal n
    else if n == 10
    then "a"
    else if n == 11
    then "b"
    else if n == 12
    then "c"
    else if n == 13
    then "d"
    else if n == 14
    then "e"
    else "f"

-- `{byte:02x}` of each byte
abbrev pub hex : List ℕ → String
hex [] = ""
hex (byte ∷ rest) = concat (hex_digit (byte / 16) ∷ hex_digit (byte % 16) ∷ hex rest ∷ [])

-- `and_then(NonZeroU32::new)`
abbrev pub non_zero_of : Option ℕ → Option ℕ
non_zero_of none = none
non_zero_of (some n) = non_zero n

-- `zip`
abbrev pub next_binding : Option ℕ → Option String → Option (ℕ × String)
next_binding (some pr) (some head) = some (pr, head)
next_binding _ _ = none

-- `unzip`
abbrev pub pr_of : Option (ℕ × String) → Option ℕ
pr_of none = none
pr_of (some (pr, head)) = some pr

-- `map(GitSha::from_str).transpose()`, of the stored head, which is kept as its bytes
abbrev pub parse_head : Option GitSha → Joined (Option GitSha)
parse_head none = ok none
parse_head (some head) =
    if not (length head == 40) || not (all is_lower_hex head)
    then err invalid_state
    else ok (some head)

-- and of the next one, which is a text
abbrev pub parse_next_head : Option (ℕ × String) → Joined (Option GitSha)
parse_next_head none = ok none
parse_next_head (some (pr, head)) = do
  sha ← map_err (λ _. invalid_binding) (parse_git_sha head)
  ok (some sha)

-- The reviewers that `join_review` requires.
abbrev pub required_ids : Option WorkflowPolicy → Option (List (Option String))
required_ids none = none
required_ids (some policy) = some (map (λ role. role.reviewer_id) (required_reviewers policy))

module _ {Value : Type 0} where
  -- The command for an event of the stored case, with what the event brings.
  unfoldable pub workflow :
      StoredCase
      → CaseId
      → Event
      → String
      → ℕ
      → Value
      → Option (RunInput Value)
      → Option ℕ
      → Option (ℕ × String)
      → List (EvidenceInput Value)
      → Joined (Command Value)
  workflow case id event event_id observed_at payload run accepted_plan_version next evidence = do
    parsed_id ← map_err (λ _. invalid_binding) (parse_textual_id "event id" event_id)
    state ← map_err (λ _. invalid_state) (parse_state case.state)
    revision ← ok_or (non_zero case.state_revision) invalid_state
    policy ← ok_or (non_zero case.policy_revision) invalid_state
    head ← parse_head case.head_sha
    next_head ← parse_next_head next
    ok (record {
      case_id = id;
      event_id = parsed_id;
      observed_at = observed_at;
      expected_state = state;
      expected_state_revision = revision;
      accepted_policy_revision = policy;
      remediation_round = case.remediation_round;
      plan_version = non_zero case.plan_version;
      pr_number = non_zero_of case.pr_number;
      head_sha = head;
      event = event;
      accepted_plan_version = non_zero_of accepted_plan_version;
      next_pr_number = non_zero_of (pr_of next);
      next_head_sha = next_head;
      event_payload = payload;
      run = run;
      evidence = evidence;
      findings = [];
    })

module _ {Value : Type 0} (serde : Serde Value) where
  abbrev pub result_event_id : String → String → String
  result_event_id kind task_id =
      concat ("event-" ∷ kind ∷ "-" ∷ hex (serde.sha256 (bytes task_id)) ∷ [])

  unfoldable pub review_findings :
      ReviewResult Value → List BlockingFinding → Joined (List (FindingInput Value))
  review_findings result [] = ok []
  review_findings result (finding ∷ rest) = do
    payload ← map_err serialization (serde.finding_value finding)
    inputs ← review_findings result rest
    ok (
        record {
          finding_id = finding.id;
          origin_role = result.reviewer_id;
          reviewed_head_sha = result.reviewed_head_sha;
          payload = payload;
        }
        ∷ inputs)

  abbrev pub findings : WorkerResult Value → Joined (List (FindingInput Value))
  findings (of_review result) = review_findings result result.blocking_findings
  findings _ = ok []

  -- The run that stands in the ledger for a result.
  abbrev pub run_of : WorkerBinding → Value → RunInput Value
  run_of binding payload = record {
    run_id = concat ("run-" ∷ binding.task_id ∷ []);
    task_id = binding.task_id;
    role = role_name binding.role;
    payload = payload;
  }

  abbrev pub evidence_of : WorkerBinding → WorkerResult Value → EvidenceInput Value
  evidence_of binding result = record {
    evidence_id = concat ("evidence-worker-" ∷ binding.task_id ∷ []);
    kind = "WORKER_RESULT_EVIDENCE";
    source = binding.task_id;
    payload = serde.object (common_of result).evidence;
  }

  -- With the type of the case's latest event and the payloads of its current reviews.
  unfoldable pub result_workflow :
      Option String
      → List Value
      → StoredCase
      → CaseId
      → Option WorkflowPolicy
      → WorkerBinding
      → WorkerResult Value
      → Value
      → Joined (Command Value)
  result_workflow latest payloads case id policy binding result payload = do
    mapped ←
        map_event (λ v. map_err serialization (serde.from_value v)) case.state latest payloads
          (required_ids policy) result
    found ← findings result
    command ←
        workflow case id mapped.event (result_event_id "result" binding.task_id)
          (common_of result).completed_at_unix payload (some (run_of binding payload))
          mapped.accepted_plan_version (next_binding mapped.next_pr_number mapped.next_head_sha)
          (evidence_of binding result ∷ [])
    ok (record command { findings = found })
