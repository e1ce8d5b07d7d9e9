-- ===== src/Controller/Reviews.antt =====
-- crates/pip-controller/src/results.rs: the join of the reviews of one head.
pub mod Approval
mod Tests
use text.Mathlib.Text.{◌==◌ as str_eq}
use agent_p1p.Prelude.{
  String, Bool, true, false, not, ◌&&◌, ◌||◌, Option, none, some, List, [], ◌∷◌, ◌++◌, map, ◌==◌,
  if◌then◌else◌, any, all, Result, ok, err, ◌>>=◌, ◌>>◌, fail_if,
}
use agent_p1p.Core.StateMachine.{Event, review_recorded, reviews_approved, request_changes}
use agent_p1p.Contracts.{
  ContractError, WorkerRole, reviewer_general, reviewer_secperf, same_role, ReviewOutcome, approve,
  ReviewResult, WorkerResult, of_review,
}
use agent_p1p.Controller.Ledger.{ControllerError}
use agent_p1p.Store.{StoreError}

pub data IngestError : Type 0 where
  contract : ContractError → IngestError
  store : StoreError → IngestError
  controller : ControllerError StoreError → IngestError
  invalid_binding invalid_state conflicting_run conflicting_reviews : IngestError
  serialization : String → IngestError

abbrev pub Joined : Type 0 → Type 0
Joined A = Result A IngestError

-- `ReviewOutcome::RequestChanges`
abbrev pub asks_changes : ReviewOutcome → Bool
asks_changes ReviewOutcome.request_changes = true
asks_changes _ = false

-- An outcome that judges the head.
abbrev pub judges : ReviewOutcome → Bool
judges approve = true
judges ReviewOutcome.request_changes = true
judges _ = false

-- `BTreeSet::contains`
abbrev pub contains : String → List String → Bool
contains id ids = any (str_eq id) ids

-- The reviewers that a policy requires, each of which must have an id.
unfoldable pub collect_ids : List (Option String) → Joined (List String)
collect_ids [] = ok []
collect_ids (none ∷ ids) = err invalid_binding
collect_ids (some id ∷ ids) = do rest ← collect_ids ids; ok (id ∷ rest)

module _ {Value : Type 0} where
  -- Two reviews of the same plan, round, pull request and head.
  abbrev pub same_head : ReviewResult Value → ReviewResult Value → Bool
  same_head previous current =
      previous.plan_version == current.plan_version
      && previous.review_round == current.review_round
      && previous.pr_number == current.pr_number
      && str_eq previous.reviewed_head_sha current.reviewed_head_sha

  abbrev pub take_review :
      ReviewResult Value
      → WorkerResult Value
      → List (ReviewResult Value)
      → List (ReviewResult Value)
  take_review current (of_review previous) rest =
      if same_head previous current then previous ∷ rest else rest
  take_review current _ rest = rest

  -- The stored reviews of the same head; the payloads are decoded by `serde_json`.
  unfoldable pub gather :
      (Value → Joined (WorkerResult Value))
      → ReviewResult Value
      → List Value
      → Joined (List (ReviewResult Value))
  gather decode current [] = ok []
  gather decode current (payload ∷ payloads) = do
    parsed ← decode payload
    rest ← gather decode current payloads
    ok (take_review current parsed rest)

  -- `iter().find` by the role.
  abbrev pub find_role : WorkerRole → List (ReviewResult Value) → Option (ReviewResult Value)
  find_role role [] = none
  find_role role (r ∷ rs) = if same_role r.common.role role then some r else find_role role rs

  abbrev pub ids_of : List (ReviewResult Value) → List String
  ids_of [] = []
  ids_of (r ∷ rs) = r.reviewer_id ∷ ids_of rs

  -- What the reviews of a head say, where these reviewers are required.
  unfoldable pub verdict : List String → List (ReviewResult Value) → Joined Event
  verdict required matching =
      if not (all (λ id. contains id (ids_of matching)) required)
      then ok review_recorded
      else if any (λ id. not (contains id required)) (ids_of matching)
          || any (λ r. not (judges r.outcome)) matching
      then err conflicting_reviews
      else if any (λ r. asks_changes r.outcome) matching
      then ok Event.request_changes
      else ok reviews_approved

  -- Without a policy the first review of each role is required, and both must be there.
  unfoldable pub by_pair :
      Option (ReviewResult Value)
      → Option (ReviewResult Value)
      → List (ReviewResult Value)
      → Joined Event
  by_pair (some general) (some secperf) matching =
      verdict (general.reviewer_id ∷ secperf.reviewer_id ∷ []) matching
  by_pair _ _ matching = ok review_recorded

  abbrev pub by_roles : List (ReviewResult Value) → Joined Event
  by_roles matching =
      by_pair (find_role reviewer_general matching) (find_role reviewer_secperf matching) matching

  unfoldable pub by_policy :
      Option (List (Option String)) → List (ReviewResult Value) → Joined Event
  by_policy none matching = by_roles matching
  by_policy (some reviewers) matching = do
    required ← collect_ids reviewers
    verdict required matching

  -- `join_review`, on the payloads of the current review runs and the ids of the reviewers that
  -- the workflow policy requires, if there is one.
  unfoldable pub join_review :
      (Value → Joined (WorkerResult Value))
      → List Value
      → Option (List (Option String))
      → ReviewResult Value
      → Joined Event
  join_review decode payloads policy current = do
    earlier ← gather decode current payloads
    fail_if (any (λ prior. str_eq prior.reviewer_id current.reviewer_id) earlier)
        conflicting_reviews
    by_policy policy (earlier ++ current ∷ [])
