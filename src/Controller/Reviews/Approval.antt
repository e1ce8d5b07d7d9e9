-- ===== src/Controller/Reviews/Approval.antt =====
-- crates/pip-controller/src/results.rs: what an approval by the reviews of a head rests on.
use agent_p1p.Prelude.{
  String, ◌≡◌, refl, Bool-cases, inl, inr, sym, subst, Bool, true, false, not, ◌&&◌, Option, none,
  some, List, [], ◌∷◌, ◌++◌, any, all, All, arith, ok, >>=-eq-ok, >>-eq-ok, ok_injective,
}
use agent_p1p.Core.StateMachine.{reviews_approved}
use agent_p1p.Contracts.{
  ReviewOutcome, approve, ReviewResult, WorkerResult, of_planner, of_builder, of_review, of_final,
}
use agent_p1p.Controller.Reviews.{
  Joined, asks_changes, judges, contains, collect_ids, same_head, take_review, gather, ids_of,
  verdict, by_policy, join_review,
}

outcome_approves :
    (o : ReviewOutcome) → not (judges o) ≡ false → asks_changes o ≡ false → o ≡ approve
outcome_approves o j a = ground arith

-- A required reviewer has an id, and a review of that id is among these.
abbrev pub HasReviewed : List String → Option String → Type 0
HasReviewed ids reviewer = (id : String) × (reviewer ≡ some id) × (contains id ids ≡ true)

both_true : (a b : Bool) → (a && b) ≡ true → (a ≡ true) × (b ≡ true)
both_true a b h = ground arith

all_have_reviewed :
    (reviewers : List (Option String)) (required ids : List String)
    → collect_ids reviewers ≡ ok required
    → all (λ id. contains id ids) required ≡ true
    → All (HasReviewed ids) reviewers
unfolding collect_ids
all_have_reviewed [] required ids h a = tt
all_have_reviewed (none ∷ reviewers) required ids h a = cc
all_have_reviewed (some id ∷ reviewers) required ids h a =
    let (rest, collected, split) = >>=-eq-ok (collect_ids reviewers) _ h in
    let present =
      subst (λ found. all (λ x. contains x ids) found ≡ true) (sym (ok_injective split)) a in
    let (first, others) = both_true (contains id ids) (all (λ x. contains x ids) rest) present in
    ((id, refl, first), all_have_reviewed reviewers rest ids collected others)

module _ {Value : Type 0} where
  all_approve :
      (rs : List (ReviewResult Value))
      → any (λ r. not (judges r.outcome)) rs ≡ false
      → any (λ r. asks_changes r.outcome) rs ≡ false
      → All (λ r. r.outcome ≡ approve) rs
  all_approve [] j a = tt
  all_approve (r ∷ rs) j a = (
    outcome_approves r.outcome (ground arith) (ground arith),
    all_approve rs (ground arith) (ground arith),
  )

  taken :
      (current : ReviewResult Value) (parsed : WorkerResult Value)
      (rest : List (ReviewResult Value))
      → All (λ r. same_head r current ≡ true) rest
      → All (λ r. same_head r current ≡ true) (take_review current parsed rest)
  taken current (of_planner r) rest h = h
  taken current (of_builder r) rest h = h
  taken current (of_final r) rest h = h
  taken current (of_review r) rest h = elim (Bool-cases (same_head r current)) [
    | inl same ↦ rw (same) (same, h)
    | inr other ↦ rw (other) h
  ]

  approving :
      (required : List String) (rs : List (ReviewResult Value))
      → verdict required rs ≡ ok reviews_approved
      → (all (λ id. contains id (ids_of rs)) required ≡ true)
        × (any (λ r. not (judges r.outcome)) rs ≡ false)
        × (any (λ r. asks_changes r.outcome) rs ≡ false)
  unfolding verdict
  approving required rs h = ground arith

  gathered :
      (decode : Value → Joined (WorkerResult Value)) (current : ReviewResult Value)
      (payloads : List Value) (earlier : List (ReviewResult Value))
      → gather decode current payloads ≡ ok earlier
      → All (λ r. same_head r current ≡ true) earlier
  unfolding gather
  gathered decode current [] earlier h =
      subst (All (λ r. same_head r current ≡ true)) (ok_injective h) tt
  gathered decode current (payload ∷ payloads) earlier h =
      let (parsed, _, h1) = >>=-eq-ok (decode payload) _ h in
      let (rest, more, split) = >>=-eq-ok (gather decode current payloads) _ h1 in
      subst (All (λ r. same_head r current ≡ true)) (ok_injective split)
        (taken current parsed rest (gathered decode current payloads rest more))

  -- The reviews are reported as approved under a policy only if they are all of the plan, round,
  -- pull request and head of the review that has come in, they all approve, and each reviewer that
  -- the policy requires is among them.
  pub approved_by_all :
      (decode : Value → Joined (WorkerResult Value)) (payloads : List Value)
      (reviewers : List (Option String)) (current : ReviewResult Value)
      → join_review decode payloads (some reviewers) current ≡ ok reviews_approved
      → (earlier : List (ReviewResult Value)) × (gather decode current payloads ≡ ok earlier)
        × All (λ r. same_head r current ≡ true) earlier
        × All (λ r. r.outcome ≡ approve) (earlier ++ current ∷ [])
        × All (HasReviewed (ids_of (earlier ++ current ∷ []))) reviewers
  unfolding join_review by_policy verdict
  approved_by_all decode payloads reviewers current h =
      let (earlier, found, h1) = >>=-eq-ok (gather decode current payloads) _ h in
      let (_, h2) = >>-eq-ok _ (by_policy (some reviewers) (earlier ++ current ∷ [])) h1 in
      let (required, collected, h3) =
        >>=-eq-ok (collect_ids reviewers) (λ r. verdict r (earlier ++ current ∷ [])) h2 in
      let (covered, judged, unasked) = approving required (earlier ++ current ∷ []) h3 in
      (
        earlier,
        found,
        gathered decode current payloads earlier found,
        all_approve (earlier ++ current ∷ []) judged unasked,
        all_have_reviewed reviewers required (ids_of (earlier ++ current ∷ [])) collected covered,
      )
