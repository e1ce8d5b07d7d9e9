-- ===== src/Core/StateMachine/Runs.antt =====
-- What holds along every sequence of transitions of crates/pip-core/src/state_machine.rs.
use agent_p1p.Prelude.{
  ◌<◌, ◌≡◌, ◌⊎◌, inl, inr, Bool, true, false, List, [], ◌∷◌, All, arith, ok, Result, ◌>>=◌,
  >>=-eq-ok,
}
use agent_p1p.Core.StateMachine.{
  CaseState, reviewing, final_review, shadow_ready, ready_to_merge, merging, completed, Event,
  ci_accepted, reviews_approved, ready, operational_bound_reached, human_clarified, proceed,
  builder_dispatched, review_ready, reviews_published, final_preflight_accepted, human_merged,
  TransitionContext, TransitionDecision, TransitionError, shadow, is_terminal, transition,
}

-- A case taken through a list of events, each in the context of its time; it stops at a refusal.
unfoldable pub run : CaseState → List (Event × TransitionContext) → Result CaseState TransitionError
run s [] = ok s
run s ((e, c) ∷ es) = transition s e c >>= λ d. run d.next_state es

abbrev pub InShadow : Event × TransitionContext → Type 0
InShadow (e, c) = c.merge_mode ≡ shadow

abbrev pub is_merge_state : CaseState → Bool
is_merge_state ready_to_merge = true
is_merge_state merging = true
is_merge_state _ = false

step_shadow :
    (s : CaseState) (e : Event) (c : TransitionContext) (d : TransitionDecision)
    → c.merge_mode ≡ shadow
    → is_merge_state s ≡ false
    → transition s e c ≡ ok d
    → is_merge_state d.next_state ≡ false
unfolding transition
step_shadow s e c d m n h = ground arith

-- Where every context is in shadow mode, a case outside the merge states never enters one.
pub run_shadow :
    (s : CaseState) (es : List (Event × TransitionContext)) (t : CaseState)
    → All InShadow es
    → is_merge_state s ≡ false
    → run s es ≡ ok t
    → is_merge_state t ≡ false
unfolding run
run_shadow s [] t m n h = ground arith
run_shadow s ((e, c) ∷ es) t (m, ms) n h =
    let (d, accepted, rest) = >>=-eq-ok (transition s e c) (λ d. run d.next_state es) h in
    run_shadow d.next_state es t ms (step_shadow s e c d m n accepted) rest

-- Past review, past approval, past the final decision: three stages, each inside the one before.
abbrev pub is_reviewed : CaseState → Bool
is_reviewed reviewing = true
is_reviewed final_review = true
is_reviewed shadow_ready = true
is_reviewed ready_to_merge = true
is_reviewed merging = true
is_reviewed _ = false

abbrev pub is_approved : CaseState → Bool
is_approved reviewing = false
is_approved s = is_reviewed s

abbrev pub is_ready : CaseState → Bool
is_ready reviewing = false
is_ready final_review = false
is_ready s = is_reviewed s

-- The keys occur among the events in this order, with others before, between and after them.
pub data InOrder : List Event → List (Event × TransitionContext) → Type 0 where
  done : {es : List (Event × TransitionContext)} → InOrder [] es
  here :
      {k e : Event} {c : TransitionContext} {ks : List Event}
      {es : List (Event × TransitionContext)}
      → e ≡ k
      → InOrder ks es
      → InOrder (k ∷ ks) ((e, c) ∷ es)
  later :
      {e : Event} {c : TransitionContext} {ks : List Event} {es : List (Event × TransitionContext)}
      → InOrder ks es
      → InOrder ks ((e, c) ∷ es)

-- One gate: a case before it passes it by its key event only, and then stands before the next.
abbrev IsGate : (CaseState → Bool) → (CaseState → Bool) → Event → Type 0
IsGate passed next key =
    (s : CaseState) (e : Event) (c : TransitionContext) (d : TransitionDecision)
    → transition s e c ≡ ok d
    → passed s ≡ false
    → (passed d.next_state ≡ false) ⊎ ((e ≡ key) × (next d.next_state ≡ false))

review-IsGate : IsGate is_reviewed is_approved ci_accepted
unfolding transition
review-IsGate s e c d h n = ground arith

approval-IsGate : IsGate is_approved is_ready reviews_approved
unfolding transition
approval-IsGate s e c d h n = ground arith

ready-IsGate : IsGate is_ready (λ _. false) ready
unfolding transition
ready-IsGate s e c d h n = ground arith

-- Every run from `s` to a ready state has the keys in order.
abbrev Needs : List Event → CaseState → Type 0
Needs keys s =
    (es : List (Event × TransitionContext)) (t : CaseState)
    → run s es ≡ ok t
    → is_ready t ≡ true
    → InOrder keys es

module _ (passed next : CaseState → Bool) (key : Event) (keys : List Event)
    (gate : IsGate passed next key) (closed : (t : CaseState) → is_ready t ≡ true → passed t ≡ true)
    (inner : (s : CaseState) → next s ≡ false → Needs keys s) where
  gate-Needs : (s : CaseState) → passed s ≡ false → Needs (key ∷ keys) s
  unfolding run
  gate-Needs s n [] t h r = absurd (differ (closed t r) (ground arith))
    where
      differ : passed t ≡ true → passed t ≡ false → ⊥
      differ p q = cc
  gate-Needs s n ((e, c) ∷ es) t h r =
      let (d, accepted, rest) = >>=-eq-ok (transition s e c) (λ d. run d.next_state es) h in
      elim (gate s e c d accepted n) [
        | inl before ↦ later (gate-Needs d.next_state before es t rest r)
        | inr (same, after) ↦ here same (inner d.next_state after es t rest r)
      ]

approved_of_ready : (t : CaseState) → is_ready t ≡ true → is_approved t ≡ true
approved_of_ready t h = ground arith

reviewed_of_ready : (t : CaseState) → is_ready t ≡ true → is_reviewed t ≡ true
reviewed_of_ready t h = ground arith

-- A case that has not been reviewed becomes ready for merge only after `CiAccepted`,
-- `ReviewsApproved` and `Ready`, in this order.
pub run_gates :
    (s : CaseState) (es : List (Event × TransitionContext)) (t : CaseState)
    → is_reviewed s ≡ false
    → run s es ≡ ok t
    → is_ready t ≡ true
    → InOrder (ci_accepted ∷ reviews_approved ∷ ready ∷ []) es
run_gates s es t n h r =
    gate-Needs is_reviewed is_approved ci_accepted (reviews_approved ∷ ready ∷ []) review-IsGate
      reviewed_of_ready approved_needs s n es t h r
  where
    ready_needs : (s' : CaseState) → is_ready s' ≡ false → Needs (ready ∷ []) s'
    ready_needs =
        gate-Needs is_ready (λ _. false) ready [] ready-IsGate (λ _ p. p) (λ _ _ _ _ _ _. done)

    approved_needs :
        (s' : CaseState) → is_approved s' ≡ false → Needs (reviews_approved ∷ ready ∷ []) s'
    approved_needs =
        gate-Needs is_approved is_ready reviews_approved (ready ∷ []) approval-IsGate
          approved_of_ready ready_needs

-- The same context for every event.
abbrev pub under : TransitionContext → List Event → List (Event × TransitionContext)
under c [] = []
under c (e ∷ es) = (e, c) ∷ under c es

-- From an operational limit, through a maintainer's answer, to a merge by a human.
abbrev pub recovery : List Event
recovery =
    operational_bound_reached ∷ human_clarified ∷ proceed ∷ builder_dispatched ∷ review_ready
    ∷ ci_accepted ∷ reviews_approved ∷ reviews_published ∷ final_preflight_accepted ∷ ready
    ∷ human_merged ∷ []

-- No live case is stuck: in shadow mode, with any positive budget, used up or not, the same
-- eleven events complete a case from every state that is not terminal.
pub recovery_completes :
    (s : CaseState) (c : TransitionContext)
    → is_terminal s ≡ false
    → c.merge_mode ≡ shadow
    → 0 < c.max_remediation_rounds
    → run s (under c recovery) ≡ ok completed
unfolding run transition
recovery_completes s c n m p = ground arith
