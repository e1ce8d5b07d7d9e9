-- ===== src/Core/Policy.antt =====
-- crates/pip-core/src/policy.rs: which issues may become cases.
pub mod Intake
use text.Mathlib.Text.{◌==◌ as str_eq}
use agent_p1p.Prelude.{
  ℕ, String, Bool, true, false, not, ◌&&◌, Option, List, [], ◌∷◌, leb, ◌==◌, if◌then◌else◌,
  is_empty, is_none_or, any, push_if,
}

-- The sets are lists: only membership is asked of them.
pub record IntakePolicy : Type 0 where
  pub revision : ℕ
  pub intake_enabled : Bool
  pub dispatch_enabled : Bool
  pub global_paused : Bool
  pub repository_paused : Bool
  pub required_label : String
  pub trusted_actor_ids : List ℕ
  pub repository_active_limit : ℕ  -- NonZeroU32
  pub global_active_limit : ℕ  -- NonZeroU32

pub record IssueObservation : Type 0 where
  pub is_open : Bool
  pub is_pull_request : Bool
  pub labels : List String
  pub latest_label_actor_id : Option ℕ
  pub excluded : Bool
  pub held : Bool
  pub already_owned : Bool
  pub assigned_to_other : Bool
  pub repository_active_cases : ℕ  -- u32
  pub global_active_cases : ℕ  -- u32

pub data IntakeBlocker : Type 0 where
  intake_disabled global_paused repository_paused dispatch_disabled issue_closed pull_request
        required_label_missing untrusted_label_actor excluded held already_owned assigned_to_other
        repository_limit_reached global_limit_reached :
      IntakeBlocker

-- `IntakeBlocker::ALL`
abbrev pub all_blockers : List IntakeBlocker
all_blockers =
    intake_disabled ∷ global_paused ∷ repository_paused ∷ dispatch_disabled ∷ issue_closed
    ∷ pull_request ∷ required_label_missing ∷ untrusted_label_actor ∷ excluded ∷ held
    ∷ already_owned ∷ assigned_to_other ∷ repository_limit_reached ∷ global_limit_reached ∷ []

pub data IntakeDecision : Type 0 where
  eligible : IntakeDecision
  ineligible : List IntakeBlocker → IntakeDecision

abbrev pub has_label : String → List String → Bool
has_label label = any (λ l. str_eq l label)

abbrev pub is_trusted : List ℕ → ℕ → Bool
is_trusted actors actor = any (λ a. a == actor) actors

-- The calls of `block_if`, in their order.
intake_blockers : IntakePolicy → IssueObservation → List IntakeBlocker
intake_blockers policy observation =
    let label_present = has_label policy.required_label observation.labels in
    let untrusted =
      label_present
      && is_none_or (λ actor. not (is_trusted policy.trusted_actor_ids actor))
          observation.latest_label_actor_id in
    let b1 = push_if (not policy.intake_enabled) intake_disabled [] in
    let b2 = push_if policy.global_paused global_paused b1 in
    let b3 = push_if policy.repository_paused repository_paused b2 in
    let b4 = push_if (not policy.dispatch_enabled) dispatch_disabled b3 in
    let b5 = push_if (not observation.is_open) issue_closed b4 in
    let b6 = push_if observation.is_pull_request pull_request b5 in
    let b7 = push_if (not label_present) required_label_missing b6 in
    let b8 = push_if untrusted untrusted_label_actor b7 in
    let b9 = push_if observation.excluded excluded b8 in
    let b10 = push_if observation.held held b9 in
    let b11 = push_if observation.already_owned already_owned b10 in
    let b12 = push_if observation.assigned_to_other assigned_to_other b11 in
    let b13 =
      push_if (leb policy.repository_active_limit observation.repository_active_cases)
        repository_limit_reached b12 in
    push_if (leb policy.global_active_limit observation.global_active_cases) global_limit_reached
      b13

pub evaluate_intake : IntakePolicy → IssueObservation → IntakeDecision
evaluate_intake policy observation =
    let blockers = intake_blockers policy observation in
    if is_empty blockers then eligible else ineligible blockers
