-- ===== src/Contracts/Filling/Precedence.antt =====
-- crates/pip-contracts/src/lib.rs: what a worker can say in a result that is filled.
use text.Mathlib.Text.{◌==◌ as str_eq}
use agent_p1p.Prelude.{
  ℕ, ◌≤◌, ◌≡◌, refl, ◌∙◌, ap, arith, String, Bool, true, false, ◌&&◌, ◌||◌, Option, none, some,
  List, [], ◌∷◌, ◌++◌, any, any-append, ◌⊎◌, inl, inr, if◌then◌else◌, Bool-cases, Option-cases,
}
use agent_p1p.Contracts.{contract_version}
use agent_p1p.Contracts.Filling.{
  Json, IsLawful, BindingFill, kebab_name, is_review_role, round_keys, present_field, case_value,
  header_fields, reviewed_fields, time_at_most, times, fill_fields,
}
use agent_p1p.Contracts.Filling.Owned.{
  pick, pick-none, last_of, last_of-append, other_field, before_times, get-fill_fields,
  no_review_field, no_round, no_time, all_rounds, not_round, role_keys, without_role,
}

abbrev pub header_keys : List String
header_keys =
    "contract_version" ∷ "workflow_version" ∷ "case" ∷ "task_id" ∷ "role" ∷ "requested_model"
    ∷ "actual_model" ∷ "skills_repository_commit" ∷ "plan_version" ∷ []

-- Every key that the controller may write.
abbrev pub owned_keys : List String
owned_keys = "evidence" ∷ (role_keys ++ header_keys)

module _ {Value : Type 0} where
  abbrev pub value_of : {A : Type 0} → (A → Value) → Option A → Option Value
  value_of make none = none
  value_of make (some a) = some (make a)

  module _ (json : Json Value) (fill : BindingFill Value) (fields : json.Object) where
    -- `get key` on a filled result is the value that the controller has, if any, or the worker's.
    abbrev pub Overrides : json.Object → String → Option Value → Type 0
    Overrides filled key owned = json.get key filled ≡ pick owned (json.get key fields)

    pub record IsControlled (filled : json.Object) : Type 0 where
      pub contract : json.get "contract_version" filled ≡ some (json.number contract_version)
      pub workflow :
          json.get "workflow_version" filled ≡ some (json.number fill.binding.case.workflow_version)
      pub case : json.get "case" filled ≡ some (case_value json fill fill.binding.case)
      pub task : json.get "task_id" filled ≡ some (json.text fill.binding.task_id)
      pub role : json.get "role" filled ≡ some (json.text (kebab_name fill.binding.role))
      pub asked : json.get "requested_model" filled ≡ some (json.text fill.binding.requested_model)
      pub used : json.get "actual_model" filled ≡ some (json.text fill.binding.requested_model)
      pub skills :
          json.get "skills_repository_commit" filled
          ≡ some (json.text fill.binding.skills_repository_commit)
      pub plan : json.get "plan_version" filled ≡ some (json.number fill.binding.plan_version)
      pub reviewer : Overrides filled "reviewer_id" (value_of json.text fill.binding.reviewer_id)
      pub pr : Overrides filled "pr_number" (
          if is_review_role fill.binding.role
          then value_of json.number fill.binding.pr_number
          else none)
      pub head : Overrides filled "reviewed_head_sha" (
          if is_review_role fill.binding.role && fill.reviewed_head_from_binding
          then value_of json.text fill.binding.expected_head_sha
          else none)

    not_evidence :
        (key : String)
        → str_eq "evidence" key ≡ false
        → ◌≡◌ {A = Option Value}
            (if str_eq "evidence" key then some (json.object json.empty) else none)
            none
    not_evidence key h = rw h refl

    last_of-field :
        {A : Type 0} (key : String) (make : A → Value) (o : Option A)
        → str_eq key key ≡ true
        → last_of key (present_field key make o) ≡ value_of make o
    last_of-field key make none h = refl
    last_of-field key make (some a) h = rw h refl

    pr_field : last_of "pr_number" (reviewed_fields json fill fill.binding) ≡ (
        if is_review_role fill.binding.role
        then value_of json.number fill.binding.pr_number
        else none)
    pr_field = elim (Bool-cases (is_review_role fill.binding.role)) [
      | inl reviews ↦ elim (Bool-cases fill.reviewed_head_from_binding) [
        | inl takes ↦
            rw (reviews, takes)
              (last_of-append "pr_number"
                  (present_field "pr_number" json.number fill.binding.pr_number) _
                ∙ rw
                    (
                      other_field "pr_number" "reviewed_head_sha" json.text
                          fill.binding.expected_head_sha refl,
                      last_of-field "pr_number" json.number fill.binding.pr_number refl,
                    )
                    refl)
        | inr leaves ↦
            rw (reviews, leaves)
              (last_of-append "pr_number"
                  (present_field "pr_number" json.number fill.binding.pr_number) []
                ∙ last_of-field "pr_number" json.number fill.binding.pr_number refl)
      ]
      | inr other ↦ rw other refl
    ]

    head_field : last_of "reviewed_head_sha" (reviewed_fields json fill fill.binding) ≡ (
        if is_review_role fill.binding.role && fill.reviewed_head_from_binding
        then value_of json.text fill.binding.expected_head_sha
        else none)
    head_field = elim (Bool-cases (is_review_role fill.binding.role)) [
      | inl reviews ↦ elim (Bool-cases fill.reviewed_head_from_binding) [
        | inl takes ↦
            rw (reviews, takes)
              (last_of-append "reviewed_head_sha"
                  (present_field "pr_number" json.number fill.binding.pr_number) _
                ∙ rw
                    (
                      other_field "reviewed_head_sha" "pr_number" json.number fill.binding.pr_number
                          refl,
                      last_of-field "reviewed_head_sha" json.text fill.binding.expected_head_sha
                          refl,
                    )
                    (pick-none (value_of json.text fill.binding.expected_head_sha)))
        | inr leaves ↦
            rw (reviews, leaves)
              (last_of-append "reviewed_head_sha"
                  (present_field "pr_number" json.number fill.binding.pr_number) []
                ∙ other_field "reviewed_head_sha" "pr_number" json.number fill.binding.pr_number
                    refl)
      ]
      | inr other ↦ rw other refl
    ]

    no_header :
        (key : String)
        → any (λ k. str_eq k key) header_keys ≡ false
        → last_of key (header_fields json fill fill.binding) ≡ none
    no_header key h = ground arith

    any-append_left :
        (key : String) (xs ys : List String)
        → any (λ k. str_eq k key) (xs ++ ys) ≡ false
        → (any (λ k. str_eq k key) xs ≡ false) × (any (λ k. str_eq k key) ys ≡ false)
    any-append_left key xs ys h = ground (arith, any-append (λ k. str_eq k key) xs ys)

    first_false : (a : Bool) → (a || false) ≡ false → a ≡ false
    first_false a h = ground arith

    time_at_most-le : (bound : ℕ) (o : Option Value) → time_at_most json fill bound o ≤ bound
    time_at_most-le bound none = omega arith
    time_at_most-le bound (some value) = elim (Option-cases (json.as_u64 value)) [
      | inl nothing ↦ rw (nothing, time_at_most) (omega arith)
      | inr (time, is) ↦ rw (is, time_at_most) (ground arith)
    ]

    abbrev AreTimes : ℕ × ℕ → Type 0
    AreTimes (started, completed) =
        (fill.run_times ≡ some (started, completed))
        ⊎ ((fill.run_times ≡ none) × (started ≤ completed) × (completed ≤ fill.now))

    times-AreTimes : (fs : json.Object) → AreTimes (times json fill fs)
    unfolding times
    times-AreTimes fs = elim (Option-cases fill.run_times) [
      | inl nothing ↦ rw nothing (inr (refl, time_at_most-le _ _, time_at_most-le _ _))
      | inr (measured, is) ↦ rw is (inl refl)
    ]

  module _ (json : Json Value) (lawful : IsLawful json) (fill : BindingFill Value)
      (fields : json.Object) where
    header :
        (key : String) (v : Value)
        → any (λ k. str_eq k key) role_keys ≡ false
        → last_of key (header_fields json fill fill.binding) ≡ some v
        → json.get key (fill_fields json fill fields) ≡ some v
    header key v h is = without_role json lawful fill fields key h ∙ rw is refl

    reviewer_lem :
        Overrides json fill fields
          (fill_fields json fill fields)
          "reviewer_id"
          (value_of json.text fill.binding.reviewer_id)
    reviewer_lem =
        get-fill_fields json lawful fill fields "reviewer_id"
        ∙ rw
            (
              no_round json fill fields "reviewer_id" (round_keys fill.binding.role)
                  (not_round "reviewer_id" fill.binding.role refl),
              last_of-field json fill fields "reviewer_id" json.text fill.binding.reviewer_id refl,
              no_review_field json fill fields "reviewer_id" refl refl,
            )
            (ap (pick (value_of json.text fill.binding.reviewer_id))
              (pick-none (json.get "reviewer_id" fields)))

    -- A field of reviews only.
    review_field :
        (key : String) (owned : Option Value)
        → any
            (λ k. str_eq k key)
            ("started_at_unix" ∷ "completed_at_unix" ∷ "evidence" ∷ "reviewer_id" ∷ (all_rounds))
          ≡ false
        → last_of key (header_fields json fill fill.binding) ≡ none
        → last_of key (reviewed_fields json fill fill.binding) ≡ owned
        → Overrides json fill fields (fill_fields json fill fields) key owned
    review_field key owned h none_there is =
        get-fill_fields json lawful fill fields key
        ∙ rw
            (
              no_time json fill fields key (times json fill (before_times json fill fields))
                  (ground arith) (ground arith),
              no_round json fill fields key (round_keys fill.binding.role)
                  (not_round key fill.binding.role (ground arith)),
              other_field key "reviewer_id" json.text fill.binding.reviewer_id (ground arith),
              is,
              none_there,
              not_evidence json fill fields key (ground arith),
            )
            (ap (pick owned) (pick-none (json.get key fields)))

    -- A result that is filled for a task says what the binding of the task says in its header; in
    -- the reviewer, and for a review in the pull request and, where the fill asks for it, the head,
    -- it says what the binding names, whatever the worker wrote, and keeps the worker's field only
    -- where the binding names none. A field that is not the controller's is as the worker wrote it.
    pub filled-IsControlled :
        (key : String)
        → any (λ k. str_eq k key) owned_keys ≡ false
        → IsControlled json fill fields (fill_fields json fill fields)
          × (json.get key (fill_fields json fill fields) ≡ json.get key fields)
    filled-IsControlled key h =
        let (at_evidence, others) =
          any-append_left json fill fields key ("evidence" ∷ []) (role_keys ++ header_keys) h in
        let (by_role, in_header) =
          any-append_left json fill fields key role_keys header_keys others in
        (
          record {
            contract = header "contract_version" _ refl refl;
            workflow = header "workflow_version" _ refl refl;
            case = header "case" _ refl refl;
            task = header "task_id" _ refl refl;
            role = header "role" _ refl refl;
            asked = header "requested_model" _ refl refl;
            used = header "actual_model" _ refl refl;
            skills = header "skills_repository_commit" _ refl refl;
            plan = header "plan_version" _ refl refl;
            reviewer = reviewer_lem;
            pr = review_field "pr_number" _ refl refl (pr_field json fill fields);
            head = review_field "reviewed_head_sha" _ refl refl (head_field json fill fields);
          },
          without_role json lawful fill fields key by_role
              ∙ rw
                  (
                    no_header json fill fields key in_header,
                    not_evidence json fill fields key (first_false json fill fields _ at_evidence),
                  )
                  (pick-none (json.get key fields)),
        )

    -- The times of a filled result are the ones that the executor measured, if it did. Otherwise they
    -- are in order and not after the time at which the result was observed.
    pub filled_times_are_ordered :
        (started : ℕ) × (completed : ℕ) × (json.get "started_at_unix" (fill_fields json fill fields)
          ≡ some (json.number started))
        × (json.get "completed_at_unix" (fill_fields json fill fields)
            ≡ some (json.number completed))
        × ((fill.run_times ≡ some (started, completed))
            ⊎ ((fill.run_times ≡ none) × (started ≤ completed) × (completed ≤ fill.now)))
    filled_times_are_ordered =
        let at = times json fill (before_times json fill fields) in
        (
          at.0,
          at.1,
          get-fill_fields json lawful fill fields "started_at_unix",
          get-fill_fields json lawful fill fields "completed_at_unix",
          times-AreTimes json fill fields (before_times json fill fields),
        )
