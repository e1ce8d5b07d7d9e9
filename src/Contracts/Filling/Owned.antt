-- ===== src/Contracts/Filling/Owned.antt =====
-- crates/pip-contracts/src/lib.rs: which fields of a filled result are the controller's.
use text.Mathlib.Text.{◌==◌ as str_eq}
use text.Mathlib.TextEquality.{eq_iff}
use agent_p1p.Prelude.{
  ℕ, ◌≡◌, refl, sym, ◌∙◌, ap, arith, String, Bool, true, false, Option, none, some, List, [], ◌∷◌,
  ◌++◌, any, if◌then◌else◌, Bool-cases, inl, inr,
}
use agent_p1p.Contracts.{
  WorkerRole, planner, builder, reviewer_general, reviewer_secperf, final_reviewer,
}
use agent_p1p.Contracts.Filling.{
  IsLawful, Fields, Json, BindingFill, is_review_role, round_keys, insert_all, or_insert,
  present_field, header_fields, reviewed_fields, round_of, round_fields, times, time_fields,
  fill_fields,
}

-- The first of two that is there.
abbrev pub pick {ℓ} : {A : Type ℓ} → Option A → Option A → Option A
pick none b = b
pick (some a) b = some a

pub pick-none {ℓ} : {A : Type ℓ} (a : Option A) → pick a none ≡ a
pick-none none = refl
pick-none (some a) = refl

pick_assoc {ℓ} : {A : Type ℓ} (a b c : Option A) → pick (pick a b) c ≡ pick a (pick b c)
pick_assoc none b c = refl
pick_assoc (some a) b c = refl

-- The keys of the rounds of some role.
abbrev pub all_rounds : List String
all_rounds = "build_round" ∷ "review_round" ∷ "final_review_round" ∷ []

pub not_round :
    (key : String) (role : WorkerRole)
    → any (λ k. str_eq k key) all_rounds ≡ false
    → any (λ k. str_eq k key) (round_keys role) ≡ false
not_round key planner h = refl
not_round key builder h = ground arith
not_round key reviewer_general h = ground arith
not_round key reviewer_secperf h = ground arith
not_round key final_reviewer h = ground arith

-- A key that is given to every role, or to none.
abbrev pub role_keys : List String
role_keys =
    "started_at_unix" ∷ "completed_at_unix" ∷ "reviewer_id" ∷ "pr_number" ∷ "reviewed_head_sha"
    ∷ all_rounds

module _ {Value : Type 0} where
  -- What some insertions leave at a key: the last of them.
  abbrev pub last_of : String → Fields Value → Option Value
  last_of key [] = none
  last_of key ((k, v) ∷ more) = pick (last_of key more) (if str_eq k key then some v else none)

  pick-if :
      (b : Bool) (v : Value) (o : Option Value)
      → (if b then some v else o) ≡ pick (if b then some v else none) o
  pick-if true v o = refl
  pick-if false v o = refl

  pub last_of-append :
      (key : String) (xs ys : Fields Value)
      → last_of key (xs ++ ys) ≡ pick (last_of key ys) (last_of key xs)
  last_of-append key [] ys = sym (pick-none (last_of key ys))
  last_of-append key ((k, v) ∷ xs) ys =
      ap (λ o. pick o (if str_eq k key then some v else none)) (last_of-append key xs ys)
      ∙ pick_assoc (last_of key ys) (last_of key xs) (if str_eq k key then some v else none)

  pub other_field :
      {A : Type 0} (key k : String) (make : A → Value) (o : Option A)
      → str_eq k key ≡ false
      → last_of key (present_field k make o) ≡ none
  other_field key k make none h = refl
  other_field key k make (some a) h = rw h refl

  module _ (json : Json Value) (lawful : IsLawful json) where
    get-insert_all :
        (key : String) (more : Fields Value) (fields : json.Object)
        → json.get key (insert_all json more fields) ≡ pick (last_of key more) (json.get key fields)
    get-insert_all key [] fields = refl
    get-insert_all key ((k, v) ∷ more) fields =
        get-insert_all key more (json.insert k v fields)
        ∙ ap (pick (last_of key more))
            (lawful.get-insert k key v fields ∙ pick-if (str_eq k key) v (json.get key fields))
        ∙ sym (
            pick_assoc (last_of key more) (if str_eq k key then some v else none)
              (json.get key fields))

    same_key :
        (k key : String) (fields : json.Object) (found : Option Value)
        → json.get k fields ≡ found
        → str_eq k key ≡ true
        → json.get key fields ≡ found
    same_key k key fields found is same =
        ap (λ j. json.get j fields) (sym ((eq_iff k key).0 same)) ∙ is

    or_insert_found :
        (key k : String) (v : Value) (fields : json.Object) (found : Option Value)
        → json.get k fields ≡ found
        → json.get key (elim found [ some _ ↦ fields | none ↦ json.insert k v fields ])
          ≡ pick (json.get key fields) (if str_eq k key then some v else none)
    or_insert_found key k v fields (some w) is = elim (Bool-cases (str_eq k key)) [
      | inl same ↦ rw (same, same_key k key fields (some w) is same) refl
      | inr other ↦ rw other (sym (pick-none (json.get key fields)))
    ]
    or_insert_found key k v fields none is = elim (Bool-cases (str_eq k key)) [
      | inl same ↦
          lawful.get-insert k key v fields ∙ rw (same, same_key k key fields none is same) refl
      | inr other ↦
          lawful.get-insert k key v fields ∙ rw other (sym (pick-none (json.get key fields)))
    ]

    get-or_insert :
        (key k : String) (v : Value) (fields : json.Object)
        → json.get key (or_insert json k v fields)
          ≡ pick (json.get key fields) (if str_eq k key then some v else none)
    get-or_insert key k v fields = or_insert_found key k v fields (json.get k fields) refl

  module _ (json : Json Value) (fill : BindingFill Value) (fields : json.Object) where
    -- The fields before the times are set.
    abbrev pub before_times : json.Object
    before_times = insert_all json (round_fields json fill (round_keys fill.binding.role)) (
        insert_all json (present_field "reviewer_id" json.text fill.binding.reviewer_id) (
          insert_all json (reviewed_fields json fill fill.binding) (
            or_insert json "evidence" (json.object json.empty)
              (insert_all json (header_fields json fill fill.binding) fields))))

    pub no_review_field :
        (key : String)
        → str_eq "pr_number" key ≡ false
        → str_eq "reviewed_head_sha" key ≡ false
        → last_of key (reviewed_fields json fill fill.binding) ≡ none
    no_review_field key p q = elim (Bool-cases (is_review_role fill.binding.role)) [
      | inl yes' ↦ elim (Bool-cases fill.reviewed_head_from_binding) [
        | inl takes ↦
            rw (yes', takes)
              (last_of-append key (present_field "pr_number" json.number fill.binding.pr_number) _
                ∙ rw
                    (
                      other_field key "pr_number" json.number fill.binding.pr_number p,
                      other_field key "reviewed_head_sha" json.text fill.binding.expected_head_sha
                          q,
                    )
                    refl)
        | inr leaves ↦
            rw (yes', leaves)
              (last_of-append key (present_field "pr_number" json.number fill.binding.pr_number) []
                ∙ other_field key "pr_number" json.number fill.binding.pr_number p)
      ]
      | inr other ↦ rw other refl
    ]

    pub no_round :
        (key : String) (keys : List String)
        → any (λ k. str_eq k key) keys ≡ false
        → last_of key (round_fields json fill keys) ≡ none
    no_round key [] h = refl
    no_round key (k ∷ keys) h =
        last_of-append key (present_field k json.number (round_of json fill k))
          (round_fields json fill keys)
        ∙ rw
            (
              no_round key keys (ground arith),
              other_field key k json.number (round_of json fill k) (ground arith),
            )
            refl

    pub no_time :
        (key : String) (t : ℕ × ℕ)
        → str_eq "started_at_unix" key ≡ false
        → str_eq "completed_at_unix" key ≡ false
        → last_of key (time_fields json fill t) ≡ none
    no_time key (started, completed) p q = rw (p, q) refl

  module _ (json : Json Value) (lawful : IsLawful json) (fill : BindingFill Value)
      (fields : json.Object) where
    -- Who is asked for a field, in this order.
    pub get-fill_fields :
        (key : String)
        → json.get key (fill_fields json fill fields)
          ≡ pick
              (last_of key
                (time_fields json fill (times json fill (before_times json fill fields))))
              (pick (last_of key (round_fields json fill (round_keys fill.binding.role))) (
                pick
                  (last_of key (present_field "reviewer_id" json.text fill.binding.reviewer_id))
                  (pick (last_of key (reviewed_fields json fill fill.binding)) (
                    pick
                      (pick
                        (last_of key (header_fields json fill fill.binding))
                        (json.get key fields))
                      (if str_eq "evidence" key then some (json.object json.empty) else none)))))
    unfolding fill_fields
    get-fill_fields key = simp (get-insert_all json lawful, get-or_insert json lawful)

    pub without_role :
        (key : String)
        → any (λ k. str_eq k key) role_keys ≡ false
        → json.get key (fill_fields json fill fields)
          ≡ pick
              (pick (last_of key (header_fields json fill fill.binding)) (json.get key fields))
              (if str_eq "evidence" key then some (json.object json.empty) else none)
    without_role key h =
        get-fill_fields key
        ∙ rw
            (
              no_time json fill fields key (times json fill (before_times json fill fields))
                  (ground arith) (ground arith),
              no_round json fill fields key (round_keys fill.binding.role)
                  (not_round key fill.binding.role (ground arith)),
              other_field key "reviewer_id" json.text fill.binding.reviewer_id (ground arith),
              no_review_field json fill fields key (ground arith) (ground arith),
            )
            refl
