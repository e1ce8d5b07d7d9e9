-- ===== src/Core/Domain/Identity.antt =====
-- The case key of crates/pip-core/src/domain.rs names one case, and the revision counter.
use Prim.Native.String
use Prim.Native.Char.{code}
use mathlib.Core.List.{append_cancel_left}
use text.Mathlib.TextEquality.{Char-path}
use text.Mathlib.TextLemmas.{nil-append, cons-append}
use agent_p1p.Prelude.{
  ℕ, zero, suc, ◌+◌, ◌-◌, ◌*◌, ◌/◌, ◌%◌, ◌≤◌, ◌<◌, String, ◌≡◌, ◌↔◌, refl, sym, ap, ◌∙◌, some, List,
  [], ◌∷◌, ◌++◌, cons-eq-cons, arith, ltb, Bool-cases, if◌then◌else◌, inl, inr, All,
}
use agent_p1p.Prelude.Text.{code_points}
use agent_p1p.Core.Domain.{CaseId, digit, decimal_from, decimal, case_key, checked_next, u64_max}

code_points-append : (s t : String) → code_points (String.◌++◌ s t) ≡ code_points s ++ code_points t
code_points-append String.[] t = ap code_points (nil-append t)
code_points-append (String.◌∷◌ c s) t =
    ap code_points (cons-append c s t) ∙ ap (λ l. code c ∷ l) (code_points-append s t)

code_points-injective : (s t : String) → code_points s ≡ code_points t → s ≡ t
code_points-injective String.[] String.[] h = refl
code_points-injective String.[] (String.◌∷◌ c t) h = cc
code_points-injective (String.◌∷◌ c s) String.[] h = cc
code_points-injective (String.◌∷◌ c s) (String.◌∷◌ d t) h =
    let (same, rest) = cons-eq-cons.0 h in
    λ i. String.◌∷◌ (Char-path c d same i) (code_points-injective s t rest i)

-- The digits of a number, as code points.
digits_from : ℕ → ℕ → List ℕ
digits_from zero n = (48 + n) ∷ []
digits_from (suc rounds) n =
    let front = digits_from rounds (n / 10) in
    if ltb n 10 then (48 + n) ∷ [] else front ++ (48 + n % 10) ∷ []

code_points-digit : (d : ℕ) → d < 10 → code_points (digit d) ≡ (48 + d) ∷ []
unfolding digit
code_points-digit zero h = refl
code_points-digit (suc zero) h = refl
code_points-digit (suc (suc zero)) h = refl
code_points-digit (suc (suc (suc zero))) h = refl
code_points-digit (suc (suc (suc (suc zero)))) h = refl
code_points-digit (suc (suc (suc (suc (suc zero))))) h = refl
code_points-digit (suc (suc (suc (suc (suc (suc zero)))))) h = refl
code_points-digit (suc (suc (suc (suc (suc (suc (suc zero))))))) h = refl
code_points-digit (suc (suc (suc (suc (suc (suc (suc (suc zero)))))))) h = refl
code_points-digit (suc (suc (suc (suc (suc (suc (suc (suc (suc zero))))))))) h = refl
code_points-digit (suc (suc (suc (suc (suc (suc (suc (suc (suc (suc d)))))))))) h =
    absurd (omega arith)

code_points-decimal_from :
    (rounds n : ℕ) → n ≤ rounds → code_points (decimal_from rounds n) ≡ digits_from rounds n
unfolding decimal_from digits_from
code_points-decimal_from zero n h = code_points-digit n (omega arith)
code_points-decimal_from (suc rounds) n h = elim (Bool-cases (ltb n 10)) [
  | inl small ↦ rw (small) (code_points-digit n (ground arith))
  | inr large ↦ rw (
    large,
    code_points-append,
    code_points-decimal_from rounds (n / 10) (ground arith),
    code_points-digit (n % 10) (omega arith),
  )
]

-- The number that digits stand for, most significant first.
value_from : ℕ → List ℕ → ℕ
value_from acc [] = acc
value_from acc (c ∷ cs) = value_from (acc * 10 + c - 48) cs

value-append :
    (acc : ℕ) (xs : List ℕ) (c : ℕ)
    → value_from acc (xs ++ c ∷ []) ≡ value_from acc xs * 10 + c - 48
unfolding value_from
value-append acc [] c = refl
value-append acc (x ∷ xs) c = value-append (acc * 10 + x - 48) xs c

value-digits : (rounds n : ℕ) → n ≤ rounds → value_from 0 (digits_from rounds n) ≡ n
unfolding value_from digits_from
value-digits zero n h = omega arith
value-digits (suc rounds) n h = elim (Bool-cases (ltb n 10)) [
  | inl small ↦ rw small (omega arith)
  | inr large ↦
      rw
        (
          large,
          value-append 0 (digits_from rounds (n / 10)) (48 + n % 10),
          value-digits rounds (n / 10) (ground arith),
        )
        (omega arith)
]

-- No digit is a separator.
abbrev IsDigit : ℕ → Type 0
IsDigit c = (48 ≤ c) × (c ≤ 57)

All-snoc : (xs : List ℕ) (c : ℕ) → All IsDigit xs → IsDigit c → All IsDigit (xs ++ c ∷ [])
All-snoc [] c h p = (p, tt)
All-snoc (x ∷ xs) c (q, h) p = (q, All-snoc xs c h p)

digits-IsDigit : (rounds n : ℕ) → n ≤ rounds → All IsDigit (digits_from rounds n)
unfolding digits_from
digits-IsDigit zero n h = omega arith
digits-IsDigit (suc rounds) n h = elim (Bool-cases (ltb n 10)) [
  | inl small ↦ rw small (ground arith)
  | inr large ↦ rw large (
      All-snoc (digits_from rounds (n / 10)) (48 + n % 10)
        (digits-IsDigit rounds (n / 10) (ground arith)) (omega arith))
]

-- The first separator ends the digits.
split_digits :
    (c : ℕ) (xs xs' ys ys' : List ℕ)
    → ¬ IsDigit c
    → All IsDigit xs
    → All IsDigit xs'
    → xs ++ c ∷ ys ≡ xs' ++ c ∷ ys'
    → (xs ≡ xs') × (ys ≡ ys')
split_digits c [] [] ys ys' n h h' e = (refl, (cons-eq-cons.0 e).1)
split_digits c [] (x ∷ xs') ys ys' n h (p, h') e = absurd (n (rw (cons-eq-cons.0 e).0 p))
split_digits c (x ∷ xs) [] ys ys' n (p, h) h' e = absurd (n (rw (sym (cons-eq-cons.0 e).0) p))
split_digits c (x ∷ xs) (x' ∷ xs') ys ys' n (p, h) (p', h') e =
    let (first, more) = cons-eq-cons.0 e in
    let (front, back) = split_digits c xs xs' ys ys' n h h' more in (λ i. first i ∷ front i, back)

abbrev digits : ℕ → List ℕ
digits n = digits_from n n

digits-injective : (n m : ℕ) → digits n ≡ digits m → n ≡ m
digits-injective n m h =
    sym (value-digits n n (omega arith)) ∙ ap (value_from 0) h ∙ value-digits m m (omega arith)

-- The digits of the three numbers of a case, between their separators.
abbrev key_codes : CaseId → List ℕ
key_codes c = digits c.repository ++ b'#' ∷ (digits c.issue ++ b'@' ∷ digits c.workflow)

code_points-decimal : (n : ℕ) → code_points (decimal n) ≡ digits n
unfolding decimal
code_points-decimal n = code_points-decimal_from n n (omega arith)

code_points-case_key : (c : CaseId) → code_points (case_key c) ≡ code_points "repo:" ++ key_codes c
unfolding case_key
code_points-case_key c = simp (code_points-append, code_points-decimal)

-- Two cases with the same key are the same case.
pub case_key-injective : (a b : CaseId) → case_key a ≡ case_key b → a ≡ b
case_key-injective a b h =
    let keys : key_codes a ≡ key_codes b =
      append_cancel_left (code_points "repo:") _ _
        (sym (code_points-case_key a) ∙ ap code_points h ∙ code_points-case_key b) in
    let (same_repository, rest) =
      split_digits b'#' (digits a.repository) (digits b.repository) _ _ (λ p. omega arith)
        (digits-IsDigit a.repository a.repository (omega arith))
        (digits-IsDigit b.repository b.repository (omega arith)) keys in
    let (same_issue, same_workflow) =
      split_digits b'@' (digits a.issue) (digits b.issue) _ _ (λ p. omega arith)
        (digits-IsDigit a.issue a.issue (omega arith))
        (digits-IsDigit b.issue b.issue (omega arith)) rest in
    λ i. record {
      repository = digits-injective a.repository b.repository same_repository i;
      issue = digits-injective a.issue b.issue same_issue i;
      workflow = digits-injective a.workflow b.workflow same_workflow i;
    }

-- The next revision is the successor, and there is none after the last `u64`.
pub checked_next_iff :
    (revision next : ℕ)
    → (checked_next revision ≡ some next) ↔ ((next ≡ revision + 1) × (next ≤ u64_max))
unfolding checked_next
checked_next_iff revision next = (λ h. ground arith, λ h. ground arith)
