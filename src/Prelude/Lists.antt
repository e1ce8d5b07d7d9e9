-- ===== src/Prelude/Lists.antt =====
-- Lists measured by native numbers, and the quantifiers over lists.
use Prim.Native.Nat.{ℕ, suc, ◌+◌}
use mathlib.Core.Path.{◌≡◌, refl, sym}
use mathlib.Core.Logic.{◌↔◌, inl, inr}
use mathlib.Core.Bool.{Bool, true, false, ◌&&◌, ◌||◌, and-eq-true_iff, false≢true}
use mathlib.Core.List.{List, [], ◌∷◌, ◌++◌, cons-eq-cons, append-nil, Memᴰ}
use native.Mathlib.Omega.{arith}
use agent_p1p.Prelude.Tests.{if◌then◌else◌, Bool-cases, or_right}

module _ {ℓ} {A : Type ℓ} where
  abbrev pub length : List A → ℕ
  length [] = 0
  length (x ∷ xs) = suc (length xs)

  abbrev pub is_empty : List A → Bool
  is_empty [] = true
  is_empty (_ ∷ _) = false

  pub length-append : (xs ys : List A) → length (xs ++ ys) ≡ length xs + length ys
  length-append [] ys = omega arith
  length-append (x ∷ xs) ys = omega (arith, length-append xs ys)

  -- `iter().all`, `iter().any`
  abbrev pub all : (A → Bool) → List A → Bool
  all p [] = true
  all p (x ∷ xs) = p x && all p xs

  abbrev pub any : (A → Bool) → List A → Bool
  any p [] = false
  any p (x ∷ xs) = p x || any p xs

  -- `blockers.push(b)` under a test
  abbrev pub push_if : Bool → A → List A → List A
  push_if true a xs = xs ++ a ∷ []
  push_if false a xs = xs

  pub any-append : (p : A → Bool) (xs ys : List A) → any p (xs ++ ys) ≡ (any p xs || any p ys)
  any-append p [] ys = refl
  any-append p (x ∷ xs) ys = ground (arith, any-append p xs ys)

  pub any-false : (xs : List A) → any (λ _. false) xs ≡ false
  any-false [] = refl
  any-false (x ∷ xs) = any-false xs

  pub any-push_if :
      (p : A → Bool) (t : Bool) (a : A) (xs : List A)
      → any p (push_if t a xs) ≡ (any p xs || (t && p a))
  any-push_if p true a xs = ground (arith, any-append p xs (a ∷ []))
  any-push_if p false a xs = ground arith

  -- `iter().filter`
  abbrev pub filter : (A → Bool) → List A → List A
  filter p [] = []
  filter p (x ∷ xs) = if p x then x ∷ filter p xs else filter p xs

  abbrev pub only : Bool → A → List A
  only true a = a ∷ []
  only false a = []

  pub push_if-append : (t : Bool) (a : A) (xs : List A) → push_if t a xs ≡ xs ++ only t a
  push_if-append true a xs = refl
  push_if-append false a xs = sym (append-nil xs)

  pub filter-cons :
      (p : A → Bool) (x : A) (xs : List A) → filter p (x ∷ xs) ≡ only (p x) x ++ filter p xs
  filter-cons p x xs = ground arith

  pub push_if-eq-nil_iff :
      (t : Bool) (a : A) (xs : List A) → (push_if t a xs ≡ []) ↔ ((t ≡ false) × (xs ≡ []))
  push_if-eq-nil_iff true a [] = (λ h. cc, λ h. cc)
  push_if-eq-nil_iff true a (x ∷ xs) = (λ h. cc, λ h. cc)
  push_if-eq-nil_iff false a xs = (λ h. (refl, h), λ h. h.1)

  -- `derive(PartialEq)` of sequences
  abbrev pub list_eq : (A → A → Bool) → List A → List A → Bool
  list_eq same [] [] = true
  list_eq same (x ∷ xs) (y ∷ ys) = same x y && list_eq same xs ys
  list_eq same _ _ = false

  pub list_eq_iff :
      (same : A → A → Bool)
      → ((x y : A) → (same x y ≡ true) ↔ (x ≡ y))
      → (xs ys : List A) → (list_eq same xs ys ≡ true) ↔ (xs ≡ ys)
  list_eq_iff same law [] [] = (λ h. refl, λ h. refl)
  list_eq_iff same law [] (y ∷ ys) = (λ h. cc, λ h. cc)
  list_eq_iff same law (x ∷ xs) [] = (λ h. cc, λ h. cc)
  list_eq_iff same law (x ∷ xs) (y ∷ ys) = (
    λ h.
        let (head, tail) = (and-eq-true_iff _ _).0 h in
        λ i. (law x y).0 head i ∷ (list_eq_iff same law xs ys).0 tail i,
    λ h.
        let (head, tail) = cons-eq-cons.0 h in
        (and-eq-true_iff _ _).1 ((law x y).1 head, (list_eq_iff same law xs ys).1 tail),
  )

-- A test for an equal element finds the members.
module _ {ℓ} {A : Type ℓ} (same : A → A → Bool)
    (law : (a b : A) → (same a b ≡ true) ↔ (a ≡ b)) where
  pub any_mem : (a : A) (xs : List A) → any (λ x. same x a) xs ≡ true → Memᴰ a xs
  any_mem a [] h = absurd (false≢true h)
  any_mem a (x ∷ xs) h = elim (Bool-cases (same x a)) [
    | inl found ↦ Memᴰ.head (sym ((law x a).0 found))
    | inr other ↦ Memᴰ.tail (any_mem a xs (rw other at h))
  ]

  pub mem_any : {a : A} {xs : List A} → Memᴰ a xs → any (λ x. same x a) xs ≡ true
  mem_any {a} (Memᴰ.head {x} e) = rw ((law x a).1 (sym e)) refl
  mem_any {a} (Memᴰ.tail {x} m) = or_right (same x a) _ (mem_any m)

module _ {ℓ κ} {A : Type ℓ} (P : A → Type κ) where
  abbrev pub All : List A → Type κ
  All [] = Unit
  All (x ∷ xs) = P x × All xs
