-- ===== src/Prelude/Outcome.antt =====
-- `Result`: fallible code, with the error type of the component.
use mathlib.Core.Path.{◌≡◌, refl}
use mathlib.Core.Bool.{Bool, true, false}
use mathlib.Core.Option.{Option, none, some}
use agent_p1p.Prelude.Tests.{if◌then◌else◌}

pub data Result {ℓ κ} (A : Type ℓ) (E : Type κ) : Type (ℓ ⊔ κ) where
  ok : A → Result A E
  err : E → Result A E

-- The `?` operator.
infixl 5 ◌>>=◌ ◌>>◌
abbrev pub ◌>>=◌ {ℓ κ μ} :
    {A : Type ℓ} {B : Type κ} {E : Type μ} → Result A E → (A → Result B E) → Result B E
err failure >>= _ = err failure
ok value >>= next = next value

abbrev pub ◌>>◌ {ℓ μ} : {B : Type ℓ} {E : Type μ} → Result (Unit {0}) E → Result B E → Result B E
err failure >> _ = err failure
ok _ >> next = next

-- `if test { return Err(e) }`
abbrev pub fail_if {κ} : {E : Type κ} → Bool → E → Result (Unit {0}) E
fail_if true e = err e
fail_if false e = ok tt

-- `Option::ok_or`
abbrev pub ok_or {ℓ κ} : {A : Type ℓ} {E : Type κ} → Option A → E → Result A E
ok_or none e = err e
ok_or (some a) e = ok a

pub ok_or-eq-ok {ℓ κ} :
    {A : Type ℓ} {E : Type κ} (o : Option A) (e : E) {a : A} → ok_or o e ≡ ok a → o ≡ some a
ok_or-eq-ok none e h = cc
ok_or-eq-ok (some a) e h = cc

-- `Result::map_err`
abbrev pub map_err {ℓ κ μ} :
    {A : Type ℓ} {E : Type κ} {F : Type μ} → (E → F) → Result A E → Result A F
map_err f (ok a) = ok a
map_err f (err e) = err (f e)

-- `Result::is_ok`
abbrev pub is_ok {ℓ κ} : {A : Type ℓ} {E : Type κ} → Result A E → Bool
is_ok (ok _) = true
is_ok (err _) = false

-- A chain succeeds only through a success of its first step.
pub >>=-eq-ok {ℓ κ μ} :
    {A : Type ℓ} {B : Type κ} {E : Type μ} (first : Result A E) (next : A → Result B E) {r : B}
    → (first >>= next) ≡ ok r
    → (value : A) × (first ≡ ok value) × (next value ≡ ok r)
>>=-eq-ok (err _) _ h = cc
>>=-eq-ok (ok value) _ h = (value, refl, h)

-- A value that is returned behind one test.
pub if-err-eq-ok {ℓ κ} :
    {A : Type ℓ} {E : Type κ} (b : Bool) (e : E) {a r : A}
    → (if b then err e else ok a) ≡ ok r
    → (b ≡ false) × (r ≡ a)
if-err-eq-ok true e h = cc
if-err-eq-ok false e h = (refl, cc)

pub >>-eq-ok {ℓ κ} :
    {B : Type ℓ} {E : Type κ} (first : Result (Unit {0}) E) (next : Result B E) {r : B}
    → (first >> next) ≡ ok r
    → (first ≡ ok tt) × (next ≡ ok r)
>>-eq-ok (err _) _ h = cc
>>-eq-ok (ok tt) _ h = (refl, h)

pub ok_injective {ℓ κ} :
    {A : Type ℓ} {E : Type κ} {a b : A} → ◌≡◌ {A = Result A E} (ok a) (ok b) → a ≡ b
ok_injective h = cc
