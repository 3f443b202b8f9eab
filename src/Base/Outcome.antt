-- ===== src/Base/Outcome.antt =====
-- What a Go function that can fail comes back with: a value, an error, or a run-time panic.

use native.Mathlib.Omega.{arith}
use mathlib.Core.Path.{◌≡◌, refl, ap}
use mathlib.Core.Bool.{Bool, true, false}
use mathlib.Core.Logic.{◌⊎◌, inl, inr}
use mathlib.Core.Option
use mathlib.Core.Option.{Option, none, some}

pub data Result {ℓ} (E : Type 0) (A : Type ℓ) : Type ℓ where
  ok : A → Result E A
  err : E → Result E A
  panic : Result E A

infixl 5 ◌>>=◌ ◌>>◌
abbrev pub ◌>>=◌ {ℓ κ} :
    {E : Type 0} {A : Type ℓ} {B : Type κ} → Result E A → (A → Result E B) → Result E B
ok a >>= f = f a
err e >>= f = err e
panic >>= f = panic

abbrev pub ◌>>◌ {ℓ} : {E : Type 0} {B : Type ℓ} → Result E (Unit {0}) → Result E B → Result E B
m >> k = m >>= λ _. k

-- `if bad { return err }`.
abbrev pub refuse_if : {E : Type 0} → Bool → E → Result E (Unit {0})
refuse_if true e = err e
refuse_if false e = ok tt

-- An index or a slice expression, which panics out of range.
abbrev pub or_panic {ℓ} : {E : Type 0} {A : Type ℓ} → Option A → Result E A
or_panic none = panic
or_panic (some a) = ok a

-- What a run that succeeds went through.
pub >>=-ok {ℓ κ} :
    {E : Type 0} {A : Type ℓ} {B : Type κ} (m : Result E A) (f : A → Result E B) {b : B}
    → (m >>= f) ≡ ok b
    → (a : A) × (m ≡ ok a) × (f a ≡ ok b)
>>=-ok (ok a) f e = (a, refl, e)
>>=-ok (err x) f e = absurd (ground arith)
>>=-ok panic f e = absurd (ground arith)

pub >>-ok {ℓ} :
    {E : Type 0} {B : Type ℓ} (m : Result E (Unit {0})) (k : Result E B) {b : B}
    → (m >> k) ≡ ok b
    → (m ≡ ok tt) × (k ≡ ok b)
>>-ok (ok tt) k e = (refl, e)
>>-ok (err x) k e = absurd (ground arith)
>>-ok panic k e = absurd (ground arith)

pub or_panic-ok {ℓ κ} :
    {E : Type 0} {A : Type ℓ} {B : Type κ} (x : Option A) (f : A → Result E B) {b : B}
    → (or_panic x >>= f) ≡ ok b
    → (a : A) × (x ≡ some a) × (f a ≡ ok b)
or_panic-ok none f e = absurd (ground arith)
or_panic-ok (some a) f e = (a, refl, e)

pub refuse_if-ok {ℓ} :
    {E : Type 0} {B : Type ℓ} (bad : Bool) (x : E) (k : Result E B) {b : B}
    → (refuse_if bad x >> k) ≡ ok b
    → (bad ≡ false) × (k ≡ ok b)
refuse_if-ok true x k e = absurd (ground arith)
refuse_if-ok false x k e = (refl, e)

ok_or {ℓ} : {E : Type 0} {A : Type ℓ} → A → Result E A → A
ok_or a (ok b) = b
ok_or a (err e) = a
ok_or a panic = a

pub ok_injective {ℓ} :
    {E : Type 0} {A : Type ℓ} {a b : A} → ◌≡◌ {A = Result E A} (ok a) (ok b) → a ≡ b
unfolding ok_or
ok_injective {a = a} e = ap (ok_or a) e

-- The same for a chain of options.
pub bind-some {ℓ κ} :
    {A : Type ℓ} {B : Type κ} (x : Option A) (f : A → Option B) {b : B}
    → Option.bind x f ≡ some b
    → (a : A) × (x ≡ some a) × (f a ≡ some b)
unfolding Option.bind
bind-some none f e = absurd (ground arith)
bind-some (some a) f e = (a, refl, e)

some_or {ℓ} : {A : Type ℓ} → A → Option A → A
some_or a none = a
some_or a (some b) = b

pub some_injective {ℓ} : {A : Type ℓ} {a b : A} → some a ≡ some b → a ≡ b
unfolding some_or
some_injective {a = a} e = ap (some_or a) e

pub map-some {ℓ κ} :
    {A : Type ℓ} {B : Type κ} (f : A → B) (x : Option A) {b : B}
    → Option.map f x ≡ some b
    → (a : A) × (x ≡ some a) × (f a ≡ b)
map-some f none e = absurd (ground arith)
map-some f (some a) e = (a, refl, some_injective e)

pub Result-cases :
    {E A : Type 0} (x : Result E A)
    → ((a : A) × (x ≡ ok a)) ⊎ (((e : E) × (x ≡ err e)) ⊎ (x ≡ panic))
Result-cases (ok a) = inl (a, refl)
Result-cases (err e) = inr (inl (e, refl))
Result-cases panic = inr (inr refl)
