-- ===== src/Base/Errors.antt =====
-- A value or an error, for Go's `(value, error)`.
use mathlib.Core.Path.{◌≡◌, refl}
use mathlib.Core.Bool.{Bool, true, false}

pub data Result {ℓ} (E : Type 0) (A : Type ℓ) : Type ℓ where
  ok : A → Result E A
  err : E → Result E A

infixl 5 ◌>>=◌ ◌>>◌
abbrev pub ◌>>=◌ {ℓ κ} :
    {E : Type 0} {A : Type ℓ} {B : Type κ} → Result E A → (A → Result E B) → Result E B
ok a >>= f = f a
err e >>= f = err e

abbrev pub ◌>>◌ {ℓ} : {E : Type 0} {B : Type ℓ} → Result E (Unit {0}) → Result E B → Result E B
m >> k = m >>= λ _. k

-- `if !test { return err }`
abbrev pub require : {E : Type 0} → Bool → E → Result E (Unit {0})
require true e = ok tt
require false e = err e

pub >>=-eq-ok {ℓ κ} :
    {E : Type 0} {A : Type ℓ} {B : Type κ} (r : Result E A) (next : A → Result E B) {y : B}
    → (r >>= next) ≡ ok y
    → (x : A) × (r ≡ ok x) × (next x ≡ ok y)
>>=-eq-ok (err e) next h = cc
>>=-eq-ok (ok x) next h = (x, refl, h)

pub ok_inj {ℓ} : {E : Type 0} {A : Type ℓ} {a b : A} → ◌≡◌ {A = Result E A} (ok a) (ok b) → a ≡ b
ok_inj h = cc

pub require-ok : {E : Type 0} (b : Bool) (e : E) {u : Unit {0}} → require b e ≡ ok u → b ≡ true
require-ok true e h = refl
require-ok false e h = cc

-- Inversion of a guarded continuation.
pub require-bind {ℓ} :
    {E : Type 0} {B : Type ℓ} (b : Bool) (e : E) (k : Result E B) {x : B}
    → (require b e >> k) ≡ ok x
    → (b ≡ true) × (k ≡ ok x)
require-bind true e k h = (refl, h)
require-bind false e k h = cc
