-- ===== src/Base/Errors.antt =====
-- Exceptions as values. The error type is each component's own.
use mathlib.Core.Bool.{Bool, true, false}
use mathlib.Core.Path.{◌≡◌, refl}

pub data Result {ℓ κ} (E : Type κ) (A : Type ℓ) : Type (ℓ ⊔ κ) where
  ok : A → Result E A
  err : E → Result E A

infixl 5 ◌>>=◌ ◌>>◌
abbrev pub ◌>>=◌ {ℓ κ μ} :
    {E : Type κ} {A : Type ℓ} {B : Type μ} → Result E A → (A → Result E B) → Result E B
ok a >>= f = f a
err e >>= f = err e

abbrev pub ◌>>◌ {ℓ κ} : {E : Type κ} {B : Type ℓ} → Result E (Unit {0}) → Result E B → Result E B
m >> k = m >>= λ _. k

-- `if not b: raise e`
abbrev pub guard {κ} : {E : Type κ} → Bool → E → Result E (Unit {0})
guard true e = ok tt
guard false e = err e

abbrev pub IsOk {ℓ κ} : {E : Type κ} {A : Type ℓ} → Result E A → Type 0
IsOk (ok a) = Unit
IsOk (err e) = ⊥

-- What a successful chain went through.
pub >>=-eq-ok {ℓ κ μ} :
    {E : Type κ} {A : Type ℓ} {B : Type μ} (first : Result E A) (next : A → Result E B) {v : B}
    → (first >>= next) ≡ ok v
    → (x : A) × (first ≡ ok x) × (next x ≡ ok v)
>>=-eq-ok (ok x) next went = (x, refl, went)
>>=-eq-ok (err e) next went = cc

pub guard-eq-ok {ℓ κ} :
    {E : Type κ} {B : Type ℓ} (b : Bool) (e : E) (k : Result E B) {v : B}
    → (guard b e >> k) ≡ ok v
    → (b ≡ true) × (k ≡ ok v)
guard-eq-ok true e k h = (refl, h)
guard-eq-ok false e k h = cc

pub ok-injective {ℓ κ} :
    {E : Type κ} {A : Type ℓ} {a b : A} → ◌≡◌ {A = Result E A} (ok a) (ok b) → a ≡ b
ok-injective h = cc
