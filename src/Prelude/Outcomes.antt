-- ===== src/Prelude/Outcomes.antt =====
-- What a call that may fail comes back with: a value, an error of type `E`, or a Go panic. `hang` is
-- the result of a loop whose fuel ran out.
use mathlib.Core.Path.{◌≡◌, refl}
use mathlib.Core.Option.{Option, none, some}

pub data Outcome {ℓ κ} (E : Type ℓ) (A : Type κ) : Type (ℓ ⊔ κ) where
  ok : A → Outcome E A
  err : E → Outcome E A
  panic : Outcome E A
  hang : Outcome E A

infixl 5 ◌>>=◌ ◌>>◌
abbrev pub ◌>>=◌ {ℓ κ μ} :
    {E : Type ℓ} {A : Type κ} {B : Type μ} → Outcome E A → (A → Outcome E B) → Outcome E B
ok a >>= f = f a
err e >>= f = err e
panic >>= f = panic
hang >>= f = hang

abbrev pub ◌>>◌ {ℓ κ μ} :
    {E : Type ℓ} {A : Type κ} {B : Type μ} → Outcome E A → Outcome E B → Outcome E B
m >> k = m >>= λ _. k

abbrev pub of_fuel {ℓ κ} : {E : Type ℓ} {A : Type κ} → Option A → Outcome E A
of_fuel none = hang
of_fuel (some a) = ok a

-- A chain that returns a value has returned one at its first step.
pub >>=-ok {ℓ κ μ} :
    {E : Type ℓ} {A : Type κ} {B : Type μ} (m : Outcome E A) (f : A → Outcome E B) (b : B)
    → (m >>= f) ≡ ok b
    → (a : A) × (m ≡ ok a) × (f a ≡ ok b)
>>=-ok (ok a) f b e = (a, refl, e)
>>=-ok (err x) f b e = absurd (cc)
>>=-ok panic f b e = absurd (cc)
>>=-ok hang f b e = absurd (cc)
