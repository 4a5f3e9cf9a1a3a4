-- ===== src/Prelude/Keys.antt =====
-- Equality of values as Go's `==` decides it, from a decision procedure.
use mathlib.Core.Path.{◌≡◌, refl, sym, ◌∙◌}
use mathlib.Core.Logic.{◌↔◌}
use mathlib.Core.Bool.{Bool, true, false}
use native.Mathlib.Omega.{arith}
use native.Mathlib.Decide.{ℕ_discrete}
use clair.Prelude.Lists.{Bytes}
use clair.Prelude.Int.{ℤ}

pub record Eq {ℓ} (A : Type ℓ) : Type ℓ where
  pub dec_eq : Discrete A

abbrev pub Both : Bool → Bool → Type 0
Both p q = (p ≡ true) × (q ≡ true)

module _ {ℓ} {A : Type ℓ} ⦃e : Eq A⦄ where
  infix 50 ◌===◌
  abbrev pub ◌===◌ : A → A → Bool
  a === b = elim (e.dec_eq a b) [ yes _ ↦ true | no _ ↦ false ]

  pub ===_iff : (a b : A) → ((a === b) ≡ true) ↔ (a ≡ b)
  ===_iff a b = grind arith

  pub ===-refl : (a : A) → (a === a) ≡ true
  ===-refl a = (===_iff a a).1 refl

  pub ===-eq-false : (a b : A) → ¬ (a ≡ b) → (a === b) ≡ false
  ===-eq-false a b h =
      elim (e.dec_eq a b) as (λ d. elim d [ yes _ ↦ true | no _ ↦ false ] ≡ false) [
        | yes p ↦ absurd (h p)
        | no _ ↦ refl
      ]

  -- Values that differ are not both the same third one.
  pub ===_not-Both : (a b k : A) → ¬ (a ≡ b) → Both (a === k) (b === k) → ⊥
  ===_not-Both a b k h (p, q) = h ((===_iff a k).0 p ∙ sym ((===_iff b k).0 q))

  pub ===_not_either : (a k l : A) → ¬ (k ≡ l) → Both (a === k) (a === l) → ⊥
  ===_not_either a k l h (p, q) = h (sym ((===_iff a k).0 p) ∙ (===_iff a l).0 q)

unfoldable pub Bytes-discrete : Discrete Bytes
Bytes-discrete = hlevel ℕ_discrete

unfoldable pub ℤ-discrete : Discrete ℤ
ℤ-discrete = hlevel ℕ_discrete

instance abbrev pub bytes_eq : Eq Bytes
unfolding Bytes-discrete
bytes_eq = record { dec_eq = Bytes-discrete }
