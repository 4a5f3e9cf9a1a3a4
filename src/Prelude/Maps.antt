-- ===== src/Prelude/Maps.antt =====
-- Go's maps as association lists, and membership in lists by a decided equality.
use mathlib.Core.Path.{◌≡◌, refl, subst₂}
use mathlib.Core.Bool.{Bool, false, ◌||◌}
use mathlib.Core.List.{List, [], ◌∷◌, ◌++◌}
use mathlib.Core.Logic.{inl, inr}
use mathlib.Core.Option.{Option, none, some}
use native.Mathlib.Omega.{arith}
use clair.Prelude.Lists.{All, In}
use clair.Prelude.Tests.{Bool-cases, if◌then◌else◌}
use clair.Prelude.Keys.{Eq, ◌===◌, ===_iff}

module _ {ℓ} {A : Type ℓ} ⦃e : Eq A⦄ where
  abbrev pub elem : A → List A → Bool
  elem a [] = false
  elem a (x ∷ xs) = x === a || elem a xs

  -- No value stands twice.
  abbrev pub Unique : List A → Type 0
  Unique [] = Unit
  Unique (x ∷ xs) = (elem x xs ≡ false) × Unique xs

  pub elem-append : (a : A) (xs ys : List A) → elem a (xs ++ ys) ≡ (elem a xs || elem a ys)
  elem-append a [] ys = refl
  elem-append a (x ∷ xs) ys = ground (arith, elem-append a xs ys)

  pub Unique-append_one :
      (xs : List A) (a : A) → Unique xs → elem a xs ≡ false → Unique (xs ++ a ∷ [])
  Unique-append_one [] a h k = (refl, tt)
  Unique-append_one (x ∷ xs) a h k =
      ground (arith, elem-append x xs (a ∷ []), Unique-append_one xs a)

module _ {K V : Type 0} ⦃e : Eq K⦄ where
  -- m[k], with the second result of the Go expression.
  unfoldable pub get : K → List (K × V) → Option V
  get k [] = none
  get k ((j, v) ∷ m) = if j === k then some v else get k m

  -- m[k] = v
  unfoldable pub put : K → V → List (K × V) → List (K × V)
  put k v [] = (k, v) ∷ []
  put k v ((j, w) ∷ m) = if j === k then (k, v) ∷ m else (j, w) ∷ put k v m

  -- delete(m, k)
  unfoldable pub delete : K → List (K × V) → List (K × V)
  delete k [] = []
  delete k ((j, w) ∷ m) = if j === k then delete k m else (j, w) ∷ delete k m

  pub get-put :
      (k j : K) (v : V) (m : List (K × V))
      → get j (put k v m) ≡ (if k === j then some v else get j m)
  unfolding get put
  get-put k j v [] = refl
  get-put k j v ((i, w) ∷ m) = ground (arith, get-put k j v m)

  pub get-delete :
      (k j : K) (m : List (K × V)) → get j (delete k m) ≡ (if k === j then none else get j m)
  unfolding get delete
  get-delete k j [] = ground arith
  get-delete k j ((i, w) ∷ m) = ground (arith, get-delete k j m)

  -- What holds of all entries stays so, if it holds of the one that is put.
  pub All-put :
      (P : K → V → Type 0) (k : K) (v : V) (m : List (K × V))
      → All (λ (x : K × V). P x.0 x.1) m
      → P k v
      → All (λ (x : K × V). P x.0 x.1) (put k v m)
  unfolding put
  All-put P k v [] h p = (p, tt)
  All-put P k v ((j, w) ∷ m) h p = elim (Bool-cases (j === k)) [
    | inl e ↦ rw e (p, h.1)
    | inr e ↦ rw e (h.0, All-put P k v m h.1 p)
  ]

  pub All-get :
      (P : K → V → Type 0) (k : K) (v : V) (m : List (K × V))
      → All (λ (x : K × V). P x.0 x.1) m
      → get k m ≡ some v
      → P k v
  unfolding get
  All-get P k v [] h e = absurd (cc)
  All-get P k v ((j, w) ∷ m) h e = elim (Bool-cases (j === k)) [
    | inl x ↦ let q : w ≡ v = cc (rw x at e) in subst₂ P ((===_iff j k).0 x) q h.0
    | inr x ↦ All-get P k v m h.1 (rw x at e)
  ]

  pub get-In : (k : K) (v : V) (m : List (K × V)) → get k m ≡ some v → In (k, v) m
  unfolding get
  get-In k v [] e = absurd (cc)
  get-In k v ((j, w) ∷ m) e = elim (Bool-cases (j === k)) [
    | inl x ↦ let q : w ≡ v = cc (rw x at e) in inl (λ i. ((===_iff j k).0 x i, q i))
    | inr x ↦ inr (get-In k v m (rw x at e))
  ]
