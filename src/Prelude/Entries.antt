-- ===== src/Prelude/Entries.antt =====
-- Go maps, which hold each key once, and the order in which they are ranged over.
use mathlib.Core.Path.{◌≡◌, refl, ◌∙◌, sym, ap, ap₂, subst₂}
use mathlib.Core.Bool.{Bool, false, ◌||◌}
use mathlib.Core.List.{List, [], ◌∷◌, Permᴰ}
use mathlib.Core.Logic.{inl, inr}
use mathlib.Core.Option.{none}
use native.Mathlib.Omega.{arith}
use clair.Prelude.Tests.{Bool-cases}
use clair.Prelude.Keys.{Eq, ◌===◌, ===_iff}
use clair.Prelude.Maps.{get, put, delete}
use clair.Prelude.Ranges.{MapOrder}

module _ {K V : Type 0} ⦃e : Eq K⦄ where
  abbrev pub has_key : K → List (K × V) → Bool
  has_key k [] = false
  has_key k ((j, v) ∷ m) = j === k || has_key k m

  -- No key stands twice.
  abbrev pub Distinct : List (K × V) → Type 0
  Distinct [] = Unit
  Distinct ((k, v) ∷ m) = (has_key k m ≡ false) × Distinct m

  has_key-put :
      (k j : K) (v : V) (m : List (K × V)) → has_key j (put k v m) ≡ (k === j || has_key j m)
  unfolding put
  has_key-put k j v [] = refl
  has_key-put k j v ((i, w) ∷ m) = ground (arith, has_key-put k j v m)

  has_key-delete :
      (k j : K) (m : List (K × V)) → has_key j m ≡ false → has_key j (delete k m) ≡ false
  unfolding delete
  has_key-delete k j [] h = refl
  has_key-delete k j ((i, w) ∷ m) h = ground (arith, has_key-delete k j m)

  pub put-Distinct : (k : K) (v : V) (m : List (K × V)) → Distinct m → Distinct (put k v m)
  unfolding put
  put-Distinct k v [] h = (refl, tt)
  put-Distinct k v ((i, w) ∷ m) h = elim (Bool-cases (i === k)) [
    | inl x ↦ rw x (ap (λ j. has_key j m) (sym ((===_iff i k).0 x)) ∙ h.0, h.1)
    | inr x ↦ rw x (ground (arith, has_key-put k i v m, h.0), put-Distinct k v m h.1)
  ]

  pub delete-Distinct : (k : K) (m : List (K × V)) → Distinct m → Distinct (delete k m)
  unfolding delete
  delete-Distinct k [] h = tt
  delete-Distinct k ((i, w) ∷ m) h = elim (Bool-cases (i === k)) [
    | inl x ↦ rw x (delete-Distinct k m h.1)
    | inr x ↦ rw x (has_key-delete k i m h.0, delete-Distinct k m h.1)
  ]

  pub get-none : (k : K) (m : List (K × V)) → has_key k m ≡ false → get k m ≡ none
  unfolding get
  get-none k [] h = refl
  get-none k ((j, v) ∷ m) h = ground (arith, get-none k m)

  has_key-Perm : {l m : List (K × V)} → Permᴰ l m → (k : K) → has_key k l ≡ has_key k m
  has_key-Perm Permᴰ.nil k = refl
  has_key-Perm (Permᴰ.cons e p) k =
      ground (arith, ap (λ (z : K × V). z.0 === k) e, has_key-Perm p k)
  has_key-Perm (Permᴰ.swap e f) k =
      ground (arith, ap (λ (z : K × V). z.0 === k) e, ap (λ (z : K × V). z.0 === k) f)
  has_key-Perm (Permᴰ.trans p q) k = has_key-Perm p k ∙ has_key-Perm q k

  Distinct-Perm : {l m : List (K × V)} → Permᴰ l m → Distinct l → Distinct m
  Distinct-Perm Permᴰ.nil h = tt
  Distinct-Perm (Permᴰ.cons {a} {b} {l₁} {l₂} e p) h = (
    ap (λ (z : K × V). has_key z.0 l₂) (sym e) ∙ sym (has_key-Perm p a.0) ∙ h.0,
    Distinct-Perm p h.1,
  )
  Distinct-Perm (Permᴰ.swap {a} {b} {a'} {b'} {l} e f) h =
      subst₂ (λ (x y : K × V). Distinct (x ∷ y ∷ l)) f e
        (ground (arith, h, ===_iff a.0 b.0, ===_iff b.0 a.0), (ground (arith, h), h.1.1))
  Distinct-Perm (Permᴰ.trans p q) h = Distinct-Perm q (Distinct-Perm p h)

  get-swap :
      (a b : K × V) (l : List (K × V)) (k : K)
      → (b.0 === a.0) ≡ false
      → get k (a ∷ b ∷ l) ≡ get k (b ∷ a ∷ l)
  unfolding get
  get-swap a b l k h = ground (arith, h, ===_iff a.0 k, ===_iff b.0 k, ===_iff b.0 a.0)

  get-Perm : {l m : List (K × V)} → Permᴰ l m → (k : K) → Distinct l → get k l ≡ get k m
  unfolding get
  get-Perm Permᴰ.nil k h = refl
  get-Perm (Permᴰ.cons {a} {b} {l₁} {l₂} e p) k h =
      ap (λ (z : K × V). get k (z ∷ l₁)) e ∙ ground (arith, get-Perm p k h.1)
  get-Perm (Permᴰ.swap {a} {b} {a'} {b'} {l} e f) k h =
      get-swap a b l k (ground (arith, h)) ∙ ap₂ (λ (x y : K × V). get k (x ∷ y ∷ l)) f e
  get-Perm (Permᴰ.trans p q) k h = get-Perm p k h ∙ get-Perm q k (Distinct-Perm p h)

  pub get-visit :
      (o : MapOrder) (m : List (K × V)) (k : K) → Distinct m → get k (o.visit (K × V) m) ≡ get k m
  get-visit o m k h = sym (get-Perm (o.visit-Perm (K × V) m) k h)

  pub visit-Distinct : (o : MapOrder) (m : List (K × V)) → Distinct m → Distinct (o.visit (K × V) m)
  visit-Distinct o m h = Distinct-Perm (o.visit-Perm (K × V) m) h
