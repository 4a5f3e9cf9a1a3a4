-- ===== src/Prelude/Ranges.antt =====
-- Go ranges over a map in an order that the language leaves open: an argument of every function that
-- does so.
use mathlib.Core.Path.{subst, sym, ◌∙◌}
use mathlib.Core.List.{List, Permᴰ}
use mathlib.Core.List.Permᴰ
use mathlib.Core.Logic.{inl, inr}
use clair.Prelude.Lists.{All, In}

pub record MapOrder : Type 1 where
  pub visit : (A : Type 0) → List A → List A
  pub visit-Perm : (A : Type 0) (l : List A) → Permᴰ l (visit A l)

abbrev pub in_order : MapOrder
in_order = record { visit = λ A l. l; visit-Perm = λ A l. Permᴰ.refl l }

module _ {A : Type 0} (P : A → Type 0) where
  All-Perm : {l m : List A} → Permᴰ l m → All P l → All P m
  All-Perm Permᴰ.nil h = h
  All-Perm (Permᴰ.cons e p) h = (subst P e h.0, All-Perm p h.1)
  All-Perm (Permᴰ.swap e f) h = (subst P f h.1.0, (subst P e h.0, h.1.1))
  All-Perm (Permᴰ.trans p q) h = All-Perm q (All-Perm p h)

  -- What holds of all entries holds of them in the order in which they are visited.
  pub visit-All : (o : MapOrder) (l : List A) → All P l → All P (o.visit A l)
  visit-All o l h = All-Perm (o.visit-Perm A l) h

-- Every entry is visited.
module _ {A : Type 0} (a : A) where
  In-Perm : {l m : List A} → Permᴰ l m → In a l → In a m
  In-Perm Permᴰ.nil h = h
  In-Perm (Permᴰ.cons e p) (inl x) = inl (sym e ∙ x)
  In-Perm (Permᴰ.cons e p) (inr h) = inr (In-Perm p h)
  In-Perm (Permᴰ.swap e f) (inl x) = inr (inl (sym e ∙ x))
  In-Perm (Permᴰ.swap e f) (inr (inl x)) = inl (sym f ∙ x)
  In-Perm (Permᴰ.swap e f) (inr (inr h)) = inr (inr h)
  In-Perm (Permᴰ.trans p q) h = In-Perm q (In-Perm p h)

  pub visit-In : (o : MapOrder) (l : List A) → In a l → In a (o.visit A l)
  visit-In o l h = In-Perm (o.visit-Perm A l) h
