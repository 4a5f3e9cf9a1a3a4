-- ===== src/Database/Sets.antt =====
-- github.com/deckarep/golang-set, which the sources call and do not hold: a set with an order in which
-- Iter delivers its elements, and what its documentation says of the operations.
use clair.Prelude.{
  Bool, false, not, ◌&&◌, ◌||◌, List, [], ◌∷◌, Eq, ◌===◌, elem, Unique, ◌≡◌, if◌then◌else◌, refl,
  arith,
}

pub record MapSet (A : Type 0) ⦃e : Eq A⦄ : Type 1 where
  pub Set : Type 0
  pub new_set : Set
  pub add : A → Set → Set
  pub contains : Set → A → Bool
  pub intersect : Set → Set → Set
  pub difference : Set → Set → Set
  pub iter : Set → List A
  pub contains-new_set : (a : A) → contains new_set a ≡ false
  pub contains-add : (a b : A) (s : Set) → contains (add a s) b ≡ (a === b || contains s b)
  pub contains-intersect :
      (s t : Set) (a : A) → contains (intersect s t) a ≡ (contains s a && contains t a)
  pub contains-difference :
      (s t : Set) (a : A) → contains (difference s t) a ≡ (contains s a && not (contains t a))
  pub elem-iter : (s : Set) (a : A) → elem a (iter s) ≡ contains s a
  pub iter-Unique : (s : Set) → Unique (iter s)

module _ {A : Type 0} ⦃e : Eq A⦄ where
  abbrev pub insert_once : A → List A → List A
  insert_once a s = if elem a s then s else a ∷ s

  unfoldable pub keep : (A → Bool) → List A → List A
  keep p [] = []
  keep p (x ∷ xs) = if p x then x ∷ keep p xs else keep p xs

  pub elem-keep : (p : A → Bool) (xs : List A) (a : A) → elem a (keep p xs) ≡ (elem a xs && p a)
  unfolding keep
  elem-keep p [] a = refl
  elem-keep p (x ∷ xs) a = ground (arith, elem-keep p xs a)

  pub elem-insert_once : (a b : A) (s : List A) → elem b (insert_once a s) ≡ (a === b || elem b s)
  elem-insert_once a b s = ground arith

  pub keep-Unique : (p : A → Bool) (xs : List A) → Unique xs → Unique (keep p xs)
  unfolding keep
  keep-Unique p [] h = tt
  keep-Unique p (x ∷ xs) h = ground (arith, keep-Unique p xs, elem-keep p xs x)

  pub insert_once-Unique : (a : A) (s : List A) → Unique s → Unique (insert_once a s)
  insert_once-Unique a s h = ground arith

-- A set as a list shows that the interface can be met.
module _ {A : Type 0} ⦃e : Eq A⦄ where
  abbrev pub list_set : MapSet A
  list_set = record {
    Set = (l : List A) × Unique l;
    new_set = ([], tt);
    add = λ a s. (insert_once a s.0, insert_once-Unique a s.0 s.1);
    contains = λ s a. elem a s.0;
    intersect = λ s t. (keep (λ a. elem a t.0) s.0, keep-Unique _ s.0 s.1);
    difference = λ s t. (keep (λ a. not (elem a t.0)) s.0, keep-Unique _ s.0 s.1);
    iter = λ s. s.0;
    contains-new_set = λ a. refl;
    contains-add = λ a b s. elem-insert_once a b s.0;
    contains-intersect = λ s t a. elem-keep _ s.0 a;
    contains-difference = λ s t a. elem-keep _ s.0 a;
    elem-iter = λ s a. refl;
    iter-Unique = λ s. s.1;
  }
