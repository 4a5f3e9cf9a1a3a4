-- ===== src/VulnSrc/Oval/Normal.antt =====
-- The alternatives of getPossibilities, and the criteria as a formula.
use clair.VulnSrc.Oval.{
  Criterion, Criteria, criteria, Criterias, nil, cons, Possibilities, and_operator, or_operator,
  kept, group, get_criterions, extend, product, product_all, union, compose, get_possibilities,
  children_possibilities,
}
use clair.Prelude.{
  Bytes, bytes_eq, Bool, true, false, ◌&&◌, ◌||◌, List, [], ◌∷◌, ◌++◌, map, any, all, is_empty,
  ◌===◌, if◌then◌else◌, ◌≡◌, refl, ◌∙◌, ap₂, arith,
}

-- The truth of criteria as a formula, from the truth of each criterion. A node of another operator
-- holds nowhere.
unfoldable mutual
  pub holds : List Bytes → (Criterion → Bool) → Criteria → Bool
  holds ignored v (criteria operator nodes criterions) =
      if operator === and_operator
      then all_hold ignored v nodes && all v (kept ignored criterions)
      else if operator === or_operator
      then any_holds ignored v nodes || any v (kept ignored criterions)
      else false

  pub all_hold : List Bytes → (Criterion → Bool) → Criterias → Bool
  all_hold ignored v nil = true
  all_hold ignored v (cons node nodes) = holds ignored v node && all_hold ignored v nodes

  pub any_holds : List Bytes → (Criterion → Bool) → Criterias → Bool
  any_holds ignored v nil = false
  any_holds ignored v (cons node nodes) = holds ignored v node || any_holds ignored v nodes

abbrev pub some_possibility : (Criterion → Bool) → Possibilities → Bool
some_possibility v ps = any (λ p. all v p) ps

module _ {A : Type 0} (v : A → Bool) where
  all-append : (xs ys : List A) → all v (xs ++ ys) ≡ (all v xs && all v ys)
  all-append [] ys = refl
  all-append (x ∷ xs) ys = ground (arith, all-append xs ys)

  any-append : (xs ys : List A) → any v (xs ++ ys) ≡ (any v xs || any v ys)
  any-append [] ys = refl
  any-append (x ∷ xs) ys = ground (arith, any-append xs ys)

module _ (v : Criterion → Bool) where
  extend_lem :
      (p : List Criterion) (ps : Possibilities)
      → some_possibility v (extend p ps) ≡ (all v p && some_possibility v ps)
  unfolding extend
  extend_lem p [] = ground arith
  extend_lem p (q ∷ ps) = ground (arith, extend_lem p ps, all-append v p q)

  product_lem :
      (ps qs : Possibilities)
      → some_possibility v (product ps qs) ≡ (some_possibility v ps && some_possibility v qs)
  unfolding product
  product_lem [] qs = refl
  product_lem (p ∷ ps) qs = ground (
    arith,
    product_lem ps qs,
    extend_lem p qs,
    any-append (λ q. all v q) (extend p qs) (product ps qs),
  )

  product_all_lem :
      (ps : Possibilities) (groups : List Possibilities)
      → some_possibility v (product_all ps groups)
        ≡ (some_possibility v ps && all (some_possibility v) groups)
  unfolding product_all
  product_all_lem ps [] = ground arith
  product_all_lem ps (qs ∷ groups) =
      ground (arith, product_all_lem (product ps qs) groups, product_lem ps qs)

  union_lem :
      (groups : List Possibilities)
      → some_possibility v (union groups) ≡ any (some_possibility v) groups
  unfolding union
  union_lem [] = refl
  union_lem (ps ∷ groups) =
      ground (arith, union_lem groups, any-append (λ q. all v q) ps (union groups))

  singles_lem : (cs : List Criterion) → some_possibility v (map (λ c. c ∷ []) cs) ≡ any v cs
  singles_lem [] = refl
  singles_lem (c ∷ cs) = ground (arith, singles_lem cs)

  group_lem :
      (operator : Bytes) (cs : List Criterion)
      → some_possibility v (group operator cs) ≡ (
          if operator === and_operator
          then all v cs
          else if operator === or_operator
          then any v cs
          else false)
  unfolding group
  group_lem operator cs = ground (arith, singles_lem cs)

  compose_lem :
      (operator : Bytes) (first : Possibilities) (groups : List Possibilities)
      → some_possibility v (compose operator (first ∷ groups)) ≡ (
          if operator === and_operator
          then some_possibility v first && all (some_possibility v) groups
          else if operator === or_operator
          then some_possibility v first || any (some_possibility v) groups
          else false)
  unfolding compose
  compose_lem operator first groups =
      ground (arith, product_all_lem first groups, union_lem (first ∷ groups))

  own_lem :
      (ignored : List Bytes) (operator : Bytes) (cs : List Criterion)
      → some_possibility v (get_criterions ignored operator cs) ≡ (
          if operator === and_operator
          then all v (kept ignored cs)
          else if operator === or_operator
          then any v (kept ignored cs)
          else false)
  unfolding get_criterions
  own_lem ignored operator cs = group_lem operator (kept ignored cs)

  all_own :
      (ignored : List Bytes) (operator : Bytes) (cs : List Criterion)
      → (operator === and_operator) ≡ true
      → all
          (some_possibility v)
          (if is_empty cs then [] else get_criterions ignored operator cs ∷ [])
        ≡ all v (kept ignored cs)
  unfolding kept
  all_own ignored operator [] e = refl
  all_own ignored operator (c ∷ cs) e = ground (arith, own_lem ignored operator (c ∷ cs))

  any_own :
      (ignored : List Bytes) (operator : Bytes) (cs : List Criterion)
      → (operator === and_operator) ≡ false
      → (operator === or_operator) ≡ true
      → any
          (some_possibility v)
          (if is_empty cs then [] else get_criterions ignored operator cs ∷ [])
        ≡ any v (kept ignored cs)
  unfolding kept
  any_own ignored operator [] e f = refl
  any_own ignored operator (c ∷ cs) e f = ground (arith, own_lem ignored operator (c ∷ cs))

  -- A node with children, from what is known of the children.
  node_lem :
      (ignored : List Bytes) (operator : Bytes) (node : Criteria) (nodes : Criterias)
      (cs : List Criterion)
      → some_possibility v (get_possibilities ignored node) ≡ holds ignored v node
      → all (some_possibility v) (children_possibilities ignored nodes) ≡ all_hold ignored v nodes
      → any (some_possibility v) (children_possibilities ignored nodes) ≡ any_holds ignored v nodes
      → some_possibility v (get_possibilities ignored (criteria operator (cons node nodes) cs))
        ≡ holds ignored v (criteria operator (cons node nodes) cs)
  unfolding get_possibilities holds
  node_lem ignored operator node nodes cs e all_e any_e =
      let own = if is_empty cs then [] else get_criterions ignored operator cs ∷ [] in
      let rest = children_possibilities ignored nodes in
      compose_lem operator (get_possibilities ignored node) (rest ++ own)
      ∙ ground (
        arith,
        e,
        all_e,
        any_e,
        all-append (some_possibility v) rest own,
        any-append (some_possibility v) rest own,
        all_own ignored operator cs,
        any_own ignored operator cs,
      )

  mutual
    unfolding get_possibilities holds

    normal_form :
        (ignored : List Bytes) (node : Criteria)
        → some_possibility v (get_possibilities ignored node) ≡ holds ignored v node
    normal_form ignored (criteria operator nil cs) = ground (arith, own_lem ignored operator cs)
    normal_form ignored (criteria operator (cons node nodes) cs) =
        node_lem ignored operator node nodes cs (normal_form ignored node) (all_lem ignored nodes)
          (any_lem ignored nodes)

    all_lem :
        (ignored : List Bytes) (nodes : Criterias)
        → all (some_possibility v) (children_possibilities ignored nodes) ≡ all_hold ignored v nodes
    all_lem ignored nil = refl
    all_lem ignored (cons node nodes) =
        ap₂ (◌&&◌) (normal_form ignored node) (all_lem ignored nodes)

    any_lem :
        (ignored : List Bytes) (nodes : Criterias)
        → any (some_possibility v) (children_possibilities ignored nodes)
          ≡ any_holds ignored v nodes
    any_lem ignored nil = refl
    any_lem ignored (cons node nodes) =
        ap₂ (◌||◌) (normal_form ignored node) (any_lem ignored nodes)

-- The alternatives that getPossibilities finds are the criteria's disjunctive normal form: whichever
-- criterions are taken to be true, some alternative has only true criterions exactly when the
-- criteria hold as a formula of ANDs and ORs over the criterions that no ignored text is part of.
pub get_possibilities_lem :
    (ignored : List Bytes) (v : Criterion → Bool) (node : Criteria)
    → any (λ p. all v p) (get_possibilities ignored node) ≡ holds ignored v node
get_possibilities_lem ignored v node = normal_form v ignored node
