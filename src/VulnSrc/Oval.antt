-- ===== src/VulnSrc/Oval.antt =====
-- What ext/vulnsrc/rhel/rhel.go and ext/vulnsrc/oracle/oracle.go have in common: the criteria of an
-- OVAL definition, and the alternatives that they allow.
pub mod Normal
pub mod Features
pub mod Listing
pub mod Sound
pub mod Accepted
use clair.GoLib.{contains}
use clair.Prelude.{
  Bytes, Bool, true, false, not, List, [], ◌∷◌, ◌++◌, map, codes, any, is_empty, bytes_eq, ◌===◌,
  if◌then◌else◌,
}

pub record Criterion : Type 0 where
  pub comment : Bytes

-- `criterias` are pointers to the children.
mutual
  pub data Criteria : Type 0 where
    criteria : Bytes → Criterias → List Criterion → Criteria

  pub data Criterias : Type 0 where
    nil : Criterias
    cons : Criteria → Criterias → Criterias

abbrev pub Possibilities : Type 0
Possibilities = List (List Criterion)

abbrev pub and_operator : Bytes
and_operator = codes "AND"

abbrev pub or_operator : Bytes
or_operator = codes "OR"

-- What the loops keep of a node's criterions: those that no ignored text is part of.
unfoldable pub kept : List Bytes → List Criterion → List Criterion
kept ignored [] = []
kept ignored (c ∷ cs) =
    let rest = kept ignored cs in
    if any (λ item. contains c.comment item) ignored then rest else c ∷ rest

-- getCriterions, past its filter.
unfoldable pub group : Bytes → List Criterion → Possibilities
group operator criterions =
    if operator === and_operator
    then criterions ∷ []
    else if operator === or_operator
    then map (λ c. c ∷ []) criterions
    else []

unfoldable pub get_criterions : List Bytes → Bytes → List Criterion → Possibilities
unfolding kept group
get_criterions ignored operator criterions = group operator (kept ignored criterions)

-- The inner loop: one possibility, with each of a group behind it.
unfoldable pub extend : List Criterion → Possibilities → Possibilities
extend possibility [] = []
extend possibility (p ∷ ps) = (possibility ++ p) ∷ extend possibility ps

unfoldable pub product : Possibilities → Possibilities → Possibilities
unfolding extend
product [] ps = []
product (possibility ∷ rest) ps = extend possibility ps ++ product rest ps

-- The loop over the groups behind the first.
unfoldable pub product_all : Possibilities → List Possibilities → Possibilities
unfolding product
product_all possibilities [] = possibilities
product_all possibilities (ps ∷ groups) = product_all (product possibilities ps) groups

unfoldable pub union : List Possibilities → Possibilities
union [] = []
union (ps ∷ groups) = ps ++ union groups

-- The loops of getPossibilities over the groups; there is a first one whenever it is called.
unfoldable pub compose : Bytes → List Possibilities → Possibilities
unfolding product_all union
compose operator [] = []
compose operator (first ∷ groups) =
    if operator === and_operator
    then product_all first groups
    else if operator === or_operator
    then union (first ∷ groups)
    else []

unfoldable mutual
  unfolding get_criterions compose

  pub get_possibilities : List Bytes → Criteria → Possibilities
  get_possibilities ignored (criteria operator nil criterions) =
      get_criterions ignored operator criterions
  get_possibilities ignored (criteria operator (cons node nodes) criterions) = compose operator (
      (get_possibilities ignored node ∷ children_possibilities ignored nodes)
      ++ (if is_empty criterions then [] else get_criterions ignored operator criterions ∷ []))

  pub children_possibilities : List Bytes → Criterias → List Possibilities
  children_possibilities ignored nil = []
  children_possibilities ignored (cons node nodes) =
      get_possibilities ignored node ∷ children_possibilities ignored nodes
