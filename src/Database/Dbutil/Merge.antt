-- ===== src/Database/Dbutil/Merge.antt =====
-- What the set computations of database/dbutil.go hold, whatever the order of the sets.
use clair.Database.{
  Detector, Layer, LayerFeature, LayerNamespace, layer_namespace_eq, detector_eq, layer_feature_eq,
}
use clair.Database.Sets.{MapSet}
use clair.Database.Dbutil.{
  add_all, set_of, deduplicate, intersect_lists, diff_lists, merge_loop, merge_lists,
  diff_detectors, intersect_detectors, LayerSets, merge_layers,
}
use clair.Prelude.{
  true, not, ◌&&◌, ◌||◌, List, [], ◌∷◌, ◌++◌, Eq, ===-refl, elem, Unique, elem-append,
  Unique-append_one, ◌≡◌, refl, sym, ◌∙◌, arith, append-nil, append_assoc, Bool-cases, inl, inr,
}

module _ {A : Type 0} ⦃e : Eq A⦄ (s : MapSet A) where
  contains-add_all :
      (set : s.Set) (xs : List A) (a : A)
      → s.contains (add_all s set xs) a ≡ (s.contains set a || elem a xs)
  unfolding add_all
  contains-add_all set [] a = ground arith
  contains-add_all set (x ∷ xs) a =
      ground (arith, contains-add_all (s.add x set) xs a, s.contains-add x a set)

  pub contains-set_of : (xs : List A) (a : A) → s.contains (set_of s xs) a ≡ elem a xs
  unfolding set_of
  contains-set_of xs a = contains-add_all s.new_set xs a ∙ rw (s.contains-new_set a)

  pub elem-diff_lists :
      (xs ys : List A) (a : A) → elem a (diff_lists s xs ys) ≡ (elem a xs && not (elem a ys))
  unfolding diff_lists
  elem-diff_lists xs ys a =
      rw (s.elem-iter, s.contains-difference, contains-set_of xs a, contains-set_of ys a)

  pub elem-intersect_lists :
      (xs ys : List A) (a : A) → elem a (intersect_lists s xs ys) ≡ (elem a xs && elem a ys)
  unfolding intersect_lists
  elem-intersect_lists xs ys a =
      rw (s.elem-iter, s.contains-intersect, contains-set_of xs a, contains-set_of ys a)

  -- Each element of the list stands once in the deduplicated list, and nothing else does.
  pub deduplicate_lem :
      (xs : List A) (a : A) → Unique (deduplicate s xs) × (elem a (deduplicate s xs) ≡ elem a xs)
  unfolding deduplicate
  deduplicate_lem xs a = (s.iter-Unique _, rw (s.elem-iter, contains-set_of xs a))

  -- The set of the loop holds what the list holds.
  abbrev Same : s.Set → List A → Type 0
  Same set l = (a : A) → s.contains set a ≡ elem a l

  Same-next : (set : s.Set) (l : List A) (x : A) → Same set l → Same (s.add x set) (l ++ x ∷ [])
  Same-next set l x h a = ground (arith, h a, s.contains-add x a set, elem-append a l (x ∷ []))

  elem-merge_loop :
      (set : s.Set) (l new : List A) (a : A)
      → Same set l
      → elem a (merge_loop s set l new) ≡ (elem a l || elem a new)
  unfolding merge_loop
  elem-merge_loop set l [] a h = ground arith
  elem-merge_loop set l (x ∷ xs) a h = ground (
    arith,
    h x,
    h a,
    elem-merge_loop set l xs a h,
    elem-merge_loop (s.add x set) (l ++ x ∷ []) xs a (Same-next set l x h),
    elem-append a l (x ∷ []),
  )

  merge_loop-Unique :
      (set : s.Set) (l new : List A) → Same set l → Unique l → Unique (merge_loop s set l new)
  unfolding merge_loop
  merge_loop-Unique set l [] h u = u
  merge_loop-Unique set l (x ∷ xs) h u = elim (Bool-cases (s.contains set x)) [
    | inl c ↦ rw c (merge_loop-Unique set l xs h u)
    | inr c ↦ rw c (
        merge_loop-Unique (s.add x set) (l ++ x ∷ []) xs (Same-next set l x h)
          (Unique-append_one l x u (sym (h x) ∙ c)))
  ]

  merge_loop-prefix :
      (set : s.Set) (l new : List A) → (more : List A) × (merge_loop s set l new ≡ l ++ more)
  unfolding merge_loop
  merge_loop-prefix set l [] = ([], sym (append-nil l))
  merge_loop-prefix set l (x ∷ xs) = elim (Bool-cases (s.contains set x)) [
    | inl c ↦ rw c (merge_loop-prefix set l xs)
    | inr c ↦
        let (more, eq) = merge_loop-prefix (s.add x set) (l ++ x ∷ []) xs in
        rw c (x ∷ more, eq ∙ append_assoc l (x ∷ []) more)
  ]

  -- What is merged already changes nothing.
  merge_loop_seen :
      (set : s.Set) (l new : List A)
      → Same set l
      → ((a : A) → elem a new ≡ true → elem a l ≡ true)
      → merge_loop s set l new ≡ l
  unfolding merge_loop
  merge_loop_seen set l [] h k = refl
  merge_loop_seen set l (x ∷ xs) h k =
      let found : s.contains set x ≡ true = h x ∙ k x (ground (arith, ===-refl x)) in
      rw found (merge_loop_seen set l xs h (λ a m. k a (ground arith)))

  pub elem-merge_lists :
      (l new : List A) (a : A) → elem a (merge_lists s l new) ≡ (elem a l || elem a new)
  unfolding merge_lists
  elem-merge_lists l new a = elem-merge_loop (set_of s l) l new a (contains-set_of l)

  -- A list is merged behind what it is merged into, each new element once.
  pub merge_lists_lem :
      (l new : List A)
      → Unique l
      → Unique (merge_lists s l new) × ((more : List A) × (merge_lists s l new ≡ l ++ more))
  unfolding merge_lists
  merge_lists_lem l new u = (
    merge_loop-Unique (set_of s l) l new (contains-set_of l) u,
    merge_loop-prefix (set_of s l) l new,
  )

  pub merge_lists_twice :
      (l new : List A) → merge_lists s (merge_lists s l new) new ≡ merge_lists s l new
  merge_lists_twice l new =
      unfold merge_lists in
      merge_loop_seen (set_of s (merge_lists s l new)) (merge_lists s l new) new
        (contains-set_of (merge_lists s l new))
        (λ a h. elem-merge_lists l new a ∙ rw h (ground arith))

-- The merged layer keeps the hash, and holds exactly the features, namespaces and detectors that one
-- of the two layers holds.
pub elem-merge_layers :
    (s : LayerSets) (l new : Layer) (f : LayerFeature) (n : LayerNamespace) (d : Detector)
    → ((merge_layers s l new).hash ≡ l.hash)
      × (elem f (merge_layers s l new).features ≡ (elem f l.features || elem f new.features))
      × (elem n (merge_layers s l new).namespaces ≡ (elem n l.namespaces || elem n new.namespaces))
      × (elem d (merge_layers s l new).by ≡ (elem d l.by || elem d new.by))
unfolding merge_layers
elem-merge_layers s l new f n d = (
  refl,
  elem-merge_lists s.features l.features new.features f,
  elem-merge_lists s.namespaces l.namespaces new.namespaces n,
  elem-merge_lists s.detectors l.by new.by d,
)

-- Merging the same layer again changes nothing.
pub merge_layers_twice :
    (s : LayerSets) (l new : Layer)
    → merge_layers s (merge_layers s l new) new ≡ merge_layers s l new
unfolding merge_layers
merge_layers_twice s l new = λ i. record {
  hash = l.hash;
  features = merge_lists_twice s.features l.features new.features i;
  namespaces = merge_lists_twice s.namespaces l.namespaces new.namespaces i;
  by = merge_lists_twice s.detectors l.by new.by i;
}

-- The detectors that are left to run are those that are enabled and have not run.
pub elem-diff_detectors :
    (s : MapSet Detector) (d1 d2 : List Detector) (d : Detector)
    → (elem d (diff_detectors s d1 d2) ≡ (elem d d1 && not (elem d d2)))
      × (elem d (intersect_detectors s d1 d2) ≡ (elem d d1 && elem d d2))
unfolding diff_detectors intersect_detectors
elem-diff_detectors s d1 d2 d = (elem-diff_lists s d1 d2 d, elem-intersect_lists s d1 d2 d)
