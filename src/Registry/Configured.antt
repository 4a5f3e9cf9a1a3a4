-- ===== src/Registry/Configured.antt =====
-- What stands in a registry of drivers after its operations.
use clair.Registry.{Registry, add_new, register, configure, unregister}
use clair.Prelude.{
  Bytes, bytes_eq, Bool, Option, none, some, List, [], ◌∷◌, get, put, get-put, get-delete, is_empty,
  ◌===◌, if◌then◌else◌, ok, ◌≡◌, refl, subst, arith, Bool-cases, inl, inr, any, not, ◌&&◌,
}

module _ {A : Type 0} where
  -- A registration that returns adds its entry under a name that was free, and changes no other.
  pub get-register :
      {E : Type 0} (name : Bytes) (a : A) (before after : Registry A) (k : Bytes)
      → register {E = E} name (some a) before ≡ ok after
      → (get name before ≡ none) × (get k after ≡ (if name === k then some a else get k before))
  unfolding register
  get-register {E} name a before after k e = elim (Bool-cases (is_empty name)) [
    | inl x ↦ absurd (cc (rw x at e))
    | inr x ↦ go (get name before) refl (rw x at e)
  ]
    where
      go :
          (o : Option A)
          → get name before ≡ o
          → add_new {E = E} o name a before ≡ ok after
          → (get name before ≡ none) × (get k after ≡ (if name === k then some a else get k before))
      go (some _) g e2 = absurd (cc)
      go none g e2 =
          let same : put name a before ≡ after = cc in
          (
            g,
            subst (λ m. get k m ≡ (if name === k then some a else get k before)) same
                (get-put name k a before),
          )

  -- A sender that is not configured is gone after the loop.
  abbrev pub is_dropped : (A → Bool) → Bytes → List (Bytes × A) → Bool
  is_dropped is_configured k entries =
      any (λ (x : Bytes × A). not (is_configured x.1) && (x.0 === k)) entries

  -- After the loop, a name is registered as before unless a sender of this name was not configured.
  pub get-configure :
      (is_configured : A → Bool) (entries : List (Bytes × A)) (registry : Registry A) (k : Bytes)
      → get k (configure is_configured entries registry)
        ≡ (if is_dropped is_configured k entries then none else get k registry)
  unfolding configure unregister
  get-configure is_configured [] registry k = refl
  get-configure is_configured ((name, a) ∷ entries) registry k =
      let rest = get-configure is_configured entries in
      elim (Bool-cases (is_configured a)) [
        | inl x ↦ rw x (rest registry k)
        | inr x ↦ ground (arith, rest (unregister name registry) k, get-delete name k registry)
      ]
