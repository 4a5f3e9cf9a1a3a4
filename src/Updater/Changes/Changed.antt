-- ===== src/Updater/Changes/Changed.antt =====
-- What isVulnerabilityChanged compares.
use clair.Database.{AffectedFeature, VulnerabilityWithAffected}
use clair.Updater.Changes.{affected_key, mark_all, visit_all, is_vulnerability_changed}
use clair.Prelude.{
  suc, Bool, true, false, not, ◌&&◌, none, some, List, [], ◌∷◌, map, Bytes, bytes_eq, length, elem,
  Unique, get, put, get-put, ◌==◌, ◌===◌, ===-refl, if◌then◌else◌, ◌≡◌, ◌↔◌, refl, arith, ◌∙◌, sym,
  ap, Bool-cases, inl, inr,
}

abbrev pub keys : List AffectedFeature → List Bytes
keys fs = map affected_key fs

-- What `checked` holds: the old keys, each with whether it was seen.
abbrev Marks : List (Bytes × Bool) → List Bytes → List Bytes → Type 0
Marks checked old seen =
    (k : Bytes) → get k checked ≡ (if elem k old then some (elem k seen) else none)

get-mark_all :
    (fs : List AffectedFeature) (checked : List (Bytes × Bool)) (k : Bytes)
    → get k (mark_all checked fs) ≡ (if elem k (keys fs) then some false else get k checked)
unfolding mark_all
get-mark_all [] checked k = refl
get-mark_all (f ∷ fs) checked k = ground (
  arith,
  get-mark_all fs (put (affected_key f) false checked) k,
  get-put (affected_key f) k false checked,
)

-- No key of the list is missing in `old`, in `seen`, or twice in the list.
unfoldable pub all_new : List Bytes → List Bytes → List Bytes → Bool
all_new old seen [] = true
all_new old seen (k ∷ ks) = elem k old && not (elem k seen) && all_new old (k ∷ seen) ks

Marks-next :
    (checked : List (Bytes × Bool)) (old seen : List Bytes) (k : Bytes)
    → Marks checked old seen
    → elem k old ≡ true
    → Marks (put k true checked) old (k ∷ seen)
Marks-next checked old seen k h m j = ground (arith, h j, get-put k j true checked)

visit_all-all_new :
    (fs : List AffectedFeature) (checked : List (Bytes × Bool)) (old seen : List Bytes)
    → Marks checked old seen
    → visit_all checked fs ≡ not (all_new old seen (keys fs))
unfolding visit_all all_new
visit_all-all_new [] checked old seen h = refl
visit_all-all_new (f ∷ fs) checked old seen h = elim (Bool-cases (elem (affected_key f) old)) [
  | inl m ↦ ground (
    arith,
    m,
    h (affected_key f),
    visit_all-all_new fs (put (affected_key f) true checked) old (affected_key f ∷ seen)
        (Marks-next checked old seen (affected_key f) h m),
  )
  | inr m ↦ ground (arith, m, h (affected_key f))
]

-- The list has no key twice, and each of its keys is old and not seen.
abbrev Fresh : List Bytes → List Bytes → List Bytes → Type 0
Fresh old seen ks =
    Unique ks × ((k : Bytes) → elem k ks ≡ true → (elem k old ≡ true) × (elem k seen ≡ false))

all_new-Fresh : (old seen ks : List Bytes) → all_new old seen ks ≡ true → Fresh old seen ks
unfolding all_new
all_new-Fresh old seen [] h = (tt, λ k m. absurd (cc))
all_new-Fresh old seen (x ∷ ks) h =
    let (u, f) = all_new-Fresh old (x ∷ seen) ks (ground arith) in
    ((ground (arith, f x, ===-refl x), u), λ k m. ground (arith, f k, m))

Fresh-all_new : (old seen ks : List Bytes) → Fresh old seen ks → all_new old seen ks ≡ true
unfolding all_new
Fresh-all_new old seen [] h = refl
Fresh-all_new old seen (x ∷ ks) (u, f) =
    let here = f x (ground (arith, ===-refl x)) in
    ground (arith, here, Fresh-all_new old (x ∷ seen) ks (u.1, λ k m. ground (arith, f k, m, u.0)))

get-nil : (k : Bytes) → get {V = Bool} k [] ≡ none
unfolding get
get-nil k = refl

changed-all_new :
    (a b : VulnerabilityWithAffected)
    → is_vulnerability_changed false (some a) (some b)
      ≡ not (
          a.vulnerability.severity === b.vulnerability.severity
          && length a.affected == length b.affected
          && all_new (keys a.affected) [] (keys b.affected))
unfolding is_vulnerability_changed
changed-all_new a b = ground (
  arith,
  visit_all-all_new b.affected (mark_all [] a.affected) (keys a.affected) []
      (λ k. ground (arith, get-mark_all a.affected [] k, get-nil k)),
)

length-keys : (fs : List AffectedFeature) → length (keys fs) ≡ length fs
length-keys [] = refl
length-keys (f ∷ fs) = ap suc (length-keys fs)

length-keys_same :
    (b c : VulnerabilityWithAffected)
    → keys b.affected ≡ keys c.affected
    → length b.affected ≡ length c.affected
length-keys_same b c k = sym (length-keys b.affected) ∙ ap length k ∙ length-keys c.affected

-- Two vulnerabilities count as unchanged exactly if their severities are equal, they have as many
-- affected features, no two features of the second have one key of namespace and name, and each key
-- of the second is a key of the first.
pub is_vulnerability_changed_iff :
    (a b : VulnerabilityWithAffected)
    → (is_vulnerability_changed false (some a) (some b) ≡ false) ↔ (
        (a.vulnerability.severity ≡ b.vulnerability.severity)
        × (length a.affected ≡ length b.affected)
        × Unique (keys b.affected)
        × ((k : Bytes) → elem k (keys b.affected) ≡ true → elem k (keys a.affected) ≡ true))
is_vulnerability_changed_iff a b = (
  (λ h.
      let e =
        all_new-Fresh (keys a.affected) [] (keys b.affected)
          (ground (arith, changed-all_new a b, h)) in
      (
        ground (arith, changed-all_new a b, h),
        ground (arith, changed-all_new a b, h),
        e.0,
        λ k m. (e.1 k m).0,
      )),
  (λ (sev, len, u, f). ground (
    arith,
    changed-all_new a b,
    Fresh-all_new (keys a.affected) [] (keys b.affected) (u, λ k m. (f k m, refl)),
    sev,
    len,
  )),
)

-- The versions in which a feature is affected, and those in which it is fixed, are not compared: what
-- is decided of one vulnerability is decided of every one with the same severity and keys.
pub is_vulnerability_changed-keys :
    (a b c : VulnerabilityWithAffected)
    → b.vulnerability.severity ≡ c.vulnerability.severity
    → keys b.affected ≡ keys c.affected
    → is_vulnerability_changed false (some a) (some b)
      ≡ is_vulnerability_changed false (some a) (some c)
is_vulnerability_changed-keys a b c h k =
    changed-all_new a b ∙ rw (h, k, length-keys_same b c k) (sym (changed-all_new a c))
