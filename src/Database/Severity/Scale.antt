-- ===== src/Database/Severity/Scale.antt =====
-- NewSeverity and Compare of database/severity.go, against the list of severities.
use clair.GoLib.{equal_fold, to_lower}
use clair.Database.Severity.{
  Severity, severities, find_severity, new_severity, position, compare, valid,
}
use clair.Prelude.{
  ◌<◌, Bytes, Bytes-discrete, ℕ_discrete, true, false, none, some, List, [], ◌∷◌, any, All, subst,
  length, bytes_eq, ◌===◌, ===_iff, pos, ◌≡◌, ◌↔◌, refl, arith, inl, inr, Option-cases, Bool-cases,
  sym,
}

-- A valid severity stands in the list.
position-valid :
    (s : Severity) (l : List Severity) → any (λ v. s === v) l ≡ true → position s l < length l
unfolding position
position-valid s [] h = cc
position-valid s (v ∷ l) h = ground (arith, position-valid s l)

position-injective :
    (s t : Severity) (l : List Severity)
    → position s l < length l
    → position s l ≡ position t l
    → s ≡ t
unfolding position
position-injective s t [] h e = absurd (omega arith)
position-injective s t (v ∷ l) h e = ground (arith, position-injective s t l)

-- Compare tells any two valid severities apart, and no other result is 0.
pub compare-zero : (s t : Severity) → valid s ≡ true → (compare s t ≡ pos 0) ↔ (s ≡ t)
unfolding compare valid
compare-zero s t h = (
  λ e. position-injective s t severities (position-valid s severities h) (ground (arith, e)),
  λ e. rw e (ground arith),
)

find_severity-some :
    (s v : Bytes) (l : List Severity)
    → find_severity s l ≡ some v
    → (any (λ u. v === u) l ≡ true) × (equal_fold s v ≡ true)
unfolding find_severity
find_severity-some s v [] h = cc
find_severity-some s v (u ∷ l) h = ground (arith, find_severity-some s v l)

find_severity-none :
    (s v : Bytes) (l : List Severity)
    → find_severity s l ≡ none
    → any (λ u. v === u) l ≡ true
    → equal_fold s v ≡ false
unfolding find_severity
find_severity-none s v [] h k = cc
find_severity-none s v (u ∷ l) h k = ground (arith, find_severity-none s v l)

-- What NewSeverity returns without an error is a valid severity, and the input up to letter case.
pub new_severity_sound :
    (s : Bytes)
    → (new_severity s).1 ≡ none
    → (valid (new_severity s).0 ≡ true) × (equal_fold s (new_severity s).0 ≡ true)
unfolding new_severity valid
new_severity_sound s h = elim (Option-cases (find_severity s severities)) [
  | inl e ↦ absurd (ground (arith, e))
  | inr (v, e) ↦ rw (e, new_severity) (find_severity-some s v severities e)
]

-- NewSeverity has no error on an input that is a valid severity up to letter case.
pub new_severity_complete :
    (s v : Bytes) → valid v ≡ true → equal_fold s v ≡ true → (new_severity s).1 ≡ none
unfolding new_severity valid
new_severity_complete s v h k = elim (Option-cases (find_severity s severities)) [
  | inl e ↦ absurd (ground (arith, find_severity-none s v severities e h))
  | inr (u, e) ↦ rw (e, new_severity)
]

-- What holds of every severity of a list holds of a value that is found in it.
any-elim :
    (P : Severity → Type 0) (s : Severity) (l : List Severity)
    → any (λ v. s === v) l ≡ true
    → All P l
    → P s
any-elim P s [] h k = absurd (cc)
any-elim P s (v ∷ l) h k = elim (Bool-cases (s === v)) [
  | inl e ↦ subst P (sym ((===_iff s v).0 e)) k.0
  | inr e ↦ any-elim P s l (rw e at h) k.1
]

IsParsed : Severity → Type 0
IsParsed s = new_severity s ≡ (s, none)

All-IsParsed : All IsParsed severities
unfolding IsParsed new_severity find_severity equal_fold to_lower Bytes-discrete ℕ_discrete
All-IsParsed = (refl, (refl, (refl, (refl, (refl, (refl, (refl, tt)))))))

-- Parsing a valid severity gives it back.
pub new_severity-valid : (s : Severity) → valid s ≡ true → new_severity s ≡ (s, none)
unfolding valid
new_severity-valid s h = unfold IsParsed in any-elim IsParsed s severities h All-IsParsed
