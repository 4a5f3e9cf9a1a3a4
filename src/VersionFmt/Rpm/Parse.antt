-- ===== src/VersionFmt/Rpm/Parse.antt =====
-- newVersion of ext/versionfmt/rpm/parser.go, and its slices.
use clair.GoLib.{is_digit, trim_space, index, slice, atoi, read_number, read_digits}
use clair.VersionFmt.Errors.{VersionError}
use clair.VersionFmt.Rpm.{new_version, parse_trimmed, find_epoch, find_release, behind, verify}
use clair.Prelude.{
  ℕ, zero, suc, ◌+◌, ◌-◌, ◌*◌, ◌^◌, ◌≤◌, ◌<◌, Bool, false, none, some, Option-cases, [], ◌∷◌, Bytes,
  bytes_eq, length, take, drop, ◌==◌, ℤ, ◌≡◌, ◌≢◌, refl, arith, inl, inr, Outcome, ok, err, panic,
  hang, ◌>>=◌,
}

-- A text that starts with a minus sign.
abbrev pub starts_minus : Bytes → Bool
starts_minus [] = false
starts_minus (c ∷ s) = c == b'-'

-- A number that Atoi reads holds no dash but the one in front.
read_digits-index : (n : ℕ) (s : Bytes) (m : ℕ) → read_digits n s ≡ some m → index s b'-' ≡ none
unfolding read_digits index is_digit
read_digits-index n [] m h = refl
read_digits-index n (c ∷ s) m h = ground (arith, read_digits-index (n * 10 + (c - 48)) s m)

read_number-index :
    (limit : ℕ) (s : Bytes) (m : ℕ) → read_number limit s ≡ some m → index s b'-' ≡ none
unfolding read_number
read_number-index limit [] m h = cc
read_number-index limit (c ∷ s) m h = elim (Option-cases (read_digits 0 (c ∷ s))) [
  | inl e ↦ absurd (ground (arith, e))
  | inr (n, e) ↦ read_digits-index 0 (c ∷ s) n e
]

atoi-index : (p : Bytes) (e : ℤ) → atoi p ≡ some e → starts_minus p ≡ false → index p b'-' ≡ none
unfolding atoi index
atoi-index [] e h k = refl
atoi-index (c ∷ s) e h k = elim (Option-cases (read_number (2 ^ 63 - 1) s)) [
  | inl x ↦ elim (Option-cases (read_number (2 ^ 63 - 1) (c ∷ s))) [
    | inl y ↦ ground arith
    | inr (n, y) ↦ read_number-index (2 ^ 63 - 1) (c ∷ s) n y
  ]
  | inr (m, x) ↦ ground (arith, read_number-index (2 ^ 63 - 1) s m)
]

-- A dash that is not in front of the first colon stands behind it.
index-lt-index :
    (s : Bytes) (i j : ℕ)
    → index s b':' ≡ some i
    → index s b'-' ≡ some j
    → index (take i s) b'-' ≡ none
    → i < j
unfolding index
index-lt-index [] i j h k e = cc
index-lt-index (c ∷ s) i j h k e = ground (arith, index-lt-index s (i - 1) (j - 1))

index-lt-length : (s : Bytes) (c i : ℕ) → index s c ≡ some i → i < length s
unfolding index
index-lt-length [] c i h = cc
index-lt-length (d ∷ s) c i h = elim (Option-cases (index s c)) [
  | inl e ↦ ground arith
  | inr (k, e) ↦ ground (arith, index-lt-length s c k)
]

starts_minus-take : (i : ℕ) (s : Bytes) → starts_minus s ≡ false → starts_minus (take i s) ≡ false
starts_minus-take zero s h = refl
starts_minus-take (suc i) [] h = refl
starts_minus-take (suc i) (c ∷ s) h = h

pub slice_lem :
    (s : Bytes) (i j : ℕ)
    → i ≤ j
    → j ≤ length s
    → slice {E = VersionError} s i j ≡ ok (take (j - i) (drop i s))
unfolding slice
slice_lem s i j h k = ground arith

>>=-ne-panic {ℓ κ} :
    {A : Type ℓ} {B : Type κ} (m : Outcome VersionError A) (f : A → Outcome VersionError B)
    → m ≢ panic
    → ((a : A) → m ≡ ok a → f a ≢ panic)
    → (m >>= f) ≢ panic
>>=-ne-panic (ok a) f h k = k a refl
>>=-ne-panic (err e) f h k = λ p. cc
>>=-ne-panic panic f h k = λ p. h refl
>>=-ne-panic hang f h k = λ p. cc

verify-ne-panic : (epoch : ℤ) (version release : Bytes) → verify epoch version release ≢ panic
unfolding verify
verify-ne-panic epoch version release h = ground arith

find_epoch-ne-panic : (s : Bytes) → find_epoch s (index s b':') ≢ panic
unfolding find_epoch
find_epoch-ne-panic s = elim (Option-cases (index s b':')) [
  | inl e ↦ rw e (λ p. cc)
  | inr (i, e) ↦
      rw (e, slice_lem s 0 i (omega arith) (omega (arith, index-lt-length s b':' i e)))
        (λ p. ground (arith, p))
]

find_release-ne-panic :
    (s : Bytes) (start : ℕ)
    → start ≤ length s
    → ((j : ℕ) → index s b'-' ≡ some j → start ≤ j)
    → find_release s start (index s b'-') ≢ panic
unfolding find_release
find_release-ne-panic s start h k = elim (Option-cases (index s b'-')) [
  | inl e ↦ rw (e, slice_lem s start (length s) h (omega arith)) (λ p. cc)
  | inr (j, e) ↦
      let below = index-lt-length s b'-' j e in
      rw
        (
          e,
          slice_lem s start j (k j e) (omega arith),
          slice_lem s (suc j) (length s) below (omega arith),
        )
        (λ p. cc)
]

-- An epoch that was read holds no dash, unless it has a sign.
find_epoch-index :
    (s : Bytes) (i : ℕ) (epoch : ℤ)
    → starts_minus s ≡ false
    → i < length s
    → find_epoch s (some i) ≡ ok epoch
    → index (take i s) b'-' ≡ none
find_epoch-index s i epoch m l h = elim (Option-cases (atoi (take i s))) [
  | inl e ↦ absurd (unfold find_epoch in ground (arith, slice_lem s 0 i, e))
  | inr (n, e) ↦ atoi-index (take i s) n e (starts_minus-take i s m)
]

behind-le-length : (s : Bytes) → behind (index s b':') ≤ length s
behind-le-length s = elim (Option-cases (index s b':')) [
  | inl e ↦ rw e (omega arith)
  | inr (i, e) ↦ rw e (index-lt-length s b':' i e)
]

-- Where the epoch was read, no dash stands in front of the version.
behind-le-index :
    (s : Bytes) (epoch : ℤ)
    → starts_minus s ≡ false
    → find_epoch s (index s b':') ≡ ok epoch
    → (j : ℕ) → index s b'-' ≡ some j
    → behind (index s b':') ≤ j
behind-le-index s epoch m read j k = elim (Option-cases (index s b':')) [
  | inl e ↦ rw e (omega arith)
  | inr (i, e) ↦ rw e (
      index-lt-index s i j e k
        (find_epoch-index s i epoch m (index-lt-length s b':' i e) (rw e at read)))
]

parse_trimmed-ne-panic : (s : Bytes) → starts_minus s ≡ false → parse_trimmed s ≢ panic
unfolding parse_trimmed
parse_trimmed-ne-panic s m = >>=-ne-panic _ _ (find_epoch-ne-panic s) λ epoch read.
    >>=-ne-panic _ _
      (find_release-ne-panic s (behind (index s b':')) (behind-le-length s)
        (behind-le-index s epoch m read))
      λ fields cut. verify-ne-panic epoch fields.0 fields.1

-- newVersion panics on no text that does not start, behind its spaces, with a minus sign.
pub rpm_new_version-ne-panic :
    (text : Bytes) → starts_minus (trim_space text) ≡ false → new_version text ≢ panic
unfolding new_version
rpm_new_version-ne-panic text h p = ground (arith, parse_trimmed-ne-panic (trim_space text) h)
