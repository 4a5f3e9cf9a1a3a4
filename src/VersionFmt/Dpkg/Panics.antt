-- ===== src/VersionFmt/Dpkg/Panics.antt =====
-- newVersion of ext/versionfmt/dpkg/parser.go: the epochs on which it panics.
use clair.GoLib.{is_digit, trim_space, index, last_index, slice, atoi, read_number, read_digits}
use native.Mathlib.Nat.{sub-zero}
use clair.VersionFmt.Dpkg.Parse.{slice_lem, starts_minus}
use clair.VersionFmt.Errors.{VersionError}
use clair.VersionFmt.Dpkg.{
  Version, new_version, parse_trimmed, find_epoch, find_revision, to_string, min_version,
  max_version,
}
use clair.Prelude.{
  ℕ, zero, suc, ◌^◌, ◌≤◌, false, none, some, ◌∷◌, ◌++◌, Bytes, bytes_eq, ===-eq-false, length, take,
  replicate, pos, ◌≡◌, ◌≢◌, refl, arith, ◌∙◌, ap, ok, panic,
}

-- The epoch -0 in front of a version: minus, k + 1 zeros and a colon.
abbrev pub minus_zero : ℕ → Bytes → Bytes
minus_zero k rest = b'-' ∷ b'0' ∷ replicate k b'0' ++ b':' ∷ rest

index-zeros : (k : ℕ) (rest : Bytes) → index (replicate k b'0' ++ b':' ∷ rest) b':' ≡ some k
unfolding index
index-zeros zero rest = refl
index-zeros (suc k) rest = rw (index-zeros k rest)

last_index-zeros :
    (k : ℕ) (rest : Bytes)
    → last_index rest b'-' ≡ none
    → last_index (replicate k b'0' ++ b':' ∷ rest) b'-' ≡ none
unfolding last_index
last_index-zeros zero rest h = rw h
last_index-zeros (suc k) rest h = rw (last_index-zeros k rest h)

last_index_front : (s : Bytes) → last_index s b'-' ≡ none → last_index (b'-' ∷ s) b'-' ≡ some 0
unfolding last_index
last_index_front s h = ground arith

take-zeros : (k : ℕ) (rest : Bytes) → take k (replicate k b'0' ++ rest) ≡ replicate k b'0'
take-zeros zero rest = refl
take-zeros (suc k) rest = ap (λ (t : Bytes). b'0' ∷ t) (take-zeros k rest)

read_digits-zeros : (k : ℕ) → read_digits 0 (replicate k b'0') ≡ some 0
unfolding read_digits is_digit
read_digits-zeros zero = refl
read_digits-zeros (suc k) = read_digits-zeros k

read_number-zeros : (limit k : ℕ) → read_number limit (replicate (suc k) b'0') ≡ some 0
unfolding read_number
read_number-zeros limit k = rw (read_digits-zeros (suc k)) (ground arith)

atoi_minus_zero : (k : ℕ) → atoi (b'-' ∷ replicate (suc k) b'0') ≡ some (pos 0)
unfolding atoi
atoi_minus_zero k = rw (read_number-zeros (2 ^ 63) k)

length-zeros : (k : ℕ) (rest : Bytes) → k ≤ length (replicate k b'0' ++ rest)
length-zeros zero rest = omega arith
length-zeros (suc k) rest = omega (arith, length-zeros k rest)

module _ (k : ℕ) (rest : Bytes) where
  slice-minus_zero :
      slice {E = VersionError} (minus_zero k rest) 0 (suc (suc k))
      ≡ ok (b'-' ∷ replicate (suc k) b'0')
  slice-minus_zero =
      slice_lem (minus_zero k rest) 0 (suc (suc k)) (omega arith)
        (omega (arith, length-zeros k (b':' ∷ rest)))
      ∙ rw (sub-zero (suc (suc k)), take-zeros k (b':' ∷ rest))

  find_epoch-minus_zero : find_epoch (minus_zero k rest) (some (suc (suc k))) ≡ ok (pos 0)
  unfolding find_epoch atoi
  find_epoch-minus_zero = rw (slice-minus_zero, atoi_minus_zero k)

  index-minus_zero : index (minus_zero k rest) b':' ≡ some (suc (suc k))
  unfolding index
  index-minus_zero = rw (index-zeros k rest)

  find_revision-minus_zero : find_revision (minus_zero k rest) (suc (suc (suc k))) (some 0) ≡ panic
  unfolding find_revision slice
  find_revision-minus_zero = ground arith

  last_index-minus_zero : last_index rest b'-' ≡ none → last_index (minus_zero k rest) b'-' ≡ some 0
  last_index-minus_zero h = last_index_front _ (last_index-zeros (suc k) rest h)

  parse_minus_zero : last_index rest b'-' ≡ none → parse_trimmed (minus_zero k rest) ≡ panic
  unfolding parse_trimmed
  parse_minus_zero h =
      rw
        (index-minus_zero, find_epoch-minus_zero, last_index-minus_zero h, find_revision-minus_zero)

  minus_zero-ne :
      (v : Version) → starts_minus (to_string v) ≡ false → minus_zero k rest ≢ to_string v
  minus_zero-ne v h e = cc (rw (← e) at h)

  -- newVersion panics on the epoch -0 in front of a version without a revision: the last dash is
  -- the sign, in front of the colon, and the slice between them is out of range.
  pub dpkg_new_version_panics :
      (text : Bytes)
      → trim_space text ≡ minus_zero k rest
      → last_index rest b'-' ≡ none
      → new_version text ≡ panic
  unfolding new_version
  dpkg_new_version_panics text e h =
      rw
        (
          e,
          ===-eq-false (minus_zero k rest) (to_string max_version)
              (minus_zero-ne max_version (unfold to_string in refl)),
          ===-eq-false (minus_zero k rest) (to_string min_version)
              (minus_zero-ne min_version (unfold to_string in refl)),
        )
        (parse_minus_zero h)
