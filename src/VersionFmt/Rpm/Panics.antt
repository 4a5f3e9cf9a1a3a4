-- ===== src/VersionFmt/Rpm/Panics.antt =====
-- newVersion of ext/versionfmt/rpm/parser.go: the epochs on which it panics.
use clair.GoLib.{is_digit, trim_space, index, slice, atoi, read_number, read_digits}
use native.Mathlib.Nat.{sub-zero}
use clair.VersionFmt.Rpm.Parse.{slice_lem, starts_minus}
use clair.VersionFmt.Errors.{VersionError}
use clair.VersionFmt.Rpm.{
  Version, new_version, parse_trimmed, find_epoch, find_release, to_string, min_version,
  max_version,
}
use clair.Prelude.{
  ℕ, zero, suc, ◌^◌, ◌≤◌, false, some, ◌∷◌, ◌++◌, Bytes, bytes_eq, ===-eq-false, length, take,
  replicate, pos, ◌≡◌, ◌≢◌, refl, arith, ◌∙◌, ap, ok, panic,
}

-- The epoch -0 in front of a version: minus, k + 1 zeros and a colon.
abbrev pub minus_zero : ℕ → Bytes → Bytes
minus_zero k rest = b'-' ∷ b'0' ∷ replicate k b'0' ++ b':' ∷ rest

index-zeros : (k : ℕ) (rest : Bytes) → index (replicate k b'0' ++ b':' ∷ rest) b':' ≡ some k
unfolding index
index-zeros zero rest = refl
index-zeros (suc k) rest = rw (index-zeros k rest)

take-zeros : (k : ℕ) (rest : Bytes) → take k (replicate k b'0' ++ rest) ≡ replicate k b'0'
take-zeros zero rest = refl
take-zeros (suc k) rest = ap (λ (t : Bytes). b'0' ∷ t) (take-zeros k rest)

read_digits-zeros : (k : ℕ) → read_digits 0 (replicate k b'0') ≡ some 0
unfolding read_digits is_digit
read_digits-zeros zero = refl
read_digits-zeros (suc k) = read_digits-zeros k

read_number-zeros : (limit k : ℕ) → read_number limit (replicate (suc k) b'0') ≡ some 0
unfolding read_number
read_number-zeros limit k = rw (read_digits-zeros (suc k)) (ground arith)

atoi_minus_zero : (k : ℕ) → atoi (b'-' ∷ replicate (suc k) b'0') ≡ some (pos 0)
unfolding atoi
atoi_minus_zero k = rw (read_number-zeros (2 ^ 63) k)

length-zeros : (k : ℕ) (rest : Bytes) → k ≤ length (replicate k b'0' ++ rest)
length-zeros zero rest = omega arith
length-zeros (suc k) rest = omega (arith, length-zeros k rest)

module _ (k : ℕ) (rest : Bytes) where
  slice-minus_zero :
      slice {E = VersionError} (minus_zero k rest) 0 (suc (suc k))
      ≡ ok (b'-' ∷ replicate (suc k) b'0')
  slice-minus_zero =
      slice_lem (minus_zero k rest) 0 (suc (suc k)) (omega arith)
        (omega (arith, length-zeros k (b':' ∷ rest)))
      ∙ rw (sub-zero (suc (suc k)), take-zeros k (b':' ∷ rest))

  find_epoch-minus_zero : find_epoch (minus_zero k rest) (some (suc (suc k))) ≡ ok (pos 0)
  unfolding find_epoch atoi
  find_epoch-minus_zero = rw (slice-minus_zero, atoi_minus_zero k)

  index-minus_zero : index (minus_zero k rest) b':' ≡ some (suc (suc k))
  unfolding index
  index-minus_zero = rw (index-zeros k rest)

  find_release-minus_zero : find_release (minus_zero k rest) (suc (suc (suc k))) (some 0) ≡ panic
  unfolding find_release slice
  find_release-minus_zero = ground arith

  index_dash : index (minus_zero k rest) b'-' ≡ some 0
  unfolding index
  index_dash = ground arith

  parse_minus_zero : parse_trimmed (minus_zero k rest) ≡ panic
  unfolding parse_trimmed
  parse_minus_zero =
      rw (index-minus_zero, find_epoch-minus_zero, index_dash, find_release-minus_zero)

  minus_zero-ne :
      (v : Version) → starts_minus (to_string v) ≡ false → minus_zero k rest ≢ to_string v
  minus_zero-ne v h e = cc (rw (← e) at h)

  -- newVersion panics on the epoch -0 in front of any version: the first dash is the sign,
  -- in front of the colon, and the slice between them is out of range.
  pub rpm_new_version_panics :
      (text : Bytes) → trim_space text ≡ minus_zero k rest → new_version text ≡ panic
  unfolding new_version
  rpm_new_version_panics text e =
      rw
        (
          e,
          ===-eq-false (minus_zero k rest) (to_string max_version)
              (minus_zero-ne max_version (unfold to_string in refl)),
          ===-eq-false (minus_zero k rest) (to_string min_version)
              (minus_zero-ne min_version (unfold to_string in refl)),
        )
        parse_minus_zero
