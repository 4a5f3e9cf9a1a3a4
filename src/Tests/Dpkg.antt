-- ===== src/Tests/Dpkg.antt =====
-- The theorems on Debian versions, at some versions.
use mathlib.Core.Option
use clair.GoLib.{
  is_digit, is_letter, trim_space, index, last_index, slice, atoi, read_number, read_digits,
}
use clair.VersionFmt.Dpkg.{
  Version, version_eq, Version-discrete, new_version, parse_trimmed, to_string, find_epoch,
  find_revision, verify, version_char, revision_char, contains_rune, compare,
}
use clair.VersionFmt.Dpkg.Verrevcmp.{verrevcmp, signum}
use clair.VersionFmt.Dpkg.Key.{key, in_text, rank}
use clair.VersionFmt.Dpkg.Refines.{verrevcmp-key}
use clair.VersionFmt.Dpkg.Order.{
  order_versions, dpkg_compare-order, dpkg_compare_swap, dpkg_compare_trans,
}
use clair.VersionFmt.Dpkg.Parse.{dpkg_new_version-ne-panic, starts_minus}
use clair.VersionFmt.Dpkg.Panics.{dpkg_new_version_panics}
use clair.VersionFmt.Ranks.{compare_ranks, NotAfter}
use clair.Prelude.{
  false, none, some, Bytes, bytes_eq, codes, ℤ, pos, negsuc, ok, panic, ◌≡◌, ◌≢◌, refl, ℕ_discrete,
  Bytes-discrete, ℤ-discrete, ◌∙◌, ap,
}

abbrev beta : Bytes
beta = codes "1:2.0~beta-1"

abbrev final : Bytes
final = codes "1:2.0-1"

abbrev later : Bytes
later = codes "1:2.0-2"

abbrev version : Bytes → Bytes → Version
version v r = record { epoch = pos 1; version = v; revision = r }

beta-Parsed : new_version beta ≡ ok (version (codes "2.0~beta") (codes "1"))
unfolding new_version trim_space to_string Bytes-discrete ℕ_discrete parse_trimmed index last_index
    slice atoi read_number read_digits find_epoch find_revision verify version_char revision_char
    contains_rune is_digit is_letter
beta-Parsed = refl

final-Parsed : new_version final ≡ ok (version (codes "2.0") (codes "1"))
unfolding new_version trim_space to_string Bytes-discrete ℕ_discrete parse_trimmed index last_index
    slice atoi read_number read_digits find_epoch find_revision verify version_char revision_char
    contains_rune is_digit is_letter
final-Parsed = refl

later-Parsed : new_version later ≡ ok (version (codes "2.0") (codes "2"))
unfolding new_version trim_space to_string Bytes-discrete ℕ_discrete parse_trimmed index last_index
    slice atoi read_number read_digits find_epoch find_revision verify version_char revision_char
    contains_rune is_digit is_letter
later-Parsed = refl

beta_final-Ordered :
    order_versions (version (codes "2.0~beta") (codes "1")) (version (codes "2.0") (codes "1"))
    ≡ negsuc 0
unfolding order_versions Version-discrete ℤ-discrete Bytes-discrete ℕ_discrete compare_ranks key
    rank is_digit is_letter
beta_final-Ordered = refl

final_later-Ordered :
    order_versions (version (codes "2.0") (codes "1")) (version (codes "2.0") (codes "2"))
    ≡ negsuc 0
unfolding order_versions Version-discrete ℤ-discrete Bytes-discrete ℕ_discrete compare_ranks key
    rank is_digit is_letter
final_later-Ordered = refl

beta-final-Compared : compare beta final ≡ ok (negsuc 0)
beta-final-Compared =
    dpkg_compare-order beta final beta-Parsed final-Parsed ∙ ap ok beta_final-Ordered

final-later-Compared : compare final later ≡ ok (negsuc 0)
final-later-Compared =
    dpkg_compare-order final later final-Parsed later-Parsed ∙ ap ok final_later-Ordered

verrevcmp-key_example :
    Option.map signum (verrevcmp (codes "2.0~beta") (codes "2.0"))
    ≡ some (compare_ranks (key in_text (codes "2.0~beta")) (key in_text (codes "2.0")))
verrevcmp-key_example = verrevcmp-key (codes "2.0~beta") (codes "2.0")

dpkg_compare-order_example :
    compare beta final
    ≡ ok (
        order_versions (version (codes "2.0~beta") (codes "1")) (version (codes "2.0") (codes "1")))
dpkg_compare-order_example = dpkg_compare-order beta final beta-Parsed final-Parsed

dpkg_compare_swap_example : compare final beta ≡ ok (pos 1)
dpkg_compare_swap_example = dpkg_compare_swap beta final (negsuc 0) beta-final-Compared

negative-NotAfter : NotAfter (negsuc 0)
negative-NotAfter = λ e. cc

dpkg_compare_trans_example : (t : ℤ) × (compare beta later ≡ ok t) × NotAfter t
dpkg_compare_trans_example =
    dpkg_compare_trans beta final later (negsuc 0) (negsuc 0) beta-final-Compared
      final-later-Compared negative-NotAfter negative-NotAfter

spaced-NotMinus : starts_minus (trim_space (codes " 1.0-1")) ≡ false
unfolding trim_space
spaced-NotMinus = refl

dpkg_new_version-ne-panic_example : new_version (codes " 1.0-1") ≢ panic
dpkg_new_version-ne-panic_example = dpkg_new_version-ne-panic (codes " 1.0-1") spaced-NotMinus

minus_zero-Trimmed : trim_space (codes " -00:1.0") ≡ codes "-00:1.0"
unfolding trim_space
minus_zero-Trimmed = refl

rest-NoDash : last_index (codes "1.0") b'-' ≡ none
unfolding last_index
rest-NoDash = refl

dpkg_new_version_panics_example : new_version (codes " -00:1.0") ≡ panic
dpkg_new_version_panics_example =
    dpkg_new_version_panics 1 (codes "1.0") (codes " -00:1.0") minus_zero-Trimmed rest-NoDash
