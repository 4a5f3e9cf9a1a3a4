-- ===== src/VersionFmt/Dpkg.antt =====
-- ext/versionfmt/dpkg/parser.go: versions of Debian packages.
pub mod Verrevcmp
pub mod Key
mod TextPart
mod NumberPart
mod DigitsPart
pub mod Refines
pub mod Order
pub mod Parse
pub mod Panics
use mathlib.Core.Option
use Verrevcmp.{verrevcmp, signum}
use clair.GoLib.{is_digit, is_letter, trim_space, index, last_index, slice, atoi, itoa}
use clair.VersionFmt.Errors.{
  VersionError, version_empty, epoch_not_number, epoch_negative, no_version, bad_version_char,
  bad_revision_char, min_version_text, max_version_text, Parser,
}
use clair.Prelude.{
  ℕ, zero, suc, Bool, true, false, not, ◌&&◌, ◌||◌, Option, none, some, List, [], ◌∷◌, ◌++◌, Bytes,
  Bytes-discrete, bytes_eq, ℕ_discrete, ℤ-discrete, length, is_empty, all, any, Eq, ◌===◌, ◌==◌,
  if◌then◌else◌, ℤ, pos, negsuc, eqb_ℤ, ltb_ℤ, codes, ◌≡◌, refl, Outcome, ok, err, panic, hang,
  of_fuel, ◌>>=◌,
}

abbrev pub parser_name : Bytes
parser_name = codes "dpkg"

pub record Version : Type 0 where
  pub epoch : ℤ
  pub version : Bytes
  pub revision : Bytes

unfoldable pub Version-discrete : Discrete Version
unfolding Bytes-discrete ℤ-discrete ℕ_discrete
Version-discrete = hlevel ℕ_discrete

instance abbrev pub version_eq : Eq Version
version_eq = record { dec_eq = Version-discrete }

abbrev pub min_version : Version
min_version = record { epoch = pos 0; version = min_version_text; revision = [] }

abbrev pub max_version : Version
max_version = record { epoch = pos 0; version = max_version_text; revision = [] }

unfoldable pub contains_rune : List ℕ → ℕ → Bool
contains_rune [] e = false
contains_rune (a ∷ s) e = a == e || contains_rune s e

abbrev pub version_allowed_symbols : List ℕ
version_allowed_symbols = b'.' ∷ b'-' ∷ b'+' ∷ b'~' ∷ b':' ∷ b'_' ∷ []

abbrev pub revision_allowed_symbols : List ℕ
revision_allowed_symbols = b'.' ∷ b'+' ∷ b'~' ∷ b'_' ∷ []

unfoldable pub version_char : ℕ → Bool
unfolding contains_rune is_digit is_letter
version_char r = is_digit r || is_letter r || contains_rune version_allowed_symbols r

unfoldable pub revision_char : ℕ → Bool
unfolding contains_rune is_digit is_letter
revision_char r = is_digit r || is_letter r || contains_rune revision_allowed_symbols r

unfoldable pub to_string : Version → Bytes
to_string v =
    (if eqb_ℤ v.epoch (pos 0) then [] else itoa v.epoch ++ b':' ∷ [])
    ++ v.version
    ++ (if is_empty v.revision then [] else b'-' ∷ v.revision)

-- The epoch in front of the first colon.
unfoldable pub find_epoch : Bytes → Option ℕ → Outcome VersionError ℤ
find_epoch str none = ok (pos 0)
find_epoch str (some sepepoch) = do
  part ← slice str 0 sepepoch
  elim (atoi part) [
    | none ↦ err epoch_not_number
    | some epoch ↦ if ltb_ℤ epoch (pos 0) then err epoch_negative else ok epoch
  ]

-- The position behind the separator, sepepoch+1, where -1 is `none`.
abbrev pub behind : Option ℕ → ℕ
behind none = 0
behind (some i) = suc i

-- The version and the revision, cut at the last dash.
unfoldable pub find_revision : Bytes → ℕ → Option ℕ → Outcome VersionError (Bytes × Bytes)
find_revision str start none = do version ← slice str start (length str); ok (version, [])
find_revision str start (some seprevision) = do
  version ← slice str start seprevision
  revision ← slice str (suc seprevision) (length str)
  ok (version, revision)

unfoldable pub verify : ℤ → Bytes → Bytes → Outcome VersionError Version
verify epoch version revision =
    if is_empty version
    then err no_version
    else if not (all version_char version)
    then err bad_version_char
    else if not (all revision_char revision)
    then err bad_revision_char
    else ok (record { epoch = epoch; version = version; revision = revision })

unfoldable pub parse_trimmed : Bytes → Outcome VersionError Version
parse_trimmed str = do
  let sepepoch = index str b':'
  epoch ← find_epoch str sepepoch
  fields ← find_revision str (behind sepepoch) (last_index str b'-')
  verify epoch fields.0 fields.1

unfoldable pub new_version : Bytes → Outcome VersionError Version
new_version text =
    let str = trim_space text in
    if is_empty str
    then err version_empty
    else if str === to_string max_version
    then ok max_version
    else if str === to_string min_version
    then ok min_version
    else parse_trimmed str

-- Compare from the epochs on; `none` is a comparison that does not end.
unfoldable pub compare_fields : Version → Version → Option ℤ
compare_fields v1 v2 =
    if ltb_ℤ v2.epoch v1.epoch
    then some (pos 1)
    else if ltb_ℤ v1.epoch v2.epoch
    then some (negsuc 0)
    else elim (verrevcmp v1.version v2.version) [
      | none ↦ none
      | some rc ↦
          if not (eqb_ℤ rc (pos 0))
          then some (signum rc)
          else Option.map signum (verrevcmp v1.revision v2.revision)
    ]

-- Compare behind the two calls of newVersion.
unfoldable pub compare_versions : Version → Version → Option ℤ
compare_versions v1 v2 =
    if v1 === v2
    then some (pos 0)
    else if v1 === min_version || v2 === max_version
    then some (negsuc 0)
    else if v2 === min_version || v1 === max_version
    then some (pos 1)
    else compare_fields v1 v2

unfoldable pub compare : Bytes → Bytes → Outcome VersionError ℤ
compare a b = do v1 ← new_version a; v2 ← new_version b; of_fuel (compare_versions v1 v2)

unfoldable pub valid : Bytes → Outcome VersionError Bool
valid str = elim (new_version str) [
  | ok v ↦ ok true
  | err e ↦ ok false
  | panic ↦ panic
  | hang ↦ hang
]

unfoldable pub in_range : Bytes → Bytes → Outcome VersionError Bool
in_range version_a range_b = do cmp ← compare version_a range_b; ok (ltb_ℤ cmp (pos 0))

unfoldable pub get_fixed_in : Bytes → Outcome VersionError Bytes
get_fixed_in fixed_in = ok fixed_in

abbrev pub parser : Parser
unfolding valid compare in_range get_fixed_in
parser = record {
  valid = valid;
  compare = compare;
  in_range = in_range;
  get_fixed_in = get_fixed_in;
}
