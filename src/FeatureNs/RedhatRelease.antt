-- ===== src/FeatureNs/RedhatRelease.antt =====
-- ext/featurens/redhatrelease/redhatrelease.go: its three regular expressions by hand.
use clair.GoLib.{is_digit, has_prefix, lower_text}
use clair.Database.{Namespace}
use clair.VersionFmt.Rpm
use clair.FeatureFmt.{FilesMap}
use clair.Prelude.{
  ℕ, Bytes, bytes_eq, Bool, ◌||◌, Option, none, some, List, [], ◌∷◌, ◌++◌, codes, get, length, drop,
  is_empty, ◌==◌, if◌then◌else◌,
}

abbrev pub required_filenames : List Bytes
required_filenames =
    codes "etc/oracle-release"
    ∷ codes "etc/centos-release"
    ∷ codes "etc/redhat-release"
    ∷ codes "etc/system-release"
    ∷ []

abbrev pub or_else {ℓ} : {A : Type ℓ} → Option A → Option A → Option A
or_else (some a) b = some a
or_else none b = b

-- `[\d]+`: as many digits as there are.
unfoldable pub leading_digits : Bytes → Bytes
leading_digits [] = []
leading_digits (c ∷ s) = let rest = leading_digits s in if is_digit c then c ∷ rest else []

abbrev pub unless_empty : Bytes → Option Bytes
unless_empty digits = if is_empty digits then none else some digits

-- The number behind a phrase at the front of the text.
abbrev pub number_behind : Bytes → Bytes → Option Bytes
number_behind phrase s =
    if has_prefix s phrase then unless_empty (leading_digits (drop (length phrase) s)) else none

unfoldable pub match_one : List Bytes → Bytes → Option Bytes
unfolding leading_digits
match_one [] s = none
match_one (phrase ∷ phrases) s = or_else (number_behind phrase s) (match_one phrases s)

-- The leftmost match of any of the phrases with a number.
unfoldable pub find_number : List Bytes → Bytes → Option Bytes
unfolding match_one
find_number phrases [] = match_one phrases []
find_number phrases (c ∷ s) = or_else (match_one phrases (c ∷ s)) (find_number phrases s)

-- `\s`
abbrev is_space : ℕ → Bool
is_space c = c == 9 || c == 10 || c == 12 || c == 13 || c == 32

-- `[^\s]*`, which ends at white space here, since a space has to follow.
unfoldable pub leading_word : Bytes → Bytes
leading_word [] = []
leading_word (c ∷ s) = let rest = leading_word s in if is_space c then [] else c ∷ rest

abbrev pub with_os : Bytes → Option Bytes → Option (Bytes × Bytes)
with_os os none = none
with_os os (some version) = some (os, version)

abbrev pub match_centos : Bytes → Option (Bytes × Bytes)
match_centos s = with_os (leading_word s) (
    match_one (codes " Linux release " ∷ codes " release " ∷ []) (drop (length (leading_word s)) s))

unfoldable pub find_centos : Bytes → Option (Bytes × Bytes)
unfolding leading_word match_one
find_centos [] = match_centos []
find_centos (c ∷ s) = or_else (match_centos (c ∷ s)) (find_centos s)

abbrev pub namespace_of : Bytes → Bytes → Namespace
namespace_of os version = record {
  name = lower_text os ++ b':' ∷ version;
  version_format = Rpm.parser_name;
}

abbrev pub if_centos : Option (Bytes × Bytes) → Option Namespace
if_centos none = none
if_centos (some (os, version)) = some (namespace_of os version)

abbrev pub if_redhat : Option Bytes → Bytes → Option Namespace
if_redhat none s = if_centos (find_centos s)
if_redhat (some version) s = some (namespace_of (codes "centos") version)

abbrev pub if_oracle : Option Bytes → Bytes → Option Namespace
if_oracle none s =
    if_redhat
      (find_number
        (codes "Red Hat Enterprise Linux Client release "
          ∷ codes "Red Hat Enterprise Linux Server release "
          ∷ codes "Red Hat Enterprise Linux Workstation release "
          ∷ [])
        s)
      s
if_oracle (some version) s = some (namespace_of (codes "Oracle") version)

abbrev pub read_file : Option Bytes → Option Namespace
read_file none = none
read_file (some s) = if_oracle (find_number (codes "Oracle Linux Server release " ∷ []) s) s

unfoldable pub detect_in : FilesMap → List Bytes → Option Namespace
unfolding find_number find_centos
detect_in files [] = none
detect_in files (path ∷ paths) = or_else (read_file (get path files)) (detect_in files paths)

unfoldable pub detect : FilesMap → Option Namespace
unfolding detect_in
detect files = detect_in files required_filenames
