-- ===== src/FeatureFmt/Apk.antt =====
-- ext/featurefmt/apk/apk.go: the packages that Alpine's package manager has installed.
pub mod RoundTrip
use clair.GoLib.{scan_lines}
use clair.Database.{Feature, feature_eq}
use clair.Database.Sets.{MapSet}
use clair.Database.Dbutil.{convert_feature_set_to_features}
use clair.FeatureFmt.{FilesMap}
use clair.VersionFmt.Errors.{VersionError}
use clair.VersionFmt.Driver.{Parsers, valid}
use clair.VersionFmt.Dpkg
use clair.Prelude.{
  Bool, true, false, not, ◌&&◌, Bytes, bytes_eq, Option, none, some, List, [], ◌∷◌, codes, get,
  is_empty, ◌===◌, if◌then◌else◌, Outcome, ok, err, panic, hang, ◌>>=◌,
}

abbrev pub installed : Bytes
installed = codes "lib/apk/db/installed"

abbrev pub required_filenames : List Bytes
required_filenames = installed ∷ []

abbrev pub no_feature : Feature
no_feature = record {
  name = [];
  version = [];
  source_name = [];
  source_version = [];
  version_format = Dpkg.parser_name;
}

abbrev pub complete : Feature → Bool
complete pkg = not (is_empty pkg.name) && not (is_empty pkg.version)

-- What a line is: its first two bytes decide.
pub data Line : Type 0 where
  short : Line
  named : Bytes → Line
  versioned : Bytes → Line
  other : Line

unfoldable pub line_of : Bytes → Line
line_of [] = short
line_of (a ∷ []) = short
line_of (a ∷ b ∷ rest) =
    if (a ∷ b ∷ []) === codes "P:"
    then named rest
    else if (a ∷ b ∷ []) === codes "V:"
    then versioned rest
    else other

abbrev pub set_version {ℓ} :
    {E : Type ℓ} → Feature → Bytes → Outcome VersionError Bool → Outcome E Feature
set_version pkg version (ok _) = ok (record pkg { version = version })
set_version pkg version (err _) = ok pkg
set_version pkg version panic = panic
set_version pkg version hang = hang

module _ (s : MapSet Feature) (parsers : Parsers) where
  -- The end of a package, and of the file.
  abbrev pub add_complete : Feature → s.Set → s.Set
  add_complete pkg packages = if complete pkg then s.add pkg packages else packages

  unfoldable pub list_lines {ℓ} : {E : Type ℓ} → List Bytes → Feature → s.Set → Outcome E s.Set
  unfolding line_of
  list_lines [] pkg packages = ok (add_complete pkg packages)
  list_lines (line ∷ lines) pkg packages = elim (line_of line) [
    | short ↦
        list_lines lines (if complete pkg then no_feature else pkg) (add_complete pkg packages)
    | named name ↦ list_lines lines (record pkg { name = name }) packages
    | versioned version ↦
        set_version pkg version (valid parsers Dpkg.parser_name version) >>= λ next.
        list_lines lines next packages
    | other ↦ list_lines lines pkg packages
  ]

  abbrev pub list_file {ℓ} : {E : Type ℓ} → Option Bytes → Outcome E (List Feature)
  list_file none = ok []
  list_file (some file) = list_lines (scan_lines file) no_feature s.new_set >>= λ packages.
      ok (convert_feature_set_to_features s packages)

  unfoldable pub list_features {ℓ} : {E : Type ℓ} → FilesMap → Outcome E (List Feature)
  unfolding list_lines
  list_features files = list_file (get installed files)
