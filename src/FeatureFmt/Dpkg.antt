-- ===== src/FeatureFmt/Dpkg.antt =====
-- ext/featurefmt/dpkg/dpkg.go: the packages that dpkg has installed, and the sources they come from.
pub mod Whole
use clair.GoLib.{scan_lines, has_prefix, trim_space, last_index}
use clair.Database.{Feature, feature_eq}
use clair.Database.Sets.{MapSet}
use clair.Database.Dbutil.{convert_feature_set_to_features}
use clair.FeatureFmt.{FilesMap}
use clair.VersionFmt.Errors.{VersionError}
use clair.VersionFmt.Driver.{Parsers, valid}
use clair.VersionFmt.Dpkg
use clair.Prelude.{
  ℕ, Bool, true, false, not, ◌&&◌, ◌||◌, Bytes, bytes_eq, Option, none, some, List, [], ◌∷◌, codes,
  get, is_empty, length, drop, take, ◌==◌, ◌===◌, if◌then◌else◌, Outcome, ok, err, panic, hang,
  ◌>>=◌,
}

abbrev pub status_file : Bytes
status_file = codes "var/lib/dpkg/status"

abbrev pub required_filenames : List Bytes
required_filenames = status_file ∷ []

abbrev pub no_feature : Feature
no_feature = record {
  name = [];
  version = [];
  source_name = [];
  source_version = [];
  version_format = Dpkg.parser_name;
}

abbrev pub complete : Feature → Bool
complete pkg = not (is_empty pkg.name) && not (is_empty pkg.version)

unfoldable pub add_source_package : Feature → Feature
add_source_package pkg = record pkg {
  source_name = if is_empty pkg.source_name then pkg.name else pkg.source_name;
  source_version = if is_empty pkg.source_version then pkg.version else pkg.source_version;
}

-- The groups of dpkgSrcCaptureRegexp, `Source: (?P<name>[^\s]*)( \((?P<version>.*)\))?`, behind the
-- prefix of the line: the name is what stands in front of white space.
abbrev is_space : ℕ → Bool
is_space c = c == 9 || c == 10 || c == 12 || c == 13 || c == 32

unfoldable pub name_group : Bytes → Bytes
name_group [] = []
name_group (c ∷ s) = let rest = name_group s in if is_space c then [] else c ∷ rest

-- The version reaches up to the last closing parenthesis of the line.
abbrev up_to : Bytes → Option ℕ → Bytes
up_to s none = []
up_to s (some i) = take i s

abbrev pub version_group : Bytes → Bytes
version_group rest =
    if has_prefix rest (codes " (") then up_to (drop 2 rest) (last_index (drop 2 rest) b')') else []

abbrev pub set_source_version {ℓ} :
    {E : Type ℓ} → Feature → Bytes → Outcome VersionError Bool → Outcome E Feature
set_source_version pkg version (ok _) = ok (record pkg { source_version = version })
set_source_version pkg version (err _) = ok pkg
set_source_version pkg version panic = panic
set_source_version pkg version hang = hang

abbrev pub set_version {ℓ} :
    {E : Type ℓ} → Feature → Bytes → Outcome VersionError Bool → Outcome E Feature
set_version pkg version (ok _) = ok (record pkg { version = version })
set_version pkg version (err _) = ok pkg
set_version pkg version panic = panic
set_version pkg version hang = hang

module _ (parsers : Parsers) where
  abbrev pub read_source {ℓ} : {E : Type ℓ} → Bytes → Feature → Outcome E Feature
  read_source text pkg =
      let named : Feature = record pkg { source_name = trim_space (name_group text) } in
      let version = trim_space (version_group (drop (length (name_group text)) text)) in
      if is_empty version
      then ok named
      else set_source_version named version (valid parsers Dpkg.parser_name version)

  -- What a line does to the package that is being read.
  unfoldable pub read_line {ℓ} : {E : Type ℓ} → Bytes → Feature → Outcome E Feature
  unfolding name_group
  read_line line pkg =
      if has_prefix line (codes "Package: ")
      then ok
          (record pkg { name = trim_space (drop (length (codes "Package: ")) line); version = [] })
      else if has_prefix line (codes "Source: ")
      then read_source (drop (length (codes "Source: ")) line) pkg
      else if has_prefix line (codes "Version: ")
      then set_version pkg (drop (length (codes "Version: ")) line)
          (valid parsers Dpkg.parser_name (drop (length (codes "Version: ")) line))
      else if is_empty line
      then ok no_feature
      else ok pkg

module _ (s : MapSet Feature) (parsers : Parsers) where
  -- A package that is complete behind a line is added, and goes on with its source filled in.
  abbrev pub fill : Feature → Feature
  fill pkg = if complete pkg then add_source_package pkg else pkg

  abbrev pub add_complete : Feature → s.Set → s.Set
  add_complete pkg pkgs = if complete pkg then s.add (add_source_package pkg) pkgs else pkgs

  unfoldable pub list_lines {ℓ} : {E : Type ℓ} → List Bytes → Feature → s.Set → Outcome E s.Set
  unfolding read_line add_source_package
  list_lines [] pkg pkgs = ok pkgs
  list_lines (line ∷ lines) pkg pkgs = do
    next ← read_line parsers line pkg
    list_lines lines (fill next) (add_complete next pkgs)

  abbrev pub list_file {ℓ} : {E : Type ℓ} → Option Bytes → Outcome E (List Feature)
  list_file none = ok []
  list_file (some file) = list_lines (scan_lines file) no_feature s.new_set >>= λ pkgs.
      ok (convert_feature_set_to_features s pkgs)

  unfoldable pub list_features {ℓ} : {E : Type ℓ} → FilesMap → Outcome E (List Feature)
  unfolding list_lines
  list_features files = list_file (get status_file files)
