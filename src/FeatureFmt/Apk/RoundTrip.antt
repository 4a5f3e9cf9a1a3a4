-- ===== src/FeatureFmt/Apk/RoundTrip.antt =====
-- The lister of ext/featurefmt/apk/apk.go, on a database written in the format that it reads.
use clair.GoLib.Lines.{IsLine}
use clair.Database.{Feature, feature_eq}
use clair.Database.Sets.{MapSet}
use clair.VersionFmt.Driver.{Parsers, valid}
use clair.VersionFmt.Dpkg
use clair.FeatureFmt.Apk.{no_feature}
use clair.Prelude.{true, false, Bytes, bytes_eq, List, [], ◌∷◌, ◌++◌, is_empty, ok, ◌≡◌}

pub record Package : Type 0 where
  pub name : Bytes
  pub version : Bytes

abbrev pub feature_of : Package → Feature
feature_of p = record no_feature { name = p.name; version = p.version }

abbrev pub name_line : Package → Bytes
name_line p = b'P' ∷ b':' ∷ p.name

abbrev pub version_line : Package → Bytes
version_line p = b'V' ∷ b':' ∷ p.version

-- The database as apk writes it, as far as the lister reads it: a name, a version and an empty line.
pub write_packages : List Package → Bytes
write_packages [] = []
write_packages (p ∷ ps) =
    name_line p ++ 10 ∷ (version_line p ++ 10 ∷ ([] ++ 10 ∷ write_packages ps))

-- A package that can be written: its lines are lines, and its version is valid and not empty.
abbrev pub Writable : Parsers → Package → Type 0
Writable parsers p =
    IsLine (name_line p)
    × IsLine (version_line p)
    × (is_empty p.name ≡ false)
    × (is_empty p.version ≡ false)
    × (valid parsers Dpkg.parser_name p.version ≡ ok true)

module _ (s : MapSet Feature) (parsers : Parsers) where
  add_all : List Package → s.Set → s.Set
  add_all [] packages = packages
  add_all (p ∷ ps) packages = add_all ps (s.add (feature_of p) packages)
