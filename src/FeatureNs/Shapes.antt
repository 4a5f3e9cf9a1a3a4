-- ===== src/FeatureNs/Shapes.antt =====
-- The form of the namespaces that the detectors of ext/featurens find.
use clair.Database.{Namespace}
use clair.VersionFmt.Dpkg
use clair.VersionFmt.Rpm
use clair.Prelude.{Bytes, bytes_eq, false, Option, none, some, ◌∷◌, ◌++◌, is_empty, ◌≡◌, subst, ◌⊎◌}

-- The name of a system and a version that is not empty, with the format of one of the two package
-- managers.
abbrev pub IsNamespace : Namespace → Type 0
IsNamespace n =
    (os version : Bytes) × (n.name ≡ os ++ b':' ∷ version)
    × (is_empty version ≡ false)
    × ((n.version_format ≡ Dpkg.parser_name) ⊎ (n.version_format ≡ Rpm.parser_name))

abbrev pub AllNamed : Option Namespace → Type 0
AllNamed o = (n : Namespace) → o ≡ some n → IsNamespace n

pub none-AllNamed : AllNamed none
none-AllNamed n e = absurd (cc)

pub some-AllNamed : (m : Namespace) → IsNamespace m → AllNamed (some m)
some-AllNamed m h n e = let same : m ≡ n = cc in subst IsNamespace same h
