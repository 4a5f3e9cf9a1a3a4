-- ===== src/VulnSrc/Oval/Accepted.antt =====
-- When the updater accepts a feature that toFeatures of rhel.go and oracle.go has read.
use clair.Database.{Namespace, AffectedFeature}
use clair.Updater.Namespacing.{feature_malformed}
use clair.VersionFmt.Driver.{Parsers, valid}
use clair.VersionFmt.Rpm
use clair.VulnSrc.Oval.Features.{incomplete}
use clair.VulnSrc.Oval.Sound.{Sound}
use clair.Prelude.{true, false, ◌≡◌, ok, arith}

-- The namespace is of the versions of RPM.
abbrev pub IsRpm : Namespace → Type 0
IsRpm n = n.version_format ≡ Rpm.parser_name

-- The updater keeps the feature, and its version is one that RPM's format accepts.
abbrev pub Accepted : Parsers → AffectedFeature → Type 0
Accepted parsers f =
    (feature_malformed f ≡ false)
    × (f.namespace.version_format ≡ Rpm.parser_name)
    × (valid parsers Rpm.parser_name f.affected_version ≡ ok true)

pub Sound-Accepted :
    (parsers : Parsers) (mark : Namespace → Namespace) (f : AffectedFeature)
    → Sound parsers mark IsRpm f
    → incomplete f ≡ false
    → Accepted parsers f
unfolding incomplete feature_malformed
Sound-Accepted parsers mark f h e =
    let version = h.1 (ground arith) in
    let kind = h.0 (ground arith) in (rw (kind, version.1) (ground arith), version.1, version.0)
