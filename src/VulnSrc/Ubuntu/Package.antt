-- ===== src/VulnSrc/Ubuntu/Package.antt =====
-- Which lines of a file parseUbuntuCVE of ext/vulnsrc/ubuntu/ubuntu.go considers, and what feature such
-- a line stands for.
use clair.Database.{AffectedFeature, affect_source_package}
use clair.VersionFmt.Errors.{VersionError, max_version_text}
use clair.VersionFmt.Driver.{Parsers, valid}
use clair.VersionFmt.Dpkg
use clair.VulnSrc.Ubuntu.Affects.{Capture}
use clair.Prelude.{
  Bytes, bytes_eq, Bool, Option, none, some, List, [], ◌∷◌, ◌++◌, codes, any, is_empty, ◌===◌,
  if◌then◌else◌, Outcome, ok, err, panic, hang,
}

abbrev pub ubuntu_ignored_releases : List Bytes
ubuntu_ignored_releases =
    codes "upstream"
    ∷ codes "devel"
    ∷ codes "dapper"
    ∷ codes "edgy"
    ∷ codes "feisty"
    ∷ codes "gutsy"
    ∷ codes "hardy"
    ∷ codes "intrepid"
    ∷ codes "jaunty"
    ∷ codes "karmic"
    ∷ codes "lucid"
    ∷ codes "maverick"
    ∷ codes "natty"
    ∷ codes "oneiric"
    ∷ codes "saucy"
    ∷ codes "vivid/ubuntu-core"
    ∷ codes "vivid/stable-phone-overlay"
    ∷ codes "Patches"
    ∷ codes "product"
    ∷ []

abbrev pub is_one_of : Bytes → List Bytes → Bool
is_one_of s names = any (λ n. s === n) names

abbrev pub considered : Bytes → Bool
considered status = is_one_of status (
    codes "needed"
    ∷ codes "active"
    ∷ codes "deferred"
    ∷ codes "released"
    ∷ codes "not-affected"
    ∷ [])

-- The version of a release that is fixed: its note, whether that is a valid version or not.
abbrev pub noted_version {ℓ} :
    {E : Type ℓ} → Bytes → Outcome VersionError Bool → Outcome E (Option Bytes)
noted_version note (ok _) = ok (some note)
noted_version note (err _) = ok (some note)
noted_version note panic = panic
noted_version note hang = hang

unfoldable pub version_of {ℓ} : {E : Type ℓ} → Parsers → Capture → Outcome E (Option Bytes)
version_of parsers md =
    if md.status === codes "released"
    then if is_empty md.note
      then ok none
      else noted_version md.note (valid parsers Dpkg.parser_name md.note)
    else ok (some max_version_text)

abbrev pub feature_of : Capture → Bytes → Bytes → AffectedFeature
feature_of md number version = record {
  affected_type = affect_source_package;
  namespace = record { name = codes "ubuntu:" ++ number; version_format = Dpkg.parser_name };
  feature_name = md.package_name;
  fixed_in_version = if version === max_version_text then [] else version;
  affected_version = version;
}

abbrev pub key_of : AffectedFeature → Bytes
key_of f = f.namespace.name ++ codes "_:_" ++ f.feature_name
