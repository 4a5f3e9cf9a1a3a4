-- ===== src/VersionFmt/Errors.antt =====
-- The errors of ext/versionfmt and of its two parsers, the interface Parser of
-- ext/versionfmt/driver.go, and the two special versions.
use clair.Prelude.{Bytes, codes, Bool, ℤ, Outcome}

pub data VersionError : Type 0 where
  version_empty epoch_not_number epoch_negative no_version : VersionError
  bad_version_char bad_revision_char : VersionError
  unknown_version_format invalid_version : VersionError

abbrev pub min_version_text : Bytes
min_version_text = codes "#MINV#"

abbrev pub max_version_text : Bytes
max_version_text = codes "#MAXV#"

pub record Parser : Type 0 where
  pub valid : Bytes → Outcome VersionError Bool
  pub compare : Bytes → Bytes → Outcome VersionError ℤ
  pub in_range : Bytes → Bytes → Outcome VersionError Bool
  pub get_fixed_in : Bytes → Outcome VersionError Bytes
