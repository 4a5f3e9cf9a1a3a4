-- ===== src/FeatureFmt.antt =====
-- ext/featurefmt: the features of a layer, from the databases of its package managers.
pub mod Driver
pub mod Apk
pub mod Dpkg
use clair.Prelude.{Bytes, List}

-- tarutil.FilesMap: the contents of files by their paths.
abbrev pub FilesMap : Type 0
FilesMap = List (Bytes × Bytes)
