-- ===== src/VersionFmt.antt =====
-- ext/versionfmt
pub mod Errors
pub mod Ranks
pub mod Orders
pub mod Driver
pub mod Dpkg
pub mod Rpm
