-- ===== src/Updater.antt =====
-- updater.go
pub mod Changes
pub mod Fetch
pub mod Namespacing
pub mod Vulnerabilities
