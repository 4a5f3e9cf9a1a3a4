-- ===== src/VulnSrc.antt =====
-- ext/vulnsrc: where vulnerabilities come from. The documents that the sources publish reach the
-- model decoded: XML and JSON are read by Go's packages, and a document that they refuse is `none`.
pub mod Oval
pub mod Rhel
pub mod Ubuntu
pub mod Alpine
pub mod Debian
pub mod Oracle
pub mod Source
