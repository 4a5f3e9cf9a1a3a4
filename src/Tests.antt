-- ===== src/Tests.antt =====
-- The theorems at concrete versions, layers and vulnerabilities.
mod Distributions
mod Fetches
mod Dpkg
mod Rpm
mod Data
mod Formats
mod Advisories
mod Trackers
mod Listers
mod Locks
mod Ancestries
mod Vulnerabilities
mod Memory
mod Layers
mod Senders
