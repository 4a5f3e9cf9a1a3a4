-- ===== src/Lib.antt =====
-- Clair: a model of the parts of the scanner that decide what an image contains and what has changed.
--
-- A worker turns the layers of an image into an ancestry: which packages it has, in which
-- distribution, and in which layer each came in. The updater compares the vulnerabilities of a
-- distribution with those that the database holds, and stores what has changed. Both rest on the
-- models and the set computations of the package database, and a vulnerability is matched to a
-- package by the version formats. The packages of a layer come from feature listers, which read what a
-- package manager has written in it, and its distribution from namespace detectors, which read release
-- files; the vulnerabilities come from sources, one for each distribution, which turn a tracker's files
-- into vulnerabilities and remember in a flag how far they have read. Several instances of Clair share
-- one database, and a lock in it decides which of them updates or sends a notification.
--
-- The files and the code:
--   Prelude      shared names: tests, lists over native numbers, integers, equality tests, maps as
--                association lists, the order in which a map is ranged over, and outcomes: a value, an
--                error, a panic, or a loop without fuel.
--   GoLib        what the code uses of Go's packages unicode, strings, strconv and bufio: Search for the
--                search of texts, Cases for letter cases, Lines for the lines that a Scanner gives.
--   VersionFmt   ext/versionfmt: Errors and Driver are driver.go, with the registry of parsers; Dpkg and
--                Rpm are the two files parser.go (newVersion is new_version, Compare is compare, and so
--                on), with verrevcmp in Dpkg/Verrevcmp and rpmvercmp in Rpm/Rpmvercmp. Ranks, Orders and
--                the two files Key say what a version means.
--   VulnSrc      ext/vulnsrc: Source is what the updaters share. Oval is what rhel.go and oracle.go have in
--                common (getCriterions, getPossibilities), with Oval/Features for the loops of toFeatures
--                and Oval/Listing for the regular expression on the listing. Rhel, Oracle, Debian, Ubuntu
--                and Alpine are the five sources, each with its parser (parseRHSA is parse_definitions,
--                and so on) and the method Update in a child, or in Alpine itself. Ubuntu/Affects is
--                the regular expression on a line, and Ubuntu/Package what a line's release and note give.
--   Registry     ext/vulnsrc/driver.go, ext/vulnmdsrc/driver.go and ext/notification/driver.go: their
--                registries, which have one code, and the configuration of senders in RunNotifier.
--   FeatureFmt   ext/featurefmt: Driver is the registry, Apk and Dpkg are the two listers of these names.
--   FeatureNs    ext/featurens: Driver is the registry and Detect, and the five detectors of release files have
--                the names of their packages; Builtin is what their functions init register.
--   Database     database: models.go and detector.go, with Severity for severity.go and Dbutil for
--                dbutil.go's sets, Releases for namespace_mapping.go, and Transactions for the sessions of
--                dbutil.go; Sets is the interface of golang-set and Session the one of database.go, which
--                a client takes as an argument.
--   Worker       worker.go: Ancestry is getCommonDetectors and computeAncestryLayers, Layers is processLayers
--                and what it calls, Process is ProcessAncestry (process_ancestry) and processAncestry
--                (process_computed). Errors is CombineErrors of pkg/commonerr.
--   Updater      updater.go: Changes is isVulnerabilityChanged and findVulnerabilityChanges, Namespacing is
--                doVulnerabilitiesNamespacing and appendFunc, Vulnerabilities is updateVulnerabilities, Fetch
--                is fetch and addMetadata.
--   Pgsql        database/pgsql: Locks is lock.go over the table of locks, each statement a function on it.
--   Notifier     notifier.go: handleTask, where the delays of package timeutil are an argument; Locks is lock,
--                unlock, and findLock of updater.go, over Pgsql/Locks, and Locks/Leases the steps that
--                the instances and the clock make.
--   Tests        the theorems at concrete values.
--
-- A Go string is the list of its bytes. An int that the code reads from a text has the bounds of
-- 64 bits in atoi; the other integers are differences of bytes and do not come near a bound. The
-- order in which Go ranges over a map or a set is open, so it is an argument. The outer loop of
-- verrevcmp has as fuel the lengths of both texts and one more: a round takes a byte away or returns,
-- and the theorem on verrevcmp states that the loop ends for all texts. Every other loop is a
-- recursion on its list or its tree.
--
-- Documents reach the sources decoded: the decoders of XML, JSON and YAML, HTTP, Git and the file
-- system are arguments, records of what they answer. A listing, and a line with an affected package,
-- is taken as ASCII by the regular expressions. A Scanner hands over lines shorter than 64 KB and
-- stops at the first that is not. Clocks are numbers, that of an instance and that of the database
-- apart, and a lock has a time to live by the first and expires by the second. The statements of the
-- database either fail, by a record of faults, or do what their SQL says to the table.
--
-- What the interface Session says of vulnerabilities and of ancestries is a record of laws, an argument
-- of the theorems that rest on it: an insertion is for ids that the database does not hold, a removal
-- for ids that it holds, and an ancestry that was upserted is found under its name.
--
-- The updaters of fetch run side by side, and the order in which they stand is that in which their
-- responses arrive; the appenders of metadata run one after the other.
--
-- The scans of an archive in detectContent are an argument. The results of the goroutines of
-- processRequests are read only when all have ended, so they are computed one after the other.
--
-- Not modelled: the other tables of the PostgreSQL datastore, whose code is SQL text; downloads,
-- decoders, archives, the deletion of clones, and the rpm lister, which runs a program; the loops of
-- the services, notifications and the storing of flags; the appender of metadata and the sender of
-- notifications, which are HTTP clients; the registry of image formats; logging, metrics, the gRPC
-- service and its command.
pub mod Database
pub mod FeatureFmt
pub mod FeatureNs
pub mod GoLib
pub mod Notifier
pub mod Pgsql
pub mod Prelude
pub mod Registry
pub mod Tests
pub mod Updater
pub mod VersionFmt
pub mod VulnSrc
pub mod Worker
