-- ===== src/VulnSrc/Ubuntu/Parse.antt =====
-- What parseUbuntuCVE of ext/vulnsrc/ubuntu/ubuntu.go returns.
use clair.Database.{Vulnerability, VulnerabilityWithAffected}
use clair.Database.Releases.{ubuntu_releases_mapping}
use clair.Database.Severity
use clair.Database.Severity.Known.{
  unknown-valid, negligible-valid, low-valid, medium-valid, high-valid, critical-valid,
}
use clair.GoLib.{trim_space, has_prefix, scan_lines}
use clair.VersionFmt.Driver.{Parsers}
use clair.VulnSrc.Ubuntu.Affects.{Capture, find_affects}
use clair.VulnSrc.Ubuntu.Package.{ubuntu_ignored_releases, is_one_of, considered, key_of}
use clair.Prelude.{
  Bytes, bytes_eq, true, false, Option, none, some, List, [], ◌∷◌, map, codes, get, Unique,
  is_empty, All, if_either, Outcome, ok, >>=-ok, ◌≡◌, refl, subst, arith, ◌⊎◌, inl, inr,
}
use clair.VulnSrc.Ubuntu.Unique.{Inv, Kept, start-Inv, details-Inv, parse_release-Inv}
use clair.VulnSrc.Ubuntu.{
  Parsing, start, with_details, severity_from_priority, up_to_slash, parse_candidate,
  parse_priority, parse_description, ends_description, continue_description, parse_affects,
  parse_line, parse_lines, with_defaults, parse_ubuntu_cve,
}

severity_from_priority-valid : (s : Bytes) → Severity.valid (severity_from_priority s) ≡ true
unfolding severity_from_priority
severity_from_priority-valid s =
    ground
      (arith, unknown-valid, negligible-valid, low-valid, medium-valid, high-valid, critical-valid)

parse_affects-Inv :
    {E : Type 0} (parsers : Parsers) (found : Option Capture) (p q : Parsing)
    → Inv p
    → parse_affects {E = E} parsers found p ≡ ok q
    → Inv q
unfolding parse_affects
parse_affects-Inv parsers none p q h e = let same : p ≡ q = cc in subst Inv same h
parse_affects-Inv {E} parsers (some md) p q h e =
    let P : Outcome E Parsing → Type 0 = λ m. m ≡ ok q → Inv q in
    let stays : P (ok p) = λ x. let same : p ≡ q = cc in subst Inv same h in
    let release = up_to_slash md.release in
    if_either P (has_prefix md.package_name (codes "linux")) stays
      (if_either P (considered md.status)
        (if_either P (is_one_of release ubuntu_ignored_releases) stays
          (λ x. parse_release-Inv parsers md release (get release ubuntu_releases_mapping) p q h x))
        stays)
      e

parse_line-Inv :
    {E : Type 0} (parsers : Parsers) (line : Bytes) (p q : Parsing)
    → Inv p
    → parse_line {E = E} parsers line p ≡ ok q
    → Inv q
unfolding parse_line parse_candidate parse_priority parse_description
parse_line-Inv {E} parsers line p q h e =
    let P : Outcome E Parsing → Type 0 = λ m. m ≡ ok q → Inv q in
    let gives : (r : Parsing) → Inv r → P (ok r) =
      λ r i x. let same : r ≡ q = cc in subst Inv same i in
    let affects : (r : Parsing) → Inv r → P (parse_affects parsers (find_affects line) r) =
      λ r i x. parse_affects-Inv parsers (find_affects line) r q i x in
    if_either P (has_prefix line (codes "#")) (gives p h)
      (if_either P (has_prefix line (codes "Candidate:"))
        (gives (parse_candidate line p) (details-Inv p _ refl refl h.graded h))
        (if_either P (has_prefix line (codes "Priority:"))
          (gives (parse_priority line p) (
            details-Inv p (parse_priority line p) refl refl (inr (severity_from_priority-valid _))
              h))
          (if_either P (has_prefix line (codes "Description:"))
            (gives (parse_description line p) (details-Inv p _ refl refl h.graded h))
            (if_either P p.reading_description
              (if_either P (ends_description line)
                (affects (record p { reading_description = false })
                  (details-Inv p _ refl refl h.graded h))
                (gives (continue_description line p) (details-Inv p _ refl refl h.graded h)))
              (affects p h)))))
      e

parse_lines-Inv :
    {E : Type 0} (parsers : Parsers) (lines : List Bytes) (p q : Parsing)
    → Inv p
    → parse_lines {E = E} parsers lines p ≡ ok q
    → Inv q
unfolding parse_lines
parse_lines-Inv parsers [] p q h e = let same : p ≡ q = cc in subst Inv same h
parse_lines-Inv {E} parsers (line ∷ lines) p q h e =
    let (next, x, y) = >>=-ok (parse_line {E = E} parsers (trim_space line) p) _ q e in
    parse_lines-Inv parsers lines next q (parse_line-Inv parsers (trim_space line) p next h x) y

-- What holds of the vulnerability of a file: no two of its features have the same namespace and
-- package, the updater keeps each of them unless its package has an empty name, and its severity is
-- one of the scale.
abbrev pub Parsed : VulnerabilityWithAffected → Type 0
Parsed v =
    Unique (map key_of v.affected)
    × All Kept v.affected
    × (Severity.valid v.vulnerability.severity ≡ true)

with_defaults-valid :
    (v : Vulnerability)
    → (v.severity ≡ []) ⊎ (Severity.valid v.severity ≡ true)
    → Severity.valid (with_defaults v).severity ≡ true
with_defaults-valid v (inl e) = rw e unknown-valid
with_defaults-valid v (inr e) =
    if_either (λ (s : Bytes). Severity.valid s ≡ true) (is_empty v.severity) unknown-valid e

-- When parseUbuntuCVE returns, its vulnerability affects each package of a release once, the updater
-- keeps every feature whose package has a name, and the severity is one of the scale.
pub parse_ubuntu_cve-Parsed :
    {E : Type 0} (parsers : Parsers) (file_content : Bytes) (v : VulnerabilityWithAffected)
    (unknown : List (Bytes × Unit {0}))
    → parse_ubuntu_cve {E = E} parsers file_content ≡ ok (v, unknown)
    → Parsed v
unfolding parse_ubuntu_cve
parse_ubuntu_cve-Parsed {E} parsers file_content v unknown e =
    let (p, x, y) =
      >>=-ok (parse_lines {E = E} parsers (scan_lines file_content) start) _ (v, unknown) e in
    let same : (with_details with_defaults p).vulnerability ≡ v = cc in
    let h = parse_lines-Inv parsers (scan_lines file_content) start p start-Inv x in
    subst Parsed same
      (h.unique, h.all_kept, with_defaults-valid p.vulnerability.vulnerability h.graded)
