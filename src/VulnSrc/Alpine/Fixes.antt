-- ===== src/VulnSrc/Alpine/Fixes.antt =====
-- The vulnerabilities that the method Vulnerabilities of ext/vulnsrc/alpine/alpine.go finds in a security
-- database of Alpine Linux.
use clair.Database.{VulnerabilityWithAffected}
use clair.VersionFmt.Errors.{VersionError}
use clair.VersionFmt.Driver.{Parsers, valid}
use clair.VersionFmt.Dpkg
use clair.VulnSrc.Alpine.{
  Package, SecDb, vulnerability_of, fixed_cves, if_valid, fixed_versions, fixed_packages,
  vulnerabilities,
}
use clair.Prelude.{
  Bytes, Bool, true, some, List, [], ◌∷◌, ◌++◌, In, In-append_left, In-append_right, visit-In,
  visit-All, MapOrder, All, All-append, Outcome, ok, err, panic, hang, >>=-ok, ◌≡◌, refl, sym, ap,
  ◌∙◌, subst, arith, inl, inr,
}

-- Every element of a list is one of those that stand in it.
In-All : {A : Type 0} (l all_l : List A) → ((a : A) → In a l → In a all_l) → All (λ a. In a all_l) l
In-All [] all_l i = tt
In-All (a ∷ l) all_l i = (i a (inl refl), In-All l all_l (λ b j. i b (inr j)))

module _ (parsers : Parsers) (distro : Bytes) where
  -- The vulnerability of a CVE that a valid version of one of the packages fixes.
  abbrev pub IsFix : List Package → VulnerabilityWithAffected → Type 0
  IsFix packages v =
      (p : Package) × (version cve : Bytes) × (cves : List Bytes) × In p packages
      × In (version, cves) p.fixes
      × In cve cves
      × (valid parsers Dpkg.parser_name version ≡ ok true)
      × (v ≡ vulnerability_of distro p.name version cve)

  valid-true :
      (version : Bytes) (b : Bool) → valid parsers Dpkg.parser_name version ≡ ok b → b ≡ true
  unfolding valid
  valid-true version b e = ground arith

  fixed_cves-IsFix :
      (packages : List Package) (p : Package) (version : Bytes) (all_cves cves : List Bytes)
      → In p packages
      → In (version, all_cves) p.fixes
      → ((cve : Bytes) → In cve cves → In cve all_cves)
      → valid parsers Dpkg.parser_name version ≡ ok true
      → All (IsFix packages) (fixed_cves distro p.name version cves)
  unfolding fixed_cves
  fixed_cves-IsFix packages p version all_cves [] h f i k = tt
  fixed_cves-IsFix packages p version all_cves (cve ∷ cves) h f i k = (
    (p, version, cve, all_cves, h, f, i cve (inl refl), k, refl),
    fixed_cves-IsFix packages p version all_cves cves h f (λ c j. i c (inr j)) k,
  )

  fixed_cves-In :
      (pkg_name version cve : Bytes) (cves : List Bytes)
      → In cve cves
      → In (vulnerability_of distro pkg_name version cve) (fixed_cves distro pkg_name version cves)
  unfolding fixed_cves
  fixed_cves-In pkg_name version cve [] h = absurd h
  fixed_cves-In pkg_name version cve (c ∷ cves) (inl e) =
      inl (ap (vulnerability_of distro pkg_name version) e)
  fixed_cves-In pkg_name version cve (c ∷ cves) (inr h) =
      inr (fixed_cves-In pkg_name version cve cves h)

module _ {E : Type 0} (parsers : Parsers) (o : MapOrder) (distro : Bytes) where
  if_valid-ok :
      (P : VulnerabilityWithAffected → Type 0) (version : Bytes) (m : Outcome VersionError Bool)
      (vs found : List VulnerabilityWithAffected)
      → valid parsers Dpkg.parser_name version ≡ m
      → (valid parsers Dpkg.parser_name version ≡ ok true → All P vs)
      → if_valid {E = E} m vs ≡ ok found
      → All P found
  if_valid-ok P version (ok b) vs found v h e =
      let same : vs ≡ found = cc in
      subst (All P) same (h (v ∙ ap ok (valid-true parsers distro version b v)))
  if_valid-ok P version (err _) vs found v h e = let same : [] ≡ found = cc in subst (All P) same tt
  if_valid-ok P version panic vs found v h e = absurd (cc)
  if_valid-ok P version hang vs found v h e = absurd (cc)

  fixed_versions-IsFix :
      (packages : List Package) (p : Package) (fixes : List (Bytes × List Bytes))
      (vs : List VulnerabilityWithAffected)
      → In p packages
      → All (λ x. In x p.fixes) fixes
      → fixed_versions {E = E} parsers distro p.name fixes ≡ ok vs
      → All (IsFix parsers distro packages) vs
  unfolding fixed_versions
  fixed_versions-IsFix packages p [] vs h f e =
      let same : [] ≡ vs = cc in subst (All (IsFix parsers distro packages)) same tt
  fixed_versions-IsFix packages p ((version, cves) ∷ fixes) vs h f e =
      let m = valid parsers Dpkg.parser_name version in
      let P = IsFix parsers distro packages in
      let (found, x, e2) =
        >>=-ok (if_valid {E = E} m (fixed_cves distro p.name version cves)) _ vs e in
      let (rest, y, z) = >>=-ok (fixed_versions {E = E} parsers distro p.name fixes) _ vs e2 in
      let same : found ++ rest ≡ vs = cc in
      subst (All P) same (
        All-append P found rest
          (if_valid-ok P version m _ found refl
            (fixed_cves-IsFix parsers distro packages p version cves cves h f.0 (λ c j. j)) x)
          (fixed_versions-IsFix packages p fixes rest h f.1 y))

  fixed_packages-IsFix :
      (all_packages packages : List Package) (vs : List VulnerabilityWithAffected)
      → All (λ p. In p all_packages) packages
      → fixed_packages {E = E} parsers o distro packages ≡ ok vs
      → All (IsFix parsers distro all_packages) vs
  unfolding fixed_packages
  fixed_packages-IsFix all_packages [] vs h e =
      let same : [] ≡ vs = cc in subst (All (IsFix parsers distro all_packages)) same tt
  fixed_packages-IsFix all_packages (p ∷ packages) vs h e =
      let (found, x, e2) =
        >>=-ok (fixed_versions {E = E} parsers distro p.name (o.visit (Bytes × List Bytes) p.fixes))
          _ vs e in
      let (rest, y, z) = >>=-ok (fixed_packages {E = E} parsers o distro packages) _ vs e2 in
      let same : found ++ rest ≡ vs = cc in
      subst (All (IsFix parsers distro all_packages)) same (
        All-append (IsFix parsers distro all_packages) found rest
          (fixed_versions-IsFix all_packages p _ found h.0
            (visit-All (λ x. In x p.fixes) o p.fixes (In-All p.fixes p.fixes (λ a j. j))) x)
          (fixed_packages-IsFix all_packages packages rest h.1 y))

  fixed_versions-In :
      (pkg_name version cve : Bytes) (cves : List Bytes) (fixes : List (Bytes × List Bytes))
      (vs : List VulnerabilityWithAffected)
      → valid parsers Dpkg.parser_name version ≡ ok true
      → In (version, cves) fixes
      → In cve cves
      → fixed_versions {E = E} parsers distro pkg_name fixes ≡ ok vs
      → In (vulnerability_of distro pkg_name version cve) vs
  unfolding fixed_versions
  fixed_versions-In pkg_name version cve cves [] vs k h i e = absurd h
  fixed_versions-In pkg_name version cve cves ((v, cs) ∷ fixes) vs k h i e =
      let w = vulnerability_of distro pkg_name version cve in
      let m = valid parsers Dpkg.parser_name v in
      let (found, x, e2) = >>=-ok (if_valid {E = E} m (fixed_cves distro pkg_name v cs)) _ vs e in
      let (others, y, z) = >>=-ok (fixed_versions {E = E} parsers distro pkg_name fixes) _ vs e2 in
      let same : found ++ others ≡ vs = cc in
      elim h [
        | inl s ↦
            let x' : if_valid {E = E} (valid parsers Dpkg.parser_name version)
                  (fixed_cves distro pkg_name version cves)
                ≡ ok found =
              ap
                (λ (z : Bytes × List Bytes).
                  if_valid {E = E} (valid parsers Dpkg.parser_name z.0)
                    (fixed_cves distro pkg_name z.0 z.1))
                (sym s)
              ∙ x in
            let here : ok (fixed_cves distro pkg_name version cves) ≡ ok found = rw k at x' in
            let same_here : fixed_cves distro pkg_name version cves ≡ found = cc in
            subst (In w) same (
              In-append_left w found others
                (subst (In w) same_here (fixed_cves-In parsers distro pkg_name version cve cves i)))
        | inr j ↦ subst (In w) same (
            In-append_right w found others
              (fixed_versions-In pkg_name version cve cves fixes others k j i y))
      ]

  fixed_packages-In :
      (version cve : Bytes) (cves : List Bytes) (p : Package) (packages : List Package)
      (vs : List VulnerabilityWithAffected)
      → valid parsers Dpkg.parser_name version ≡ ok true
      → In p packages
      → In (version, cves) p.fixes
      → In cve cves
      → fixed_packages {E = E} parsers o distro packages ≡ ok vs
      → In (vulnerability_of distro p.name version cve) vs
  unfolding fixed_packages
  fixed_packages-In version cve cves p [] vs k h f i e = absurd h
  fixed_packages-In version cve cves p (q ∷ packages) vs k h f i e =
      let w = vulnerability_of distro p.name version cve in
      let (found, x, e2) =
        >>=-ok (fixed_versions {E = E} parsers distro q.name (o.visit (Bytes × List Bytes) q.fixes))
          _ vs e in
      let (others, y, z) = >>=-ok (fixed_packages {E = E} parsers o distro packages) _ vs e2 in
      let same : found ++ others ≡ vs = cc in
      elim h [
        | inl s ↦ subst (In w) same (
            In-append_left w found others (
              fixed_versions-In p.name version cve cves (o.visit (Bytes × List Bytes) p.fixes) found
                k (visit-In _ o p.fixes f) i
                (ap
                    (λ (r : Package).
                      fixed_versions {E = E} parsers distro r.name
                        (o.visit (Bytes × List Bytes) r.fixes))
                    (sym s)
                  ∙ x)))
        | inr j ↦ subst (In w) same (
            In-append_right w found others
              (fixed_packages-In version cve cves p packages others k j f i y))
      ]

-- When the method Vulnerabilities returns, each vulnerability that it has found is that of a CVE which
-- the file gives for a version of a package, with that version of the package as the one feature it
-- affects, and dpkg's format accepts the version.
pub vulnerabilities-IsFix :
    {E : Type 0} (parsers : Parsers) (o : MapOrder) (file : SecDb)
    (vs : List VulnerabilityWithAffected)
    → vulnerabilities {E = E} parsers o (some file) ≡ ok vs
    → All (IsFix parsers file.distro file.packages) vs
unfolding vulnerabilities
vulnerabilities-IsFix parsers o file vs e =
    fixed_packages-IsFix parsers o file.distro file.packages file.packages vs
      (In-All file.packages file.packages (λ a j. j)) e

-- When the method Vulnerabilities returns, it has found, for each CVE that a version of a package
-- fixes, its vulnerability with that version of the package as the one feature it affects, if dpkg's
-- format accepts the version.
pub vulnerabilities-In :
    {E : Type 0} (parsers : Parsers) (o : MapOrder) (file : SecDb)
    (vs : List VulnerabilityWithAffected) (p : Package) (version cve : Bytes) (cves : List Bytes)
    → vulnerabilities {E = E} parsers o (some file) ≡ ok vs
    → In p file.packages
    → In (version, cves) p.fixes
    → In cve cves
    → valid parsers Dpkg.parser_name version ≡ ok true
    → In (vulnerability_of file.distro p.name version cve) vs
unfolding vulnerabilities
vulnerabilities-In parsers o file vs p version cve cves e h f i k =
    fixed_packages-In parsers o file.distro version cve cves p file.packages vs k h f i e
