-- ===== src/VulnSrc/Debian/Loops.antt =====
-- The three nested loops of parseDebianJSON: what each round keeps, and what one round sets up.
use clair.Database.Releases.{debian_releases_mapping}
use clair.VersionFmt.Driver.{Parsers}
use clair.VulnSrc.Debian.{
  JsonRel, JsonVuln, JsonData, Parsed, known_release, parse_releases, parse_vulnerabilities,
  parse_packages,
}
use clair.Prelude.{
  Bytes, bytes_eq, Option, List, [], ◌∷◌, get, In, visit-In, MapOrder, ok, >>=-ok, ◌≡◌, sym, ap,
  ◌∙◌, subst, inl, inr,
}

module _ {E : Type 0} (parsers : Parsers) (o : MapOrder) (I : Parsed → Type 0)
    (keeps : (pkg_name vuln_name : Bytes) (node : JsonVuln) (release_name : Bytes) (rel : JsonRel)
        (number : Option Bytes) (p q : Parsed)
      → I p
      → known_release {E = E} parsers pkg_name vuln_name node release_name rel number p ≡ ok q
      → I q) where
  releases-keep :
      (pkg_name vuln_name : Bytes) (node : JsonVuln) (rels : List (Bytes × JsonRel)) (p q : Parsed)
      → I p
      → parse_releases {E = E} parsers pkg_name vuln_name node rels p ≡ ok q
      → I q
  unfolding parse_releases
  releases-keep pkg_name vuln_name node [] p q h e = let same : p ≡ q = cc in subst I same h
  releases-keep pkg_name vuln_name node ((r, rel) ∷ rest) p q h e =
      let (next, x, y) =
        >>=-ok
          (known_release parsers pkg_name vuln_name node r rel (get r debian_releases_mapping) p) _
          q e in
      releases-keep pkg_name vuln_name node rest next q
        (keeps pkg_name vuln_name node r rel (get r debian_releases_mapping) p next h x) y

  vulnerabilities-keep :
      (pkg_name : Bytes) (nodes : List (Bytes × JsonVuln)) (p q : Parsed)
      → I p
      → parse_vulnerabilities {E = E} parsers o pkg_name nodes p ≡ ok q
      → I q
  unfolding parse_vulnerabilities
  vulnerabilities-keep pkg_name [] p q h e = let same : p ≡ q = cc in subst I same h
  vulnerabilities-keep pkg_name ((v, node) ∷ rest) p q h e =
      let (next, x, y) =
        >>=-ok (parse_releases parsers pkg_name v node (o.visit (Bytes × JsonRel) node.releases) p)
          _ q e in
      vulnerabilities-keep pkg_name rest next q
        (releases-keep pkg_name v node (o.visit (Bytes × JsonRel) node.releases) p next h x) y

  pub packages-keep :
      (json : JsonData) (p q : Parsed) → I p → parse_packages {E = E} parsers o json p ≡ ok q → I q
  unfolding parse_packages
  packages-keep [] p q h e = let same : p ≡ q = cc in subst I same h
  packages-keep ((pkg_name, nodes) ∷ rest) p q h e =
      let (next, x, y) =
        >>=-ok (parse_vulnerabilities parsers o pkg_name (o.visit (Bytes × JsonVuln) nodes) p) _ q
          e in
      packages-keep rest next q
        (vulnerabilities-keep pkg_name (o.visit (Bytes × JsonVuln) nodes) p next h x) y

  -- A round that sets up what the others keep.
  module _ (pkg_name vuln_name : Bytes) (node : JsonVuln) (release_name : Bytes) (rel : JsonRel)
      (starts : (p q : Parsed)
        → known_release {E = E} parsers pkg_name vuln_name node release_name rel
            (get release_name debian_releases_mapping)
            p
          ≡ ok q
        → I q) where
    releases-start :
        (rels : List (Bytes × JsonRel)) (p q : Parsed)
        → In (release_name, rel) rels
        → parse_releases {E = E} parsers pkg_name vuln_name node rels p ≡ ok q
        → I q
    unfolding parse_releases
    releases-start [] p q h e = absurd h
    releases-start ((r, rel') ∷ rest) p q (inl s) e =
        let (next, x, y) =
          >>=-ok
            (known_release parsers pkg_name vuln_name node r rel' (get r debian_releases_mapping) p)
            _ q e in
        releases-keep pkg_name vuln_name node rest next q
          (starts p next (
            ap
              (λ (z : Bytes × JsonRel).
                known_release {E = E} parsers pkg_name vuln_name node z.0 z.1
                  (get z.0 debian_releases_mapping) p)
              (sym s)
            ∙ x))
          y
    releases-start ((r, rel') ∷ rest) p q (inr h) e =
        let (next, x, y) =
          >>=-ok
            (known_release parsers pkg_name vuln_name node r rel' (get r debian_releases_mapping) p)
            _ q e in
        releases-start rest next q h y

    vulnerabilities-start :
        (nodes : List (Bytes × JsonVuln)) (p q : Parsed)
        → In (release_name, rel) node.releases
        → In (vuln_name, node) nodes
        → parse_vulnerabilities {E = E} parsers o pkg_name nodes p ≡ ok q
        → I q
    unfolding parse_vulnerabilities
    vulnerabilities-start [] p q r h e = absurd h
    vulnerabilities-start ((v, n) ∷ rest) p q r (inl s) e =
        let (next, x, y) =
          >>=-ok (parse_releases parsers pkg_name v n (o.visit (Bytes × JsonRel) n.releases) p) _ q
            e in
        vulnerabilities-keep pkg_name rest next q
          (releases-start (o.visit _ node.releases) p next (visit-In _ o node.releases r) (
            ap
              (λ (z : Bytes × JsonVuln).
                parse_releases {E = E} parsers pkg_name z.0 z.1
                  (o.visit (Bytes × JsonRel) z.1.releases) p)
              (sym s)
            ∙ x))
          y
    vulnerabilities-start ((v, n) ∷ rest) p q r (inr h) e =
        let (next, x, y) =
          >>=-ok (parse_releases parsers pkg_name v n (o.visit (Bytes × JsonRel) n.releases) p) _ q
            e in
        vulnerabilities-start rest next q r h y

    pub packages-start :
        (json : JsonData) (nodes : List (Bytes × JsonVuln)) (p q : Parsed)
        → In (release_name, rel) node.releases
        → In (vuln_name, node) nodes
        → In (pkg_name, nodes) json
        → parse_packages {E = E} parsers o json p ≡ ok q
        → I q
    unfolding parse_packages
    packages-start [] nodes p q r h k e = absurd k
    packages-start ((n, ns) ∷ rest) nodes p q r h (inl s) e =
        let (next, x, y) =
          >>=-ok (parse_vulnerabilities parsers o n (o.visit (Bytes × JsonVuln) ns) p) _ q e in
        packages-keep rest next q
          (vulnerabilities-start (o.visit _ nodes) p next r (visit-In _ o nodes h) (
            ap
              (λ (z : Bytes × List (Bytes × JsonVuln)).
                parse_vulnerabilities {E = E} parsers o z.0 (o.visit (Bytes × JsonVuln) z.1) p)
              (sym s)
            ∙ x))
          y
    packages-start ((n, ns) ∷ rest) nodes p q r h (inr k) e =
        let (next, x, y) =
          >>=-ok (parse_vulnerabilities parsers o n (o.visit (Bytes × JsonVuln) ns) p) _ q e in
        packages-start rest nodes next q r h k y
