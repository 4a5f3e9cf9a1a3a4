-- ===== src/VulnSrc/Debian/Parse.antt =====
-- What parseDebianJSON of ext/vulnsrc/debian/debian.go returns.
use clair.Database.{VulnerabilityWithAffected}
use clair.VersionFmt.Driver.{Parsers}
use clair.VulnSrc.Debian.{
  JsonVuln, JsonData, nothing_parsed, slice_of, parse_packages, parse_debian_json,
}
use clair.VulnSrc.Debian.Loops.{packages-keep}
use clair.VulnSrc.Debian.Accepted.{Tracked, AllTracked, known_release-AllTracked}
use clair.Prelude.{Bytes, List, [], ◌∷◌, map, All, visit-All, MapOrder, ok, >>=-ok, ◌≡◌, sym, subst}

module _ (parsers : Parsers) where
  values-Tracked :
      (l : List (Bytes × VulnerabilityWithAffected))
      → All (λ (x : Bytes × VulnerabilityWithAffected). Tracked parsers x.0 x.1) l
      → All
          (λ (v : VulnerabilityWithAffected). Tracked parsers v.vulnerability.name v)
          (map (λ (x : Bytes × VulnerabilityWithAffected). x.1) l)
  values-Tracked [] h = tt
  values-Tracked (x ∷ l) h =
      (subst (λ k. Tracked parsers k x.1) (sym h.0.1.0) h.0, values-Tracked l h.1)

  -- Each vulnerability that parseDebianJSON returns has the name of a CVE and a severity of the scale,
  -- and affects something; what it affects has a version that dpkg's format accepts or the greatest
  -- one, and the updater keeps it unless its package has an empty name.
  pub parse_debian_json-Tracked :
      {E : Type 0} (o : MapOrder) (json : JsonData) (vs : List VulnerabilityWithAffected)
      (unknown : List (Bytes × Unit {0}))
      → parse_debian_json {E = E} parsers o json ≡ ok (vs, unknown)
      → All (λ (v : VulnerabilityWithAffected). Tracked parsers v.vulnerability.name v) vs
  unfolding parse_debian_json
  parse_debian_json-Tracked {E} o json vs unknown e =
      let (p, x, y) =
        >>=-ok
          (parse_packages {E = E} parsers o (o.visit (Bytes × List (Bytes × JsonVuln)) json)
            nothing_parsed)
          _ (vs, unknown) e in
      let same : slice_of o p.vulnerabilities ≡ vs = cc in
      let tracked : AllTracked parsers p =
        packages-keep parsers o (AllTracked parsers) (known_release-AllTracked parsers)
          (o.visit (Bytes × List (Bytes × JsonVuln)) json) nothing_parsed p tt x in
      subst (All (λ (v : VulnerabilityWithAffected). Tracked parsers v.vulnerability.name v)) same (
        values-Tracked (o.visit (Bytes × VulnerabilityWithAffected) p.vulnerabilities)
          (visit-All _ o p.vulnerabilities tracked))
