-- ===== src/VulnSrc/Debian/Severe.antt =====
-- What parseDebianJSON of ext/vulnsrc/debian/debian.go makes of a release that lists a feature as
-- affected.
use clair.Database.{AffectedFeature, VulnerabilityWithAffected}
use clair.Database.Releases.{debian_releases_mapping}
use clair.Database.Severity
use clair.VersionFmt.Driver.{Parsers}
use clair.VulnSrc.Debian.{
  JsonRel, JsonVuln, JsonData, Parsed, severity_from_urgency, or_new, raise, version_of, package_of,
  store, passed_over, round_of, known_release, nothing_parsed, slice_of, parse_packages,
  parse_debian_json,
}
use clair.VulnSrc.Debian.Loops.{packages-start}
use clair.Prelude.{
  Bytes, bytes_eq, true, false, Option, none, some, List, [], ◌∷◌, ◌++◌, map, get, put, get-put,
  get-In, In, In-append_left, In-append_right, visit-In, ◌===◌, ===_iff, ===-refl, pos, ltb_ℤ,
  MapOrder, ok, >>=-ok, ℕ, ◌-ℤ◌, ◌≡◌, refl, sym, ap, ◌∙◌, subst, arith, Bool-cases, inl, inr,
}

-- s is no higher than the severity of v.
abbrev pub AtMost : Bytes → VulnerabilityWithAffected → Type 0
AtMost s v = ltb_ℤ (pos 0) (Severity.compare s v.vulnerability.severity) ≡ false

-- The vulnerability k affects f, with a severity of s or higher.
abbrev Held : Bytes → AffectedFeature → Bytes → Parsed → Type 0
Held k f s p =
    (v : VulnerabilityWithAffected) × (get k p.vulnerabilities ≡ some v)
    × In f v.affected
    × AtMost s v

rank_trans :
    (a b c : ℕ)
    → ltb_ℤ (pos 0) (pos a -ℤ pos b) ≡ false
    → ltb_ℤ (pos 0) (pos c -ℤ pos b) ≡ true
    → ltb_ℤ (pos 0) (pos a -ℤ pos c) ≡ false
rank_trans a b c h k = ground arith

raise-AtMost : (s u : Bytes) (v : VulnerabilityWithAffected) → AtMost s v → AtMost s (raise u v)
unfolding raise Severity.compare
raise-AtMost s u v h =
    elim (Bool-cases (ltb_ℤ (pos 0) (Severity.compare u v.vulnerability.severity))) [
      | inl x ↦
          rw x (rank_trans _ (Severity.position v.vulnerability.severity Severity.severities) _ h x)
      | inr x ↦ rw x h
    ]

AtMost-raise : (s : Bytes) (v : VulnerabilityWithAffected) → AtMost s (raise s v)
unfolding raise Severity.compare
AtMost-raise s v = ground arith

raise-affected : (u : Bytes) (v : VulnerabilityWithAffected) → (raise u v).affected ≡ v.affected
unfolding raise
raise-affected u v = ground arith

In-raise :
    (f : AffectedFeature) (u : Bytes) (v : VulnerabilityWithAffected)
    → In f v.affected
    → In f (raise u v).affected
In-raise f u v h = subst (In f) (sym (raise-affected u v)) h

module _ (k : Bytes) (f : AffectedFeature) (s : Bytes) where
  put-Held :
      (vuln_name : Bytes) (w : VulnerabilityWithAffected) (p : Parsed)
      → ((v : VulnerabilityWithAffected)
          → get vuln_name p.vulnerabilities ≡ some v
          → In f v.affected
          → AtMost s v
          → In f w.affected × AtMost s w)
      → Held k f s p
      → Held k f s (record p { vulnerabilities = put vuln_name w p.vulnerabilities })
  put-Held vuln_name w p better (v, g, i, a) = elim (Bool-cases (vuln_name === k)) [
    | inl x ↦
        let same : vuln_name ≡ k = (===_iff vuln_name k).0 x in
        let kept = better v (ap (λ n. get n p.vulnerabilities) same ∙ g) i a in
        (w, get-put vuln_name k w p.vulnerabilities ∙ rw x refl, kept.0, kept.1)
    | inr x ↦ (v, get-put vuln_name k w p.vulnerabilities ∙ rw x g, i, a)
  ]

  store-Held :
      (found : Option VulnerabilityWithAffected) (u : Bytes) (node : JsonVuln)
      (pkg_name vuln_name number : Bytes) (version : Option Bytes) (p : Parsed)
      → get vuln_name p.vulnerabilities ≡ found
      → Held k f s p
      → Held k f s
          (store found (raise u (or_new found vuln_name node)) pkg_name vuln_name number version p)
  unfolding store
  store-Held none u node pkg_name vuln_name number none p g h = h
  store-Held (some w) u node pkg_name vuln_name number none p g h =
      put-Held vuln_name (raise u w) p
        (λ v e i a.
          let same : v ≡ w = cc in
          (
            In-raise f u w (subst (λ x. In f x.affected) same i),
            raise-AtMost s u w (subst (AtMost s) same a),
          ))
        h
  store-Held none u node pkg_name vuln_name number (some version) p g h =
      put-Held vuln_name _ p (λ v e i a. absurd (cc)) h
  store-Held (some w) u node pkg_name vuln_name number (some version) p g h =
      put-Held vuln_name _ p
        (λ v e i a.
          let same : v ≡ w = cc in
          (
            In-append_left f (raise u w).affected _
                (In-raise f u w (subst (λ x. In f x.affected) same i)),
            raise-AtMost s u w (subst (AtMost s) same a),
          ))
        h

  known_release-Held :
      {E : Type 0} (parsers : Parsers) (pkg_name vuln_name : Bytes) (node : JsonVuln)
      (release_name : Bytes) (rel : JsonRel) (number : Option Bytes) (p q : Parsed)
      → Held k f s p
      → known_release {E = E} parsers pkg_name vuln_name node release_name rel number p ≡ ok q
      → Held k f s q
  unfolding known_release
  known_release-Held parsers pkg_name vuln_name node release_name rel none p q h e =
      let same : record p { unknown_releases = put release_name tt p.unknown_releases } ≡ q = cc in
      subst (Held k f s) same h
  known_release-Held {E} parsers pkg_name vuln_name node release_name rel (some number) p q h e =
      elim (Bool-cases (passed_over vuln_name rel)) [
        | inl x ↦
            let y : ok p ≡ ok q = rw x at e in let same : p ≡ q = cc in subst (Held k f s) same h
        | inr x ↦
            let y : round_of {E = E} parsers pkg_name vuln_name node rel number p ≡ ok q =
              rw x at e in
            let (version, _, z) = >>=-ok (version_of {E = E} parsers rel) _ q y in
            let found = get vuln_name p.vulnerabilities in
            let same : store found
                  (raise (severity_from_urgency rel.urgency) (or_new found vuln_name node)) pkg_name
                  vuln_name number version p
                ≡ q =
              cc in
            subst (Held k f s) same (
              store-Held found (severity_from_urgency rel.urgency) node pkg_name vuln_name number
                version p refl h)
      ]

stored-Held :
    (found : Option VulnerabilityWithAffected) (u : Bytes) (node : JsonVuln)
    (pkg_name vuln_name number version : Bytes) (p : Parsed)
    → Held vuln_name (package_of pkg_name number version) u (
        store found
          (raise u (or_new found vuln_name node))
          pkg_name
          vuln_name
          number
          (some version)
          p)
unfolding store
stored-Held found u node pkg_name vuln_name number version p =
    let raised = raise u (or_new found vuln_name node) in
    let listed = package_of pkg_name number version in
    (
      record raised { affected = raised.affected ++ listed ∷ [] },
      get-put vuln_name vuln_name _ p.vulnerabilities ∙ rw (===-refl vuln_name) refl,
      In-append_right listed raised.affected (listed ∷ []) (inl refl),
      AtMost-raise u (or_new found vuln_name node),
    )

known_release-start :
    {E : Type 0} (parsers : Parsers) (pkg_name vuln_name : Bytes) (node : JsonVuln)
    (release_name : Bytes) (rel : JsonRel) (number version : Bytes) (p q : Parsed)
    → passed_over vuln_name rel ≡ false
    → version_of {E = E} parsers rel ≡ ok (some version)
    → known_release {E = E} parsers pkg_name vuln_name node release_name rel (some number) p ≡ ok q
    → Held vuln_name (package_of pkg_name number version) (severity_from_urgency rel.urgency) q
unfolding known_release
known_release-start {E} parsers pkg_name vuln_name node release_name rel number version p q x w e =
    let y : round_of {E = E} parsers pkg_name vuln_name node rel number p ≡ ok q = rw x at e in
    let (found_version, z, _) = >>=-ok (version_of {E = E} parsers rel) _ q y in
    let found = get vuln_name p.vulnerabilities in
    let u = severity_from_urgency rel.urgency in
    let taken : found_version ≡ some version = cc in
    let same : store found (raise u (or_new found vuln_name node)) pkg_name vuln_name number
          found_version p
        ≡ q =
      cc in
    subst (Held vuln_name (package_of pkg_name number version) u)
      (ap (λ t. store found (raise u (or_new found vuln_name node)) pkg_name vuln_name number t p)
          (sym taken)
        ∙ same)
      (stored-Held found u node pkg_name vuln_name number version p)

In-values :
    (k : Bytes) (v : VulnerabilityWithAffected) (l : List (Bytes × VulnerabilityWithAffected))
    → In (k, v) l
    → In v (map (λ (x : Bytes × VulnerabilityWithAffected). x.1) l)
In-values k v [] h = absurd h
In-values k v (x ∷ l) (inl e) = inl (ap (λ (z : Bytes × VulnerabilityWithAffected). z.1) e)
In-values k v (x ∷ l) (inr h) = inr (In-values k v l h)

-- When parseDebianJSON returns, every release of the document that is known, is not passed over and
-- has a version that counts stands as a feature in one of the vulnerabilities, whose severity is that
-- of the release's urgency or higher.
pub parse_debian_json-Severe :
    {E : Type 0} (parsers : Parsers) (o : MapOrder) (json : JsonData)
    (vs : List VulnerabilityWithAffected) (unknown : List (Bytes × Unit {0}))
    (pkg_name vuln_name release_name number version : Bytes) (nodes : List (Bytes × JsonVuln))
    (node : JsonVuln) (rel : JsonRel)
    → parse_debian_json {E = E} parsers o json ≡ ok (vs, unknown)
    → In (pkg_name, nodes) json
    → In (vuln_name, node) nodes
    → In (release_name, rel) node.releases
    → get release_name debian_releases_mapping ≡ some number
    → passed_over vuln_name rel ≡ false
    → version_of {E = E} parsers rel ≡ ok (some version)
    → (v : VulnerabilityWithAffected) × In v vs
      × In (package_of pkg_name number version) v.affected
      × AtMost (severity_from_urgency rel.urgency) v
unfolding parse_debian_json
parse_debian_json-Severe {E} parsers o json vs unknown pkg_name vuln_name release_name number
      version nodes node rel e i j r known x w =
    let visited = o.visit (Bytes × List (Bytes × JsonVuln)) json in
    let (p, y, _) =
      >>=-ok (parse_packages {E = E} parsers o visited nothing_parsed) _ (vs, unknown) e in
    let same : slice_of o p.vulnerabilities ≡ vs = cc in
    let f = package_of pkg_name number version in
    let u = severity_from_urgency rel.urgency in
    let (v, g, h, a) =
      packages-start parsers o (Held vuln_name f u) (known_release-Held vuln_name f u parsers)
        pkg_name vuln_name node release_name rel
        (λ p' q s.
          known_release-start parsers pkg_name vuln_name node release_name rel number version p' q x
            w
            (ap (λ n. known_release {E = E} parsers pkg_name vuln_name node release_name rel n p')
                (sym known)
              ∙ s))
        visited nodes nothing_parsed p r j (visit-In _ o json i) y in
    (
      v,
      subst (In v) same (
          In-values vuln_name v (o.visit (Bytes × VulnerabilityWithAffected) p.vulnerabilities)
            (visit-In _ o p.vulnerabilities (get-In vuln_name v p.vulnerabilities g))),
      h,
      a,
    )
