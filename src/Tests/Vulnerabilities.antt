-- ===== src/Tests/Vulnerabilities.antt =====
-- The theorems on the changes of vulnerabilities.
use clair.Database.{
  find_by, VulnerabilityId, vulnerability_id_eq, AffectedFeature, VulnerabilityWithAffected,
}
use clair.Updater.Changes.{is_vulnerability_changed}
use clair.Updater.Changes.Changed.{
  keys, is_vulnerability_changed_iff, is_vulnerability_changed-keys,
}
use clair.Updater.Changes.{ChangeMap, find_changes}
use clair.Updater.Changes.Found.{find_changes_lem, expected}
use clair.Updater.Namespacing.{
  feature_malformed, vulnerability_malformed, split_all, do_vulnerabilities_namespacing,
}
use clair.Updater.Namespacing.WellFormed.{IsSplit, do_vulnerabilities_namespacing-IsSplit}
use clair.Updater.Namespacing.Kept.{do_vulnerabilities_namespacing_keeps}
use clair.Prelude.{
  All, In, get, in_order, inl, inr, ◌⊎◌, true, false, none, some, [], ◌∷◌, Bytes, bytes_eq, codes,
  length, elem, Unique, ◌≡◌, ◌↔◌, refl,
}

abbrev affects : Bytes → AffectedFeature
affects fixed = record {
  affected_type = codes "binary";
  namespace = record { name = codes "debian:9"; version_format = codes "dpkg" };
  feature_name = codes "openssl";
  fixed_in_version = fixed;
  affected_version = fixed;
}

-- A vulnerability that is fixed in a version.
abbrev fixed_in : Bytes → VulnerabilityWithAffected
fixed_in fixed = record {
  vulnerability = record {
    name = codes "CVE-1";
    namespace = record { name = codes "debian:9"; version_format = codes "dpkg" };
    description = [];
    link = [];
    severity = codes "High";
    metadata = none;
  };
  affected = affects fixed ∷ [];
}

is_vulnerability_changed_iff_example :
    (is_vulnerability_changed false (some (fixed_in (codes "1"))) (some (fixed_in (codes "2")))
      ≡ false)
    ↔ ((codes "High" ≡ codes "High")
        × (length (affects (codes "1") ∷ []) ≡ length (affects (codes "2") ∷ []))
        × Unique (keys (affects (codes "2") ∷ []))
        × ((k : Bytes)
            → elem k (keys (affects (codes "2") ∷ [])) ≡ true
            → elem k (keys (affects (codes "1") ∷ [])) ≡ true))
is_vulnerability_changed_iff_example =
    is_vulnerability_changed_iff (fixed_in (codes "1")) (fixed_in (codes "2"))

is_vulnerability_changed-keys_example :
    is_vulnerability_changed false (some (fixed_in (codes "1"))) (some (fixed_in (codes "1")))
    ≡ is_vulnerability_changed false (some (fixed_in (codes "1"))) (some (fixed_in (codes "2")))
is_vulnerability_changed-keys_example =
    is_vulnerability_changed-keys (fixed_in (codes "1")) (fixed_in (codes "1"))
      (fixed_in (codes "2")) refl refl

-- A vulnerability of no namespace that affects two distributions.
abbrev affects_in : Bytes → AffectedFeature
affects_in name = record (affects (codes "1")) {
  namespace = record { name = name; version_format = codes "dpkg" };
}

abbrev two_distributions : VulnerabilityWithAffected
two_distributions = record {
  vulnerability = record (fixed_in (codes "1")).vulnerability {
    namespace = record { name = []; version_format = [] };
  };
  affected = affects_in (codes "debian:9") ∷ affects_in (codes "ubuntu:18.04") ∷ [];
}

do_vulnerabilities_namespacing-IsSplit_example :
    All
      (λ w. (vulnerability_malformed w.vulnerability ≡ false) × IsSplit (two_distributions ∷ []) w)
      (do_vulnerabilities_namespacing in_order (two_distributions ∷ []))
do_vulnerabilities_namespacing-IsSplit_example =
    do_vulnerabilities_namespacing-IsSplit in_order (two_distributions ∷ [])

-- The second of its features.
ubuntu-In : In (affects_in (codes "ubuntu:18.04")) two_distributions.affected
ubuntu-In = inr (inl refl)

two_distributions-In : In two_distributions (two_distributions ∷ [])
two_distributions-In = inl refl

ubuntu-WellFormed : feature_malformed (affects_in (codes "ubuntu:18.04")) ≡ false
unfolding feature_malformed
ubuntu-WellFormed = refl

do_vulnerabilities_namespacing_keeps_example :
    (w : VulnerabilityWithAffected) × (get
        (codes "ubuntu:18.04:CVE-1")
        (split_all [] (two_distributions ∷ []))
      ≡ some w)
    × In (affects_in (codes "ubuntu:18.04")) w.affected
    × ((vulnerability_malformed w.vulnerability ≡ true)
        ⊎ In w (do_vulnerabilities_namespacing in_order (two_distributions ∷ [])))
do_vulnerabilities_namespacing_keeps_example =
    do_vulnerabilities_namespacing_keeps in_order (two_distributions ∷ []) two_distributions
      (affects_in (codes "ubuntu:18.04")) two_distributions-In ubuntu-In ubuntu-WellFormed

find_changes_lem_example :
    (m : ChangeMap) × (find_changes (fixed_in (codes "1") ∷ []) (fixed_in (codes "2") ∷ [])
      ≡ some m)
    × ((id : VulnerabilityId)
        → get id m
          ≡ expected
              (find_by id (fixed_in (codes "1") ∷ []))
              (find_by id (fixed_in (codes "2") ∷ [])))
find_changes_lem_example =
    find_changes_lem (fixed_in (codes "1") ∷ []) (fixed_in (codes "2") ∷ []) (refl, tt) (refl, tt)
