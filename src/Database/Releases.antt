-- ===== src/Database/Releases.antt =====
-- database/namespace_mapping.go: version numbers of releases by their code names.
use clair.Prelude.{Bytes, List, [], ◌∷◌, codes}

abbrev pub debian_releases_mapping : List (Bytes × Bytes)
debian_releases_mapping =
    (codes "squeeze", codes "6")
    ∷ (codes "wheezy", codes "7")
    ∷ (codes "jessie", codes "8")
    ∷ (codes "stretch", codes "9")
    ∷ (codes "buster", codes "10")
    ∷ (codes "sid", codes "unstable")
    ∷ (codes "oldoldstable", codes "7")
    ∷ (codes "oldstable", codes "8")
    ∷ (codes "stable", codes "9")
    ∷ (codes "testing", codes "10")
    ∷ (codes "unstable", codes "unstable")
    ∷ []

abbrev pub ubuntu_releases_mapping : List (Bytes × Bytes)
ubuntu_releases_mapping =
    (codes "precise", codes "12.04")
    ∷ (codes "quantal", codes "12.10")
    ∷ (codes "raring", codes "13.04")
    ∷ (codes "trusty", codes "14.04")
    ∷ (codes "utopic", codes "14.10")
    ∷ (codes "vivid", codes "15.04")
    ∷ (codes "wily", codes "15.10")
    ∷ (codes "xenial", codes "16.04")
    ∷ (codes "yakkety", codes "16.10")
    ∷ (codes "zesty", codes "17.04")
    ∷ (codes "artful", codes "17.10")
    ∷ (codes "bionic", codes "18.04")
    ∷ []
