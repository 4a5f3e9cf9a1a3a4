-- ===== src/Tests/Fetches.antt =====
-- The theorem on fetch of updater.go at concrete values.
use clair.VulnSrc.Source.{UpdateResponse}
use clair.Updater.Fetch.{Updater, Fetched, fetch}
use clair.Updater.Fetch.Collected.{all_answer, IsFlag, fetch-Collected}
use clair.Prelude.{
  ℕ, Bytes, Bytes-discrete, ℕ_discrete, false, List, [], ◌∷◌, codes, All, in_order, ok, err, ◌≡◌,
  refl,
}

abbrev response : UpdateResponse
response = record {
  flag_name = codes "debianUpdater";
  flag_value = codes "17";
  notes = codes "note" ∷ [];
  vulnerabilities = [];
}

-- The second updater fails, and the third is not enabled.
abbrev updaters : List (Bytes × Updater ℕ ℕ)
updaters =
    (codes "debian", λ store. ok response)
    ∷ (codes "rhel", λ store. err 5)
    ∷ (codes "ubuntu", λ store. err 5)
    ∷ []

abbrev enabled : List Bytes
enabled = codes "rhel" ∷ codes "debian" ∷ []

abbrev fetched : Fetched
fetched = record {
  status = false;
  vulnerabilities = [];
  flags = (codes "debianUpdater", codes "17") ∷ [];
  notes = codes "note" ∷ [];
}

all_fetched : fetch in_order enabled updaters [] 0 ≡ ok fetched
unfolding fetch Bytes-discrete ℕ_discrete clair.Updater.Namespacing.do_vulnerabilities_namespacing
    clair.Prelude.put clair.Updater.Namespacing.respond clair.Updater.Namespacing.split_all
all_fetched = refl

fetch-Collected_example :
    (false ≡ all_answer enabled 0 updaters)
    × All (λ (x : Bytes × Bytes). IsFlag enabled 0 updaters x.0 x.1) fetched.flags
fetch-Collected_example = fetch-Collected in_order enabled 0 updaters [] fetched all_fetched
