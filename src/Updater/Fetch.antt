-- ===== src/Updater/Fetch.antt =====
-- fetch, addMetadata and updaterEnabled of updater.go. The updaters stand in the order in which their
-- responses arrive, and each appender of metadata runs to its end before the next.
pub mod Collected
use clair.Database.{Vulnerability, VulnerabilityWithAffected}
use clair.VulnSrc.Source.{UpdateResponse}
use clair.Updater.Namespacing.{do_vulnerabilities_namespacing, append_func}
use clair.Prelude.{
  Bytes, bytes_eq, Bool, true, false, ◌||◌, Option, none, some, List, [], ◌∷◌, ◌++◌, map, any, put,
  is_empty, ◌===◌, if◌then◌else◌, MapOrder, Outcome, ok, err, panic, hang, ◌>>=◌,
}

abbrev pub updater_enabled : List Bytes → Bytes → Bool
updater_enabled enabled updater_name = any (λ u. u === updater_name) enabled

-- The method Update of a registered updater.
abbrev pub Updater : Type 0 → Type 0 → Type 0
Updater Store E = Store → Outcome E UpdateResponse

-- The variables of fetch.
pub record Fetched : Type 0 where
  pub status : Bool
  pub vulnerabilities : List VulnerabilityWithAffected
  pub flags : List (Bytes × Bytes)
  pub notes : List Bytes

abbrev pub nothing_fetched : Fetched
nothing_fetched = record { status = true; vulnerabilities = []; flags = []; notes = [] }

abbrev pub set_flag : UpdateResponse → List (Bytes × Bytes) → List (Bytes × Bytes)
set_flag resp flags =
    if is_empty resp.flag_name || is_empty resp.flag_value
    then flags
    else put resp.flag_name resp.flag_value flags

-- What a response adds; one that fails only says so.
unfoldable pub add_response :
    {E : Type 0} → MapOrder → Outcome E UpdateResponse → Fetched → Outcome E Fetched
add_response o (ok resp) f = ok (record {
  status = f.status;
  vulnerabilities = f.vulnerabilities ++ do_vulnerabilities_namespacing o resp.vulnerabilities;
  flags = set_flag resp f.flags;
  notes = f.notes ++ resp.notes;
})
add_response o (err _) f = ok (record f { status = false })
add_response o panic f = panic
add_response o hang f = hang

-- The loops that start the enabled updaters and collect their results.
unfoldable pub collect_responses :
    {Store E : Type 0}
    → MapOrder
    → List Bytes
    → Store
    → List (Bytes × Updater Store E)
    → Fetched
    → Outcome E Fetched
unfolding add_response
collect_responses o enabled store [] f = ok f
collect_responses o enabled store ((updater_name, update) ∷ updaters) f = do
  next ← if updater_enabled enabled updater_name then add_response o (update store) f else ok f
  collect_responses o enabled store updaters next

-- An Appender: whether BuildCache has an error, and then the calls of the append function that Append
-- makes for the name of a vulnerability.
pub record Appender (Store : Type 0) : Type 0 where
  pub build_cache : Store → Option Bytes
  pub append : Store → Bytes → List (Bytes × Bytes × Bytes)

unfoldable pub append_calls : List (Bytes × Bytes × Bytes) → Vulnerability → Vulnerability
unfolding append_func
append_calls [] v = v
append_calls ((key, metadata, severity) ∷ calls) v =
    append_calls calls (append_func v key metadata severity)

abbrev pub append_metadata :
    {Store : Type 0}
    → Appender Store
    → Store
    → Option Bytes
    → List VulnerabilityWithAffected
    → List VulnerabilityWithAffected
append_metadata a store (some _) vulnerabilities = vulnerabilities
append_metadata a store none vulnerabilities =
    map
      (λ (v : VulnerabilityWithAffected). record v {
        vulnerability = append_calls (a.append store v.vulnerability.name) v.vulnerability;
      })
      vulnerabilities

unfoldable pub add_metadata :
    {Store : Type 0}
    → Store
    → List (Appender Store)
    → List VulnerabilityWithAffected
    → List VulnerabilityWithAffected
unfolding append_calls
add_metadata store [] vulnerabilities = vulnerabilities
add_metadata store (a ∷ appenders) vulnerabilities =
    add_metadata store appenders (append_metadata a store (a.build_cache store) vulnerabilities)

unfoldable pub fetch :
    {Store E : Type 0}
    → MapOrder
    → List Bytes
    → List (Bytes × Updater Store E)
    → List (Appender Store)
    → Store
    → Outcome E Fetched
unfolding collect_responses add_metadata
fetch o enabled updaters appenders store = do
  f ← collect_responses o enabled store updaters nothing_fetched
  ok (record f { vulnerabilities = add_metadata store appenders f.vulnerabilities })
