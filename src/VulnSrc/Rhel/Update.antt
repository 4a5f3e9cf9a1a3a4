-- ===== src/VulnSrc/Rhel/Update.antt =====
-- The method Update of ext/vulnsrc/rhel/rhel.go, and parseRHSA over a document that may be refused.
use clair.GoLib.{atoi, atoi_value, itoa, scan_lines}
use clair.Database.{VulnerabilityWithAffected}
use clair.Database.Session.{Datastore}
use clair.Database.Transactions.{find_key_value_and_rollback}
use clair.VersionFmt.Driver.{Parsers}
use clair.VulnSrc.Source.{
  SourceError, could_not_parse, UpdateResponse, no_response, Web, or_could_not_download, collect,
  with_flag,
}
use clair.VulnSrc.Oval.Listing.{find_submatch}
use clair.VulnSrc.Rhel.{Definition, parse_definitions}
use clair.Prelude.{
  Bytes, Option, none, some, List, [], ◌∷◌, codes, if◌then◌else◌, ℤ, pos, eqb_ℤ, ltb_ℤ, MapOrder,
  Outcome, ok, err, ◌>>=◌,
}

abbrev pub first_rhel5_rhsa : ℤ
first_rhel5_rhsa = pos 20070044

abbrev pub rhsa_prefix : Bytes
rhsa_prefix = codes "com.redhat.rhsa-"

abbrev pub updater_flag : Bytes
updater_flag = codes "rhelUpdater"

-- The first RHSA that there is to manage.
abbrev pub not_zero : Option ℤ → ℤ
not_zero none = first_rhel5_rhsa
not_zero (some n) = if eqb_ℤ n (pos 0) then first_rhel5_rhsa else n

unfoldable pub first_rhsa : Bytes → ℤ
first_rhsa flag = not_zero (atoi flag)

-- The loop over the lines of the listing.
abbrev pub add_number : ℤ → Option Bytes → List ℤ → List ℤ
add_number first none rest = rest
add_number first (some digits) rest =
    if ltb_ℤ first (atoi_value digits) then atoi_value digits ∷ rest else rest

unfoldable pub rhsa_list : ℤ → List Bytes → List ℤ
rhsa_list first [] = []
rhsa_list first (line ∷ lines) =
    add_number first (find_submatch rhsa_prefix line) (rhsa_list first lines)

unfoldable pub parse_rhsa :
    {E : Type 0}
    → Parsers
    → MapOrder
    → Option (List Definition)
    → Outcome (SourceError E) (List VulnerabilityWithAffected)
parse_rhsa parsers o none = err could_not_parse
parse_rhsa parsers o (some definitions) = parse_definitions parsers o definitions

abbrev pub last : ℤ → List ℤ → ℤ
last n [] = n
last n (m ∷ list) = last m list

-- The flag is set if anything was found.
abbrev pub respond : List ℤ → List VulnerabilityWithAffected → UpdateResponse
respond [] vs = record no_response { vulnerabilities = vs }
respond (rhsa ∷ list) vs = record {
  flag_name = updater_flag;
  flag_value = itoa (last rhsa list);
  notes = [];
  vulnerabilities = vs;
}

module _ {E : Type 0} (parsers : Parsers) (o : MapOrder)
    (web : Web (Option (List Definition))) where
  unfoldable pub update_from : Bytes → Outcome (SourceError E) UpdateResponse
  unfolding first_rhsa rhsa_list parse_rhsa
  update_from flag = do
    body ← or_could_not_download web.listing
    let list = rhsa_list (first_rhsa flag) (scan_lines body)
    vs ← collect (parse_rhsa parsers o) web list
    ok (respond list vs)

unfoldable pub update :
    (d : Datastore)
    → Parsers
    → MapOrder
    → Web (Option (List Definition))
    → d.Store
    → Outcome (SourceError d.Error) UpdateResponse
update d parsers o web store =
    with_flag (find_key_value_and_rollback d updater_flag store) (update_from parsers o web)
