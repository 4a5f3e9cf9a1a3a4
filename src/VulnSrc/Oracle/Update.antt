-- ===== src/VulnSrc/Oracle/Update.antt =====
-- The method Update of ext/vulnsrc/oracle/oracle.go, and parseELSA over a document that may be refused.
use clair.GoLib.{atoi, atoi_value, itoa, scan_lines}
use clair.Database.{VulnerabilityWithAffected}
use clair.Database.Session.{Datastore}
use clair.Database.Transactions.{find_key_value_and_rollback}
use clair.VersionFmt.Driver.{Parsers}
use clair.VulnSrc.Source.{
  SourceError, could_not_parse, UpdateResponse, no_response, Web, or_could_not_download, collect,
  with_flag,
}
use clair.VulnSrc.Oval.Listing.{find_submatch}
use clair.VulnSrc.Oracle.{Definition, parse_definitions}
use clair.Prelude.{
  Bytes, Option, none, some, List, [], ◌∷◌, codes, if◌then◌else◌, ℤ, pos, neg, length, eqb_ℤ, ltb_ℤ,
  MapOrder, Outcome, ok, err, ◌>>=◌,
}

abbrev pub first_oracle5_elsa : ℤ
first_oracle5_elsa = pos 20070057

abbrev pub elsa_prefix : Bytes
elsa_prefix = codes "com.oracle.elsa-"

abbrev pub updater_flag : Bytes
updater_flag = codes "oracleUpdater"

-- The first ELSA that there is to manage.
abbrev pub not_zero : Option ℤ → ℤ
not_zero none = first_oracle5_elsa
not_zero (some n) = if eqb_ℤ n (pos 0) then first_oracle5_elsa else n

unfoldable pub first_elsa : Bytes → ℤ
first_elsa flag = not_zero (atoi flag)

-- The loop of compareELSA over the digits: a number that goes on where the other ends is the greater.
unfoldable pub compare_digits : Bytes → Bytes → ℤ
compare_digits [] rs = neg (pos (length rs))
compare_digits (l ∷ ls) [] = pos 1
compare_digits (l ∷ ls) (r ∷ rs) =
    let rest = compare_digits ls rs in
    let ldigit = atoi_value (l ∷ []) in
    let rdigit = atoi_value (r ∷ []) in
    if ltb_ℤ rdigit ldigit then pos 1 else if ltb_ℤ ldigit rdigit then neg (pos 1) else rest

unfoldable pub compare_elsa : ℤ → ℤ → ℤ
unfolding compare_digits
compare_elsa left right =
    if eqb_ℤ right left then pos 0 else compare_digits (itoa left) (itoa right)

-- The loop of `largest`, which starts from 0.
unfoldable pub largest : ℤ → List ℤ → ℤ
largest so_far [] = so_far
largest so_far (element ∷ list) = largest (if ltb_ℤ so_far element then element else so_far) list

-- The loop over the lines of the listing.
abbrev pub add_number : ℤ → Option Bytes → List ℤ → List ℤ
add_number first none rest = rest
add_number first (some digits) rest =
    if ltb_ℤ (pos 0) (compare_elsa (atoi_value digits) first)
    then atoi_value digits ∷ rest
    else rest

unfoldable pub elsa_list : ℤ → List Bytes → List ℤ
elsa_list first [] = []
elsa_list first (line ∷ lines) =
    add_number first (find_submatch elsa_prefix line) (elsa_list first lines)

unfoldable pub parse_elsa :
    {E : Type 0}
    → Parsers
    → MapOrder
    → Option (List Definition)
    → Outcome (SourceError E) (List VulnerabilityWithAffected)
parse_elsa parsers o none = err could_not_parse
parse_elsa parsers o (some definitions) = parse_definitions parsers o definitions

-- The flag is set if anything was found.
abbrev pub respond : List ℤ → List VulnerabilityWithAffected → UpdateResponse
respond [] vs = record no_response { vulnerabilities = vs }
respond (elsa ∷ list) vs = record {
  flag_name = updater_flag;
  flag_value = itoa (largest (pos 0) (elsa ∷ list));
  notes = [];
  vulnerabilities = vs;
}

module _ {E : Type 0} (parsers : Parsers) (o : MapOrder)
    (web : Web (Option (List Definition))) where
  unfoldable pub update_from : Bytes → Outcome (SourceError E) UpdateResponse
  unfolding first_elsa elsa_list parse_elsa
  update_from flag = do
    body ← or_could_not_download web.listing
    let list = elsa_list (first_elsa flag) (scan_lines body)
    vs ← collect (parse_elsa parsers o) web list
    ok (respond list vs)

unfoldable pub update :
    (d : Datastore)
    → Parsers
    → MapOrder
    → Web (Option (List Definition))
    → d.Store
    → Outcome (SourceError d.Error) UpdateResponse
update d parsers o web store =
    with_flag (find_key_value_and_rollback d updater_flag store) (update_from parsers o web)
