-- ===== src/VulnSrc/Debian/Update.antt =====
-- The method Update and buildResponse of ext/vulnsrc/debian/debian.go. The download gives the document
-- as JSON decodes it, beside the hash of its bytes.
use clair.Database.Session.{Datastore}
use clair.Database.Transactions.{find_key_value_and_rollback}
use clair.VersionFmt.Driver.{Parsers}
use clair.VulnSrc.Source.{
  SourceError, could_not_parse, UpdateResponse, no_response, or_could_not_download, with_flag,
}
use clair.VulnSrc.Debian.{JsonData, parse_debian_json}
use clair.Prelude.{
  Bytes, bytes_eq, Option, none, some, ◌++◌, map, codes, ◌===◌, MapOrder, Outcome, ok, err, ◌>>=◌,
  if◌then◌else◌,
}

pub record Download : Type 0 where
  pub decoded : Option JsonData
  pub hash : Bytes

abbrev pub updater_flag : Bytes
updater_flag = codes "debianUpdater"

abbrev pub note_of : Bytes → Bytes
note_of k =
    codes "Debian "
    ++ k
    ++ codes " is not mapped to any version number (eg. Jessie->8). Please update me."

-- The flag of a response that is no error, which buildResponse sets on its way out.
abbrev pub with_hash : Bytes → UpdateResponse → UpdateResponse
with_hash hash r = record r { flag_name = updater_flag; flag_value = hash }

unfoldable pub parse_response :
    {E : Type 0} → Parsers → MapOrder → JsonData → Outcome (SourceError E) UpdateResponse
unfolding parse_debian_json
parse_response parsers o json = do
  (vs, unknown) ← parse_debian_json parsers o json
  ok (record no_response {
    vulnerabilities = vs;
    notes = map (λ (x : Bytes × Unit {0}). note_of x.0) (o.visit (Bytes × Unit {0}) unknown);
  })

unfoldable pub build_response :
    {E : Type 0}
    → Parsers
    → MapOrder
    → Option JsonData
    → Bytes
    → Bytes
    → Outcome (SourceError E) UpdateResponse
unfolding parse_response
build_response parsers o none hash latest_known_hash = err could_not_parse
build_response parsers o (some json) hash latest_known_hash =
    if latest_known_hash === hash
    then ok (with_hash hash no_response)
    else parse_response parsers o json >>= λ r. ok (with_hash hash r)

unfoldable pub update :
    (d : Datastore)
    → Parsers
    → MapOrder
    → Option Download
    → d.Store
    → Outcome (SourceError d.Error) UpdateResponse
unfolding build_response
update d parsers o download store =
    with_flag (find_key_value_and_rollback d updater_flag store) (λ latest.
      or_could_not_download download >>= λ (x : Download).
      build_response parsers o x.decoded x.hash latest)
