-- ===== src/Tests/Formats.antt =====
-- A version format that accepts every version, for the theorems that take a registry of formats.
use clair.VersionFmt.Errors.{Parser}
use clair.VersionFmt.Driver.{Parsers}
use clair.Prelude.{true, [], ◌∷◌, codes, pos, ok}

abbrev pub accepts_all : Parser
accepts_all = record {
  valid = λ v. ok true;
  compare = λ v w. ok (pos 0);
  in_range = λ v w. ok true;
  get_fixed_in = λ v. ok v;
}

abbrev pub formats : Parsers
formats = (codes "rpm", accepts_all) ∷ (codes "dpkg", accepts_all) ∷ []
