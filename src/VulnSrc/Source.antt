-- ===== src/VulnSrc/Source.antt =====
-- ext/vulnsrc/driver.go: what an updater answers with. The errors are those of the datastore and what
-- the sources use of pkg/commonerr.
use clair.Database.{VulnerabilityWithAffected}
use clair.Prelude.{
  ℤ, Bytes, Option, none, some, List, [], ◌∷◌, ◌++◌, ◌>>=◌, Outcome, ok, err, panic, hang,
}

pub data SourceError (E : Type 0) : Type 0 where
  of_datastore : E → SourceError E
  could_not_download : SourceError E
  could_not_parse : SourceError E

pub record UpdateResponse : Type 0 where
  pub flag_name : Bytes
  pub flag_value : Bytes
  pub notes : List Bytes
  pub vulnerabilities : List VulnerabilityWithAffected

abbrev pub no_response : UpdateResponse
no_response = record { flag_name = []; flag_value = []; notes = []; vulnerabilities = [] }

-- What the network answers: the body of the list of documents, and each document by its number.
-- `none` is a request that fails or has another status than 2xx.
pub record Web (Document : Type 0) : Type 0 where
  pub listing : Option Bytes
  pub document : ℤ → Option Document

abbrev pub or_could_not_download : {A E : Type 0} → Option A → Outcome (SourceError E) A
or_could_not_download none = err could_not_download
or_could_not_download (some a) = ok a

-- The loop over a list of documents: each is downloaded, then parsed.
unfoldable pub collect :
    {Document E : Type 0}
    → (Document → Outcome (SourceError E) (List VulnerabilityWithAffected))
    → Web Document
    → List ℤ
    → Outcome (SourceError E) (List VulnerabilityWithAffected)
collect parse web [] = ok []
collect parse web (number ∷ list) = do
  document ← or_could_not_download (web.document number)
  vs ← parse document
  rest ← collect parse web list
  ok (vs ++ rest)

-- The flag of the last run, "" where there is none.
abbrev pub flag_value : Option Bytes → Bytes
flag_value none = []
flag_value (some value) = value

abbrev pub with_flag {ℓ} :
    {E : Type 0} {A : Type ℓ}
    → Outcome E (Option Bytes)
    → (Bytes → Outcome (SourceError E) A)
    → Outcome (SourceError E) A
with_flag (ok found) k = k (flag_value found)
with_flag (err e) k = err (of_datastore e)
with_flag panic k = panic
with_flag hang k = hang
