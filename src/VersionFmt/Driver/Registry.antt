-- ===== src/VersionFmt/Driver/Registry.antt =====
-- RegisterParser and GetParser of ext/versionfmt/driver.go.
use clair.VersionFmt.Errors.{Parser}
use clair.VersionFmt.Driver.{Parsers, get_parser, register_parser}
use clair.Prelude.{
  none, some, Bytes, bytes_eq, ◌===◌, if◌then◌else◌, ok, ◌≡◌, refl, arith, Option-cases, inl, inr,
  ===-eq-false, ◌∙◌, ◌∷◌,
}

-- What a registration that returns has tested and done.
register_parser-ok :
    (parsers after : Parsers) (name : Bytes) (p : Parser)
    → register_parser parsers name (some p) ≡ ok after
    → (get_parser parsers name ≡ none) × (after ≡ (name, p) ∷ parsers)
unfolding register_parser
register_parser-ok parsers after name p h = elim (Option-cases (get_parser parsers name)) [
  | inl e ↦ (e, ground arith)
  | inr (q, e) ↦ absurd (ground arith)
]

-- After a registration that returns, a lookup of any name finds the new parser exactly under the
-- registered name, and what it found before under every other.
pub get_parser-register_parser :
    (parsers after : Parsers) (name : Bytes) (p : Parser) (format : Bytes)
    → register_parser parsers name (some p) ≡ ok after
    → get_parser after format ≡ (if name === format then some p else get_parser parsers format)
get_parser-register_parser parsers after name p format h =
    rw ((register_parser-ok parsers after name p h).1) (unfold get_parser in refl)

-- A format that is known keeps its parser under every later registration that returns.
pub register_parser-keeps :
    (parsers after : Parsers) (name : Bytes) (p q : Parser) (format : Bytes)
    → get_parser parsers format ≡ some q
    → register_parser parsers name (some p) ≡ ok after
    → get_parser after format ≡ some q
register_parser-keeps parsers after name p q format known h =
    get_parser-register_parser parsers after name p format h
    ∙ rw (===-eq-false name format differ) known
  where
    differ : ¬ (name ≡ format)
    differ e = cc (known, e, (register_parser-ok parsers after name p h).0)
