-- ===== src/VulnSrc/Oval/Listing.antt =====
-- The regular expressions of rhel.go and oracle.go, `<prefix>(\d+).xml`, whose dots stand for any
-- byte: what FindStringSubmatch captures in a line of a listing in ASCII.
use mathlib.Core.Option
use clair.GoLib.{is_digit}
use clair.Prelude.{
  Bytes, not, ◌&&◌, ◌||◌, Option, none, some, [], ◌∷◌, ◌++◌, codes, ◌==◌, if◌then◌else◌,
}

abbrev or_else : Option Bytes → Option Bytes → Option Bytes
or_else (some a) b = some a
or_else none b = b

-- What stands behind a match of the template at the front of the text.
unfoldable pub match_template : Bytes → Bytes → Option Bytes
match_template [] s = some s
match_template (t ∷ ts) [] = none
match_template (t ∷ ts) (c ∷ s) =
    if t == c || t == b'.' && not (c == 10) then match_template ts s else none

abbrev end_of_match : Bytes → Bytes → Option Bytes
end_of_match digits s = Option.map (λ _. digits) (match_template (codes ".xml") s)

-- The digits are as many as the rest allows.
unfoldable pub match_digits : Bytes → Bytes → Option Bytes
unfolding match_template
match_digits digits [] = none
match_digits digits (c ∷ s) =
    let longer = match_digits (digits ++ c ∷ []) s in
    if is_digit c then or_else longer (end_of_match (digits ++ c ∷ []) s) else none

abbrev match_here : Bytes → Bytes → Option Bytes
match_here prefix s = elim (match_template prefix s) [
  | none ↦ none
  | some rest ↦ match_digits [] rest
]

-- The leftmost match.
unfoldable pub find_submatch : Bytes → Bytes → Option Bytes
unfolding match_digits
find_submatch prefix [] = match_here prefix []
find_submatch prefix (c ∷ s) = or_else (match_here prefix (c ∷ s)) (find_submatch prefix s)
