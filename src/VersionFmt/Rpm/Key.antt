-- ===== src/VersionFmt/Rpm/Key.antt =====
-- What an RPM version means: a sequence of ranks. A tilde is 0, a word is 2 with its letters and an
-- end, and a number is 3 with its value.
use clair.Prelude.{ℕ, suc, ◌+◌, ◌-◌, ◌*◌, List, [], ◌∷◌, Bytes, if◌then◌else◌, ◌==◌}
use clair.GoLib.{is_digit}
use clair.VersionFmt.Rpm.Rpmvercmp.{first_rune}

unfoldable pub value : ℕ → Bytes → ℕ
value n [] = n
value n (c ∷ s) = value (n * 10 + (c - 48)) s

unfoldable pub word_key : Bytes → List ℕ → List ℕ
word_key [] rest = 0 ∷ rest
word_key (c ∷ s) rest = suc c ∷ word_key s rest

unfoldable pub key : List Bytes → List ℕ
key [] = []
key (a ∷ as_left) =
    let rest = key as_left in
    if first_rune a == b'~'
    then 0 ∷ rest
    else if is_digit (first_rune a)
    then 3 ∷ value 0 a ∷ rest
    else 2 ∷ word_key a rest
