-- ===== src/VersionFmt/Dpkg/Key.antt =====
-- What a Debian version means: a sequence of ranks, one for each symbol of its text parts and one
-- for the value of each number. A text part ends with the rank 1.
use clair.GoLib.{is_digit, is_letter}
use clair.Prelude.{ℕ, ◌+◌, ◌-◌, ◌*◌, List, [], ◌∷◌, Bytes, ◌==◌, if◌then◌else◌}

-- The tilde comes before the end of the text, and that before the letters and the other symbols.
unfoldable pub rank : ℕ → ℕ
unfolding is_letter
rank r = if is_letter r then r + 1 else if r == b'~' then 0 else r + 257

-- Where the reader stands: in a text part, or in a number whose digits so far have a value.
pub data Mode : Type 0 where
  in_text : Mode
  in_number : ℕ → Mode

unfoldable pub key : Mode → Bytes → List ℕ
unfolding rank is_digit
key in_text [] = []
key in_text (c ∷ s) =
    let number = 1 ∷ key (in_number (c - 48)) s in
    let text = rank c ∷ key in_text s in if is_digit c then number else text
key (in_number n) [] = (n + 1) ∷ []
key (in_number n) (c ∷ s) =
    let number = key (in_number (n * 10 + (c - 48))) s in
    let text = (n + 1) ∷ rank c ∷ key in_text s in if is_digit c then number else text
