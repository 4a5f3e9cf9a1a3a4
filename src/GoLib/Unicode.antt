-- ===== src/GoLib/Unicode.antt =====
-- unicode.IsDigit, IsLetter and IsNumber at a rune that was made from one byte, and the folding of an
-- ASCII letter.
use clair.Prelude.{ℕ, ◌+◌, Bool, ◌&&◌, ◌||◌, leb, ◌==◌, if◌then◌else◌}

unfoldable pub is_digit : ℕ → Bool
is_digit c = leb 48 c && leb c 57

-- The letters of Latin-1.
unfoldable pub is_letter : ℕ → Bool
is_letter c =
    leb 65 c && leb c 90
    || leb 97 c && leb c 122
    || c == 0xAA
    || c == 0xB5
    || c == 0xBA
    || leb 0xC0 c && leb c 0xD6
    || leb 0xD8 c && leb c 0xF6
    || leb 0xF8 c && leb c 0xFF

-- The numbers of Latin-1: the digits, the superscripts and the fractions.
unfoldable pub is_number : ℕ → Bool
unfolding is_digit
is_number c = is_digit c || leb 0xB2 c && leb c 0xB3 || c == 0xB9 || leb 0xBC c && leb c 0xBE

unfoldable pub to_lower : ℕ → ℕ
to_lower c = if leb 65 c && leb c 90 then c + 32 else c
