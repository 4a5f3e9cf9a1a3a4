-- ===== src/GoLib/Cases.antt =====
-- strings.ToLower and strings.Title, as far as their image is ASCII: a rune that folds to an ASCII
-- letter is folded, and any other byte beyond ASCII stays.
use clair.GoLib.Unicode.{is_digit, to_lower}
use clair.Prelude.{ℕ, ◌-◌, Bool, true, false, ◌&&◌, ◌||◌, [], ◌∷◌, Bytes, leb, ◌==◌, if◌then◌else◌}

-- The Kelvin sign and the dotted I have ASCII letters as their lower case.
unfoldable pub lower_text : Bytes → Bytes
unfolding to_lower
lower_text [] = []
lower_text (a ∷ []) = to_lower a ∷ []
lower_text (a ∷ b ∷ []) = if a == 0xC4 && b == 0xB0 then b'i' ∷ [] else to_lower a ∷ to_lower b ∷ []
lower_text (a ∷ b ∷ c ∷ s) =
    let kelvin = lower_text s in
    let dotted = lower_text (c ∷ s) in
    let plain = lower_text (b ∷ c ∷ s) in
    if a == 0xE2 && b == 0x84 && c == 0xAA
    then b'k' ∷ kelvin
    else if a == 0xC4 && b == 0xB0
    then b'i' ∷ dotted
    else to_lower a ∷ plain

unfoldable pub to_upper : ℕ → ℕ
to_upper c = if leb 97 c && leb c 122 then c - 32 else c

-- Letters, digits and the underscore do not end a word, nor does a byte beyond ASCII here.
abbrev in_word : ℕ → Bool
in_word c = is_digit c || leb 65 c && leb c 90 || leb 97 c && leb c 122 || c == 95 || leb 128 c

-- The first letter of each word goes to title case; `inside` says that the text before ends in a
-- word. The dotless i and the long s have ASCII letters as their title case.
unfoldable pub title_from : Bool → Bytes → Bytes
unfolding to_upper
title_from inside [] = []
title_from true (a ∷ s) = a ∷ title_from (in_word a) s
title_from false (a ∷ []) = to_upper a ∷ []
title_from false (a ∷ b ∷ s) =
    let folded = title_from true s in
    let plain = title_from (in_word a) (b ∷ s) in
    if a == 0xC4 && b == 0xB1
    then b'I' ∷ folded
    else if a == 0xC5 && b == 0xBF
    then b'S' ∷ folded
    else to_upper a ∷ plain

unfoldable pub title : Bytes → Bytes
unfolding title_from
title s = title_from false s
