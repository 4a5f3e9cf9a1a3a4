-- ===== src/VersionFmt/Dpkg/Verrevcmp.antt =====
-- verrevcmp of ext/versionfmt/dpkg/parser.go. A text stands for the pair (t, rt) of the code: its
-- first byte is *rt, the bytes behind it are t, and the empty text is the pair with a nil rune.
use clair.GoLib.{is_digit, is_letter}
use clair.Prelude.{
  ℕ, zero, suc, ◌+◌, Bool, false, not, ◌&&◌, ◌||◌, Option, none, some, [], ◌∷◌, Bytes, length,
  is_empty, ◌==◌, if◌then◌else◌, ℤ, pos, negsuc, ◌-ℤ◌, eqb_ℤ, ltb_ℤ,
}

-- Letters come before the other symbols, and a tilde before everything.
unfoldable pub order : ℕ → ℤ
order r =
    if is_digit r
    then pos 0
    else if is_letter r
    then pos r
    else if r == b'~'
    then negsuc 0
    else pos (r + 256)

-- The rune at the front and the text behind it.
unfoldable pub next_rune : Bytes → Bytes × Option ℕ
next_rune [] = ([], none)
next_rune (c ∷ s) = (s, some c)

abbrev pub starts_digit : Bytes → Bool
starts_digit [] = false
starts_digit (c ∷ s) = is_digit c

abbrev pub starts_text : Bytes → Bool
starts_text [] = false
starts_text (c ∷ s) = not (is_digit c)

abbrev pub order_first : Bytes → ℤ
order_first [] = pos 0
order_first (c ∷ s) = order c

-- The loop over what is no digit: it returns a difference, or leaves two texts.
pub data Text : Type 0 where
  differ : ℤ → Text
  rest : Bytes → Bytes → Text

abbrev pub compare_first : Bytes → Bytes → Text → Text
compare_first a b again =
    if starts_text a || starts_text b
    then if eqb_ℤ (order_first a) (order_first b)
      then again
      else differ (order_first a -ℤ order_first b)
    else rest a b

unfoldable pub skip_text : Bytes → Bytes → Text
skip_text [] [] = rest [] []
skip_text (c ∷ s) [] = compare_first (c ∷ s) [] (skip_text s [])
skip_text [] (d ∷ t) = compare_first [] (d ∷ t) (skip_text [] t)
skip_text (c ∷ s) (d ∷ t) = compare_first (c ∷ s) (d ∷ t) (skip_text s t)

unfoldable pub skip_zeros : Bytes → Bytes
skip_zeros [] = []
skip_zeros (c ∷ s) = if c == b'0' then skip_zeros s else c ∷ s

-- The loop over digits, with `first_diff` and the two texts.
pub record Digits : Type 0 where
  pub first_diff : ℤ
  pub left : Bytes
  pub right : Bytes

unfoldable pub skip_digits : ℤ → Bytes → Bytes → Digits
skip_digits diff (c ∷ s) (d ∷ t) =
    let more = skip_digits (if eqb_ℤ diff (pos 0) then pos c -ℤ pos d else diff) s t in
    if is_digit c && is_digit d
    then more
    else record { first_diff = diff; left = c ∷ s; right = d ∷ t }
skip_digits diff a b = record { first_diff = diff; left = a; right = b }

-- What a round does behind the digits: `again` is the next round.
abbrev pub after_digits : Digits → Option ℤ → Option ℤ
after_digits n again =
    if starts_digit n.left
    then some (pos 1)
    else if starts_digit n.right
    then some (negsuc 0)
    else if eqb_ℤ n.first_diff (pos 0)
    then again
    else some n.first_diff

-- A round behind the loop over text; `next` is the next round.
unfoldable pub after_text : Text → (Bytes → Bytes → Option ℤ) → Option ℤ
unfolding skip_zeros skip_digits
after_text (differ d) next = some d
after_text (rest a b) next =
    let n = skip_digits (pos 0) (skip_zeros a) (skip_zeros b) in
    after_digits n (next n.left n.right)

-- The outer loop on fuel.
unfoldable pub rounds : ℕ → Bytes → Bytes → Option ℤ
unfolding skip_text after_text
rounds zero a b = none
rounds (suc f) a b =
    let round = after_text (skip_text a b) (rounds f) in
    if is_empty a && is_empty b then some (pos 0) else round

-- A round takes a byte away, or ends the loop.
unfoldable pub verrevcmp : Bytes → Bytes → Option ℤ
unfolding rounds order
verrevcmp t1 t2 = rounds (suc (length t1 + length t2)) t1 t2

unfoldable pub signum : ℤ → ℤ
signum a = if ltb_ℤ a (pos 0) then negsuc 0 else if ltb_ℤ (pos 0) a then pos 1 else pos 0
