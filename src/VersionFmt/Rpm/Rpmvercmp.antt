-- ===== src/VersionFmt/Rpm/Rpmvercmp.antt =====
-- rpmvercmp of ext/versionfmt/rpm/parser.go, and the regular expression alphanumPattern.
use clair.GoLib.{is_digit, is_number}
use clair.Prelude.{
  ℕ, Bool, true, false, not, ◌&&◌, ◌||◌, List, [], ◌∷◌, ◌++◌, Bytes, bytes_eq, length, ltb, leb,
  ◌==◌, ◌===◌, if◌then◌else◌, ℤ, pos, negsuc, eqb_ℤ,
}

-- The alternatives of ([a-zA-Z]+)|([0-9]+)|(~), and what no match holds.
pub data Class : Type 0 where
  alpha numeric tilde other : Class

unfoldable pub is_ascii_letter : ℕ → Bool
is_ascii_letter c = leb 65 c && leb c 90 || leb 97 c && leb c 122

unfoldable pub class_of : ℕ → Class
unfolding is_ascii_letter is_digit
class_of c =
    if is_ascii_letter c
    then alpha
    else if is_digit c
    then numeric
    else if c == b'~'
    then tilde
    else other

-- A match grows by a byte of its own class; a tilde is a match by itself.
abbrev pub joins : Class → Class → Bool
joins alpha alpha = true
joins numeric numeric = true
joins _ _ = false

abbrev pub flush : Bytes → List Bytes
flush [] = []
flush (c ∷ s) = (c ∷ s) ∷ []

abbrev pub begin : Class → ℕ → Bytes
begin other c = []
begin _ c = c ∷ []

-- alphanumPattern.FindAllString: the match so far with its class, and the text to read.
unfoldable pub scan : Class → Bytes → Bytes → List Bytes
unfolding class_of
scan k current [] = flush current
scan k current (c ∷ s) =
    let again = joins k (class_of c) in
    (if again then [] else flush current)
    ++ scan (class_of c) (if again then current ++ c ∷ [] else begin (class_of c) c) s

unfoldable pub find_all_string : Bytes → List Bytes
unfolding scan
find_all_string s = scan other [] s

-- []rune(a)[0]; no match is empty.
abbrev pub first_rune : Bytes → ℕ
first_rune [] = 0
first_rune (c ∷ s) = c

-- strings.TrimLeft(a, "0").
unfoldable pub trim_zeros : Bytes → Bytes
trim_zeros [] = []
trim_zeros (c ∷ s) = if c == b'0' then trim_zeros s else c ∷ s

-- a < b and a > b on Go strings.
unfoldable pub compare_text : Bytes → Bytes → ℤ
compare_text [] [] = pos 0
compare_text [] (d ∷ t) = negsuc 0
compare_text (c ∷ s) [] = pos 1
compare_text (c ∷ s) (d ∷ t) =
    let rest = compare_text s t in if ltb c d then negsuc 0 else if ltb d c then pos 1 else rest

-- What is left of a round where the two matches are numbers, and where they are letters.
unfoldable pub compare_numbers : Bytes → Bytes → ℤ
compare_numbers a b =
    if ltb (length b) (length a)
    then pos 1
    else if ltb (length a) (length b)
    then negsuc 0
    else compare_text a b

-- One round of the loop over the matches: 0 goes on to the next pair.
unfoldable pub compare_segment : Bytes → Bytes → ℤ
compare_segment a b =
    let tilde_a = first_rune a == b'~' in
    let tilde_b = first_rune b == b'~' in
    if tilde_a && tilde_b
    then pos 0
    else if tilde_a && not tilde_b
    then negsuc 0
    else if not tilde_a && tilde_b
    then pos 1
    else if is_number (first_rune a)
    then if not (is_number (first_rune b))
      then pos 1
      else compare_numbers (trim_zeros a) (trim_zeros b)
    else if is_number (first_rune b)
    then negsuc 0
    else compare_text a b

-- The loop, and the tests behind it on what the longer list has left.
unfoldable pub compare_segments : List Bytes → List Bytes → ℤ
compare_segments [] [] = pos 0
compare_segments (a ∷ as_left) [] = if first_rune a == b'~' then negsuc 0 else pos 1
compare_segments [] (b ∷ bs) = if first_rune b == b'~' then pos 1 else negsuc 0
compare_segments (a ∷ as_left) (b ∷ bs) =
    let rest = compare_segments as_left bs in
    let here = compare_segment a b in if eqb_ℤ here (pos 0) then rest else here

unfoldable pub rpmvercmp : Bytes → Bytes → ℤ
rpmvercmp a b = if a === b then pos 0 else compare_segments (find_all_string a) (find_all_string b)
