-- ===== src/VersionFmt/Rpm/Refines.antt =====
-- rpmvercmp of ext/versionfmt/rpm/parser.go, and the meanings of the two texts.
use clair.GoLib.{is_digit, is_number}
use clair.VersionFmt.Ranks.{compare_ranks, compare_rank, compare_ranks_self, compare_ranks_swap}
use clair.VersionFmt.Orders.{compare_ℕ}
use clair.VersionFmt.Rpm.Rpmvercmp.{
  alpha, numeric, is_ascii_letter, class_of, find_all_string, first_rune, trim_zeros, compare_text,
  compare_numbers, compare_segment, compare_segments, rpmvercmp,
}
use clair.VersionFmt.Rpm.Key.{key, value, word_key}
use clair.VersionFmt.Rpm.Numbers.{
  AllDigits, value-trim_zeros, trim_zeros-AllDigits, starts_zero-trim_zeros, compare_numbers-value,
}
use clair.VersionFmt.Rpm.Segments.{IsOf, IsSegment, word, number, mark, find_all_string-IsSegment}
use clair.Prelude.{
  ℕ, true, false, List, [], ◌∷◌, Bytes, All, bytes_eq, ◌===◌, ===_iff, ◌==◌, if◌then◌else◌, ◌≡◌,
  refl, inl, inr, arith, Bool-cases, ℤ, pos, negsuc, eqb_ℤ, ◌∙◌, sym, neg, ap,
}

IsOf-AllDigits : (a : Bytes) → IsOf numeric a → AllDigits a
unfolding class_of is_digit
IsOf-AllDigits [] h = tt
IsOf-AllDigits (c ∷ s) h = (digit c h.0, IsOf-AllDigits s h.1)
  where
    digit : (d : ℕ) → class_of d ≡ numeric → is_digit d ≡ true
    digit d e = ground arith

letter_facts :
    (c : ℕ)
    → class_of c ≡ alpha
    → (is_digit c ≡ false) × (is_number c ≡ false) × ((c == b'~') ≡ false)
unfolding class_of is_ascii_letter is_digit is_number
letter_facts c h = ground arith

digit_facts :
    (c : ℕ)
    → class_of c ≡ numeric
    → (is_digit c ≡ true) × (is_number c ≡ true) × ((c == b'~') ≡ false)
unfolding class_of is_ascii_letter is_digit is_number
digit_facts c h = ground arith

-- Two numbers compare by value.
compare_trimmed :
    (a b : Bytes)
    → IsOf numeric a
    → IsOf numeric b
    → compare_numbers (trim_zeros a) (trim_zeros b) ≡ compare_ℕ (value 0 a) (value 0 b)
compare_trimmed a b h k =
    compare_numbers-value (trim_zeros a) (trim_zeros b)
      (trim_zeros-AllDigits a (IsOf-AllDigits a h)) (trim_zeros-AllDigits b (IsOf-AllDigits b k))
      (starts_zero-trim_zeros a) (starts_zero-trim_zeros b)
    ∙ rw (value-trim_zeros a, value-trim_zeros b)

abbrev or_else : ℤ → ℤ → ℤ
or_else here rest = if eqb_ℤ here (pos 0) then rest else here

-- Two words compare as texts.
word_key-compare :
    (a b : Bytes) (xs ys : List ℕ)
    → compare_ranks (word_key a xs) (word_key b ys)
      ≡ or_else (compare_text a b) (compare_ranks xs ys)
unfolding word_key compare_text compare_ranks
word_key-compare [] [] xs ys = refl
word_key-compare [] (d ∷ t) xs ys = ground arith
word_key-compare (c ∷ s) [] xs ys = ground arith
word_key-compare (c ∷ s) (d ∷ t) xs ys = ground (arith, word_key-compare s t xs ys)

compare_ℕ-rank : (m n : ℕ) (rest : ℤ) → compare_rank m n rest ≡ or_else (compare_ℕ m n) rest
compare_ℕ-rank m n rest = ground arith

-- The key of a match in front of others.
key-word :
    (c : ℕ) (s : Bytes) (rest : List Bytes)
    → class_of c ≡ alpha
    → key ((c ∷ s) ∷ rest) ≡ 2 ∷ word_key (c ∷ s) (key rest)
unfolding key
key-word c s rest h = let (x, y, z) = letter_facts c h in rw (z, x)

key-number :
    (c : ℕ) (s : Bytes) (rest : List Bytes)
    → class_of c ≡ numeric
    → key ((c ∷ s) ∷ rest) ≡ 3 ∷ value 0 (c ∷ s) ∷ key rest
unfolding key
key-number c s rest h = let (x, y, z) = digit_facts c h in rw (z, x)

key-mark : (a : Bytes) (rest : List Bytes) → a ≡ b'~' ∷ [] → key (a ∷ rest) ≡ 0 ∷ key rest
unfolding key
key-mark a rest h = rw h

Meant : Bytes → Bytes → List Bytes → List Bytes → Type 0
Meant a b as_left bs =
    compare_ranks (key (a ∷ as_left)) (key (b ∷ bs))
    ≡ or_else (compare_segment a b) (compare_ranks (key as_left) (key bs))

compare_segment-Meant :
    (a b : Bytes) (as_left bs : List Bytes) → IsSegment a → IsSegment b → Meant a b as_left bs
unfolding Meant
compare_segment-Meant a b as_left bs (word c s h) (word d t k) =
    let (x, y, z) = letter_facts c h.0 in
    let (x', y', z') = letter_facts d k.0 in
    rw (key-word c s as_left h.0, key-word d t bs k.0)
      (unfold compare_ranks compare_segment in
        rw (z, z', y, y') (word_key-compare (c ∷ s) (d ∷ t) _ _))
compare_segment-Meant a b as_left bs (word c s h) (number d t k) =
    let (x, y, z) = letter_facts c h.0 in
    let (x', y', z') = digit_facts d k.0 in
    rw (key-word c s as_left h.0, key-number d t bs k.0)
      (unfold compare_ranks compare_segment in rw (z, z', y, y'))
compare_segment-Meant a b as_left bs (number c s h) (word d t k) =
    let (x, y, z) = digit_facts c h.0 in
    let (x', y', z') = letter_facts d k.0 in
    rw (key-number c s as_left h.0, key-word d t bs k.0)
      (unfold compare_ranks compare_segment in rw (z, z', y, y'))
compare_segment-Meant a b as_left bs (number c s h) (number d t k) =
    let (x, y, z) = digit_facts c h.0 in
    let (x', y', z') = digit_facts d k.0 in
    rw (key-number c s as_left h.0, key-number d t bs k.0)
      (unfold compare_ranks compare_segment in
        rw (z, z', y, y', compare_trimmed (c ∷ s) (d ∷ t) h k)
          (compare_ℕ-rank (value 0 (c ∷ s)) (value 0 (d ∷ t))
            (compare_ranks (key as_left) (key bs))))
compare_segment-Meant a b as_left bs (mark _ e) (mark _ f) =
    rw (e, f, key-mark (b'~' ∷ []) as_left refl, key-mark (b'~' ∷ []) bs refl)
      (unfold compare_ranks compare_segment in refl)
compare_segment-Meant a b as_left bs (mark _ e) (word d t k) =
    let (x, y, z) = letter_facts d k.0 in
    rw (e, key-mark (b'~' ∷ []) as_left refl, key-word d t bs k.0)
      (unfold compare_ranks compare_segment in rw z)
compare_segment-Meant a b as_left bs (mark _ e) (number d t k) =
    let (x, y, z) = digit_facts d k.0 in
    rw (e, key-mark (b'~' ∷ []) as_left refl, key-number d t bs k.0)
      (unfold compare_ranks compare_segment in rw z)
compare_segment-Meant a b as_left bs (word d t k) (mark _ e) =
    let (x, y, z) = letter_facts d k.0 in
    rw (e, key-mark (b'~' ∷ []) bs refl, key-word d t as_left k.0)
      (unfold compare_ranks compare_segment in rw z)
compare_segment-Meant a b as_left bs (number d t k) (mark _ e) =
    let (x, y, z) = digit_facts d k.0 in
    rw (e, key-mark (b'~' ∷ []) bs refl, key-number d t as_left k.0)
      (unfold compare_ranks compare_segment in rw z)

Meant_lem :
    (a b : Bytes) (as_left bs : List Bytes)
    → IsSegment a
    → IsSegment b
    → compare_ranks (key (a ∷ as_left)) (key (b ∷ bs))
      ≡ or_else (compare_segment a b) (compare_ranks (key as_left) (key bs))
unfolding Meant
Meant_lem = compare_segment-Meant

-- A match that the other text lacks: a tilde comes before the end, and anything else after it.
left_over : Bytes → ℤ
left_over a = if first_rune a == b'~' then negsuc 0 else pos 1

key-end :
    (a : Bytes) (as_left : List Bytes)
    → IsSegment a
    → compare_ranks (key (a ∷ as_left)) [] ≡ left_over a
unfolding left_over
key-end a as_left (word c s h) =
    let (x, y, z) = letter_facts c h.0 in
    rw (key-word c s as_left h.0, z) (unfold compare_ranks in refl)
key-end a as_left (number c s h) =
    let (x, y, z) = digit_facts c h.0 in
    rw (key-number c s as_left h.0, z) (unfold compare_ranks in refl)
key-end a as_left (mark _ e) =
    rw (e, key-mark (b'~' ∷ []) as_left refl) (unfold compare_ranks in refl)

neg-left_over : (a : Bytes) → neg (left_over a) ≡ (if first_rune a == b'~' then pos 1 else negsuc 0)
unfolding left_over
neg-left_over a = ground arith

key-nil : key [] ≡ []
unfolding key
key-nil = refl

compare_segments-key :
    (as_left bs : List Bytes)
    → All IsSegment as_left
    → All IsSegment bs
    → compare_segments as_left bs ≡ compare_ranks (key as_left) (key bs)
unfolding compare_segments
compare_segments-key [] [] x y = unfold key compare_ranks in refl
compare_segments-key (a ∷ as_left) [] x y =
    rw (key-nil, key-end a as_left x.0) (unfold left_over in refl)
compare_segments-key [] (b ∷ bs) x y =
    rw (key-nil, compare_ranks_swap (key (b ∷ bs)) [], key-end b bs y.0, neg-left_over b)
compare_segments-key (a ∷ as_left) (b ∷ bs) x y =
    ap (or_else (compare_segment a b)) (compare_segments-key as_left bs x.1 y.1)
    ∙ sym (Meant_lem a b as_left bs x.0 y.0)

-- What a text means: the key of its matches.
abbrev pub text_key : Bytes → List ℕ
text_key a = key (find_all_string a)

-- For all texts rpmvercmp gives the order of the two meanings: words as texts, numbers by their
-- values, a number after a word, and a tilde before the end of the text.
pub rpmvercmp-key : (a b : Bytes) → rpmvercmp a b ≡ compare_ranks (text_key a) (text_key b)
unfolding rpmvercmp
rpmvercmp-key a b = elim (Bool-cases (a === b)) [
  | inl e ↦ rw (e, (===_iff a b).0 e, compare_ranks_self (text_key b))
  | inr e ↦
      rw e (compare_segments-key _ _ (find_all_string-IsSegment a) (find_all_string-IsSegment b))
]
