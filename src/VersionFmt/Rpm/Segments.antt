-- ===== src/VersionFmt/Rpm/Segments.antt =====
-- The matches of alphanumPattern.
use clair.VersionFmt.Rpm.Rpmvercmp.{
  Class, alpha, numeric, tilde, other, class_of, joins, flush, begin, scan, find_all_string,
}
use clair.Prelude.{
  ℕ, Bool, true, false, [], ◌∷◌, ◌++◌, Bytes, All, All-append, if◌then◌else◌, ◌≡◌, refl, inl, inr,
  arith, Bool-cases,
}

-- The bytes of a match have one class, and a tilde stands alone.
abbrev pub IsOf : Class → Bytes → Type 0
IsOf k a = All (λ c. class_of c ≡ k) a

pub data IsSegment : Bytes → Type 0 where
  word : (c : ℕ) (s : Bytes) → IsOf alpha (c ∷ s) → IsSegment (c ∷ s)
  number : (c : ℕ) (s : Bytes) → IsOf numeric (c ∷ s) → IsSegment (c ∷ s)
  mark : (a : Bytes) → a ≡ b'~' ∷ [] → IsSegment a

-- The match so far, with its class.
data IsCurrent : Class → Bytes → Type 0 where
  in_word : (c : ℕ) (s : Bytes) → IsOf alpha (c ∷ s) → IsCurrent alpha (c ∷ s)
  in_number : (c : ℕ) (s : Bytes) → IsOf numeric (c ∷ s) → IsCurrent numeric (c ∷ s)
  at_mark : (a : Bytes) → a ≡ b'~' ∷ [] → IsCurrent tilde a
  outside : (a : Bytes) → a ≡ [] → IsCurrent other a

flush-IsSegment : {k : Class} {a : Bytes} → IsCurrent k a → All IsSegment (flush a)
flush-IsSegment (in_word c s h) = (word c s h, tt)
flush-IsSegment (in_number c s h) = (number c s h, tt)
flush-IsSegment (at_mark a e) = rw e (mark _ refl, tt)
flush-IsSegment (outside a e) = rw e tt

class_of-tilde : (c : ℕ) → class_of c ≡ tilde → c ≡ b'~'
unfolding class_of
class_of-tilde c h = ground arith

begin-IsCurrent : (k : Class) (c : ℕ) → class_of c ≡ k → IsCurrent k (begin k c)
begin-IsCurrent alpha c h = in_word c [] (h, tt)
begin-IsCurrent numeric c h = in_number c [] (h, tt)
begin-IsCurrent tilde c h = at_mark (c ∷ []) (rw (class_of-tilde c h))
begin-IsCurrent other c h = outside [] refl

grow-IsCurrent :
    {k : Class} {a : Bytes} (m : Class) (c : ℕ)
    → class_of c ≡ m
    → IsCurrent k a
    → joins k m ≡ true
    → IsCurrent m (a ++ c ∷ [])
grow-IsCurrent alpha c h (in_word d s w) j =
    in_word d (s ++ c ∷ []) (w.0, All-append _ s (c ∷ []) w.1 (h, tt))
grow-IsCurrent numeric c h (in_number d s w) j =
    in_number d (s ++ c ∷ []) (w.0, All-append _ s (c ∷ []) w.1 (h, tt))
grow-IsCurrent tilde c h (in_word d s w) j = absurd (cc)
grow-IsCurrent other c h (in_word d s w) j = absurd (cc)
grow-IsCurrent _ c h _ j = absurd (cc)

next-IsCurrent :
    {k : Class} {a : Bytes} (c : ℕ)
    → IsCurrent k a
    → IsCurrent (class_of c) (if joins k (class_of c) then a ++ c ∷ [] else begin (class_of c) c)
next-IsCurrent {k} {a} c h = elim (Bool-cases (joins k (class_of c))) [
  | inl j ↦ rw j (grow-IsCurrent (class_of c) c refl h j)
  | inr j ↦ rw j (begin-IsCurrent (class_of c) c refl)
]

emit-IsSegment :
    {k : Class} {a : Bytes} (b : Bool) → IsCurrent k a → All IsSegment (if b then [] else flush a)
emit-IsSegment true h = tt
emit-IsSegment false h = flush-IsSegment h

scan-IsSegment : (s : Bytes) {k : Class} {a : Bytes} → IsCurrent k a → All IsSegment (scan k a s)
unfolding scan
scan-IsSegment [] h = flush-IsSegment h
scan-IsSegment (c ∷ s) {k} {a} h =
    All-append _ _ _ (emit-IsSegment (joins k (class_of c)) h)
      (scan-IsSegment s (next-IsCurrent c h))

-- For every text, each match is a tilde, a nonempty word of ASCII letters or a nonempty number.
pub find_all_string-IsSegment : (s : Bytes) → All IsSegment (find_all_string s)
unfolding find_all_string
find_all_string-IsSegment s = scan-IsSegment s (outside [] refl)
