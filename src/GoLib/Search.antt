-- ===== src/GoLib/Search.antt =====
-- strings.HasPrefix, Index of a text, Contains, and Replace of every occurrence of a text that is not
-- empty.
use mathlib.Core.Option
use clair.Prelude.{
  ℕ, zero, suc, ◌-◌, Bool, true, false, Option, none, some, [], ◌∷◌, ◌++◌, Bytes, length, is_empty,
  ◌==◌, if◌then◌else◌,
}

unfoldable pub has_prefix : Bytes → Bytes → Bool
has_prefix s [] = true
has_prefix [] (p ∷ ps) = false
has_prefix (c ∷ s) (p ∷ ps) = if c == p then has_prefix s ps else false

-- `none` is -1.
unfoldable pub index_text : Bytes → Bytes → Option ℕ
unfolding has_prefix
index_text [] p = if is_empty p then some 0 else none
index_text (c ∷ s) p =
    let rest = index_text s p in if has_prefix (c ∷ s) p then some 0 else Option.map suc rest

unfoldable pub contains : Bytes → Bytes → Bool
unfolding index_text
contains s p = elim (index_text s p) [ some _ ↦ true | none ↦ false ]

-- `skip` bytes of an occurrence are still to be passed over.
unfoldable pub replace_from : Bytes → Bytes → ℕ → Bytes → Bytes
unfolding has_prefix
replace_from old new skip [] = []
replace_from old new (suc skip) (c ∷ s) = replace_from old new skip s
replace_from old new zero (c ∷ s) =
    let found = replace_from old new (length old - 1) s in
    let kept = replace_from old new 0 s in if has_prefix (c ∷ s) old then new ++ found else c ∷ kept

unfoldable pub replace_all : Bytes → Bytes → Bytes → Bytes
unfolding replace_from
replace_all s old new = replace_from old new 0 s
