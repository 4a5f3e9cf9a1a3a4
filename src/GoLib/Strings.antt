-- ===== src/GoLib/Strings.antt =====
-- strings.TrimSpace, Index and LastIndex of one byte, slicing, and EqualFold against an ASCII text.
use mathlib.Core.List.{reverse}
use mathlib.Core.Option
use clair.GoLib.Unicode.{to_lower}
use clair.Prelude.{
  ℕ, zero, suc, ◌-◌, Bool, ◌&&◌, Option, none, some, List, [], ◌∷◌, ◌++◌, map, Bytes, length, take,
  drop, leb, ◌==◌, ◌===◌, bytes_eq, Bytes-discrete, if◌then◌else◌, Outcome, ok, panic,
}

-- What unicode.IsSpace accepts, as bytes of UTF-8.
abbrev spaces : List Bytes
spaces =
    map (λ c. c ∷ []) (9 ∷ 10 ∷ 11 ∷ 12 ∷ 13 ∷ 32 ∷ [])
    ++ (0xC2 ∷ 0x85 ∷ []) ∷ (0xC2 ∷ 0xA0 ∷ []) ∷ (0xE1 ∷ 0x9A ∷ 0x80 ∷ []) ∷ []
    ++ map (λ c. 0xE2 ∷ 0x80 ∷ c ∷ [])
        (0x80 ∷ 0x81 ∷ 0x82 ∷ 0x83 ∷ 0x84 ∷ 0x85 ∷ 0x86 ∷ 0x87 ∷ 0x88 ∷ 0x89 ∷ 0x8A ∷ 0xA8 ∷ 0xA9
          ∷ 0xAF ∷ [])
    ++ (0xE2 ∷ 0x81 ∷ 0x9F ∷ []) ∷ (0xE3 ∷ 0x80 ∷ 0x80 ∷ []) ∷ []

strip_prefix : Bytes → Bytes → Option Bytes
strip_prefix [] s = some s
strip_prefix (p ∷ ps) [] = none
strip_prefix (p ∷ ps) (c ∷ s) = if p == c then strip_prefix ps s else none

strip_any : List Bytes → Bytes → Option Bytes
unfolding strip_prefix
strip_any [] s = none
strip_any (p ∷ ps) s = elim (strip_prefix p s) [ some r ↦ some r | none ↦ strip_any ps s ]

-- Each round drops a byte at least, so the length of the text is fuel enough.
trim_front : List Bytes → ℕ → Bytes → Bytes
unfolding strip_any
trim_front ps zero s = s
trim_front ps (suc f) s = elim (strip_any ps s) [ some r ↦ trim_front ps f r | none ↦ s ]

unfoldable pub trim_space : Bytes → Bytes
unfolding trim_front
trim_space s =
    let t = reverse (trim_front spaces (length s) s) in
    reverse (trim_front (map reverse spaces) (length t) t)

-- strings.Index(s, c) for one byte; `none` is -1.
unfoldable pub index : Bytes → ℕ → Option ℕ
index [] c = none
index (d ∷ s) c = let rest = index s c in if d == c then some 0 else Option.map suc rest

-- strings.LastIndex(s, c) for one byte.
unfoldable pub last_index : Bytes → ℕ → Option ℕ
last_index [] c = none
last_index (d ∷ s) c = elim (last_index s c) [
  | some i ↦ some (suc i)
  | none ↦ if d == c then some 0 else none
]

-- s[i:j], which panics out of range.
unfoldable pub slice {ℓ} : {E : Type ℓ} → Bytes → ℕ → ℕ → Outcome E Bytes
slice s i j = if leb i j && leb j (length s) then ok (take (j - i) (drop i s)) else panic

-- The simple case folding of Unicode, as far as its image is ASCII: the Kelvin sign and the long s
-- fold to letters.
unfoldable pub fold : Bytes → Bytes
unfolding to_lower
fold [] = []
fold (a ∷ []) = to_lower a ∷ []
fold (a ∷ b ∷ []) = if a == 0xC5 && b == 0xBF then b's' ∷ [] else to_lower a ∷ to_lower b ∷ []
fold (a ∷ b ∷ c ∷ s) =
    let kelvin = fold s in
    let long_s = fold (c ∷ s) in
    let plain = fold (b ∷ c ∷ s) in
    if a == 0xE2 && b == 0x84 && c == 0xAA
    then b'k' ∷ kelvin
    else if a == 0xC5 && b == 0xBF
    then b's' ∷ long_s
    else to_lower a ∷ plain

-- strings.EqualFold(s, t) for a text t that is ASCII.
unfoldable pub equal_fold : Bytes → Bytes → Bool
unfolding fold Bytes-discrete
equal_fold s t = fold s === fold t
