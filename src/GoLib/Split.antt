-- ===== src/GoLib/Split.antt =====
-- strings.Split by a separator of one byte.
use clair.Prelude.{ℕ, Bytes, List, [], ◌∷◌, ◌==◌, if◌then◌else◌}

abbrev with_first : ℕ → List Bytes → List Bytes
with_first c [] = (c ∷ []) ∷ []
with_first c (part ∷ parts) = (c ∷ part) ∷ parts

unfoldable pub split : Bytes → ℕ → List Bytes
split [] sep = [] ∷ []
split (c ∷ s) sep = let rest = split s sep in if c == sep then [] ∷ rest else with_first c rest
