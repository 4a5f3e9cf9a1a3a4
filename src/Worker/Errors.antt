-- ===== src/Worker/Errors.antt =====
-- CombineErrors of pkg/commonerr/errors.go. A nil error is `none`, an error is its text.
use clair.GoLib.{itoa}
use clair.Prelude.{
  ℕ, suc, Option, none, some, List, [], ◌∷◌, ◌++◌, Bytes, codes, pos, is_empty, if◌then◌else◌,
}

-- The texts "[i] error" from number i on.
unfoldable pub error_texts : ℕ → List (Option Bytes) → List Bytes
unfolding itoa
error_texts i [] = []
error_texts i (none ∷ errs) = error_texts (suc i) errs
error_texts i (some e ∷ errs) = (b'[' ∷ itoa (pos i) ++ codes "] " ++ e) ∷ error_texts (suc i) errs

-- strings.Join(texts, ";")
unfoldable pub join : List Bytes → Bytes
join [] = []
join (t ∷ []) = t
join (t ∷ u ∷ ts) = t ++ b';' ∷ join (u ∷ ts)

unfoldable pub combine_errors : List (Option Bytes) → Option Bytes
unfolding error_texts join
combine_errors errs =
    if is_empty (error_texts 0 errs) then none else some (join (error_texts 0 errs))
