-- ===== src/VulnSrc/Rhel/Again.antt =====
-- The flag that the method Update of ext/vulnsrc/rhel/rhel.go leaves for its next run.
use clair.GoLib.{atoi_value, itoa, scan_lines}
use clair.GoLib.Decimal.{atoi-itoa}
use clair.Database.{VulnerabilityWithAffected}
use clair.VersionFmt.Driver.{Parsers}
use clair.VulnSrc.Source.{UpdateResponse, no_response, Web, collect}
use clair.VulnSrc.Oval.Listing.{find_submatch}
use clair.VulnSrc.Rhel.{Definition}
use clair.VulnSrc.Rhel.Update.{
  rhsa_prefix, not_zero, first_rhsa, add_number, rhsa_list, parse_rhsa, last, respond, update_from,
}
use clair.Prelude.{
  ℕ, ◌<◌, ◌^◌, Bytes, true, false, Option, none, some, List, [], ◌∷◌, All, ℤ, pos, negsuc, ltb_ℤ,
  MapOrder, ok, >>=-ok, ◌==◌, ◌≡◌, refl, sym, subst, ap, ◌∙◌, arith, Bool-cases, inl, inr,
}

-- What a higher first number leaves out.
add_number-none :
    (first top : ℤ) (found : Option Bytes) (rest rest' : List ℤ)
    → ltb_ℤ first top ≡ true
    → All (λ n. ltb_ℤ top n ≡ false) (add_number first found rest)
    → (All (λ n. ltb_ℤ top n ≡ false) rest → rest' ≡ [])
    → add_number top found rest' ≡ []
add_number-none first top none rest rest' e h f = f h
add_number-none first top (some digits) rest rest' e h f =
    elim (Bool-cases (ltb_ℤ first (atoi_value digits))) [
      | inl x ↦ let all = rw x at h in rw all.0 (f all.1)
      | inr x ↦
          let below : ltb_ℤ top (atoi_value digits) ≡ false = ground arith in
          rw below (f (rw x at h))
    ]

rhsa_list-none :
    (first top : ℤ) (lines : List Bytes)
    → ltb_ℤ first top ≡ true
    → All (λ n. ltb_ℤ top n ≡ false) (rhsa_list first lines)
    → rhsa_list top lines ≡ []
unfolding rhsa_list
rhsa_list-none first top [] e h = refl
rhsa_list-none first top (line ∷ lines) e h =
    add_number-none first top (find_submatch rhsa_prefix line) (rhsa_list first lines)
      (rhsa_list top lines) e h (rhsa_list-none first top lines e)

-- The numbers of the list are above the first one, and an int holds them.
Listed : ℤ → ℤ → Type 0
Listed first n = (ltb_ℤ first n ≡ true) × (s : Bytes) × (atoi_value s ≡ n)

Listed-lt : (first n : ℤ) → Listed first n → ltb_ℤ first n ≡ true
unfolding Listed
Listed-lt first n h = h.0

add_number-Listed :
    (first : ℤ) (found : Option Bytes) (rest : List ℤ)
    → All (Listed first) rest
    → All (Listed first) (add_number first found rest)
unfolding Listed
add_number-Listed first none rest h = h
add_number-Listed first (some digits) rest h = elim (Bool-cases (ltb_ℤ first (atoi_value digits))) [
  | inl x ↦ rw x ((x, digits, refl), h)
  | inr x ↦ rw x h
]

rhsa_list-Listed : (first : ℤ) (lines : List Bytes) → All (Listed first) (rhsa_list first lines)
unfolding rhsa_list
rhsa_list-Listed first [] = tt
rhsa_list-Listed first (line ∷ lines) =
    add_number-Listed first (find_submatch rhsa_prefix line) (rhsa_list first lines)
      (rhsa_list-Listed first lines)

last-All : (P : ℤ → Type 0) (n : ℤ) (list : List ℤ) → All P (n ∷ list) → P (last n list)
last-All P n [] h = h.0
last-All P n (m ∷ list) h = last-All P m list h.1

atoi_value-lt : (s : Bytes) (n : ℕ) → atoi_value s ≡ pos n → n < 2 ^ 63
unfolding atoi_value
atoi_value-lt [] n e = ground arith
atoi_value-lt (c ∷ s) n e = elim (Bool-cases (c == b'-')) [
  | inl x ↦ let y = rw x at e in ground (arith, y)
  | inr x ↦ let y = rw x at e in ground (arith, y)
]

first_rhsa-itoa :
    (first n : ℤ) → ltb_ℤ first (pos 0) ≡ false → Listed first n → first_rhsa (itoa n) ≡ n
unfolding Listed first_rhsa
first_rhsa-itoa first (pos n) e (h, s, x) =
    ap not_zero (atoi-itoa n (atoi_value-lt s n x)) ∙ ground arith
first_rhsa-itoa first (negsuc n) e (h, s, x) = absurd (ground arith)

update_from-ok :
    {E : Type 0} (parsers : Parsers) (o : MapOrder) (web : Web (Option (List Definition)))
    (flag body : Bytes) (list : List ℤ) (resp : UpdateResponse)
    → web.listing ≡ some body
    → rhsa_list (first_rhsa flag) (scan_lines body) ≡ list
    → update_from {E = E} parsers o web flag ≡ ok resp
    → (vs : List VulnerabilityWithAffected) × (respond list vs ≡ resp)
unfolding update_from collect
update_from-ok parsers o web flag body list resp w l e =
    let (vs, _, x) = >>=-ok (collect (parse_rhsa parsers o) web list) _ resp (rw (w, l) at e) in
    (vs, (cc))

update_from-none :
    {E : Type 0} (parsers : Parsers) (o : MapOrder) (web : Web (Option (List Definition)))
    (flag body : Bytes)
    → web.listing ≡ some body
    → rhsa_list (first_rhsa flag) (scan_lines body) ≡ []
    → update_from {E = E} parsers o web flag ≡ ok no_response
unfolding update_from collect
update_from-none parsers o web flag body w l = rw (w, l) refl

-- A run that finds advisories in a listing whose last number is the highest, from a flag that is no
-- negative number, leaves a flag with which a run over the same listing finds nothing and leaves no
-- flag.
pub update_from-again :
    {E : Type 0} (parsers : Parsers) (o : MapOrder) (web : Web (Option (List Definition)))
    (flag body : Bytes) (rhsa : ℤ) (list : List ℤ) (resp : UpdateResponse)
    → web.listing ≡ some body
    → ltb_ℤ (first_rhsa flag) (pos 0) ≡ false
    → rhsa_list (first_rhsa flag) (scan_lines body) ≡ rhsa ∷ list
    → All (λ n. ltb_ℤ (last rhsa list) n ≡ false) (rhsa ∷ list)
    → update_from {E = E} parsers o web flag ≡ ok resp
    → update_from {E = E} parsers o web resp.flag_value ≡ ok no_response
update_from-again {E} parsers o web flag body rhsa list resp w z l high e =
    let (vs, same) = update_from-ok parsers o web flag body (rhsa ∷ list) resp w l e in
    let first = first_rhsa flag in
    let lines = scan_lines body in
    let top = last rhsa list in
    let listed : Listed first top =
      last-All (Listed first) rhsa list
        (subst (All (Listed first)) l (rhsa_list-Listed first lines)) in
    let next : first_rhsa resp.flag_value ≡ top =
      ap (λ (r : UpdateResponse). first_rhsa r.flag_value) (sym same)
      ∙ first_rhsa-itoa first top z listed in
    update_from-none parsers o web resp.flag_value body w (
      ap (λ n. rhsa_list n lines) next
      ∙ rhsa_list-none first top lines (Listed-lt first top listed)
          (subst (All (λ n. ltb_ℤ top n ≡ false)) (sym l) high))
