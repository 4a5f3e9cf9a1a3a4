-- ===== src/VersionFmt/Rpm/Order.antt =====
-- Compare of ext/versionfmt/rpm/parser.go as an order on versions.
use clair.VersionFmt.Ranks.{compare_ranks, NotAfter}
use clair.VersionFmt.Orders.{
  IsOrder, ◌then_by◌, compare_ℕ, compare_ℤ, compare_ℕ-IsOrder, compare_ℤ-IsOrder,
  compare_ranks-IsOrder, IsOrder-by, IsOrder-then_by, level_tests, epoch_tests,
}
use clair.VersionFmt.Rpm.{
  Version, Version-discrete, version_eq, new_version, compare, min_version, max_version,
  compare_versions, compare_fields,
}
use clair.VersionFmt.Rpm.Refines.{rpmvercmp-key, text_key}
use clair.VersionFmt.Errors.{VersionError}
use clair.Prelude.{
  Outcome, ok, err, panic, hang, ℕ, not, Bytes, ◌===◌, ===-refl, ===-eq-false, ===_not-Both,
  ===_not_either, if◌then◌else◌, ℤ, pos, neg, eqb_ℤ, ◌≡◌, ◌≢◌, refl, arith, ap, sym, ◌∙◌,
}

-- The least version, the greatest one, and the others between them.
abbrev pub level : Version → ℕ
level v = if v === min_version then 0 else if v === max_version then 2 else 1

-- The order that the code means: by level, epoch, version and release.
unfoldable pub order_versions : Version → Version → ℤ
order_versions v w =
    compare_ℕ (level v) (level w)
    then_by compare_ℤ v.epoch w.epoch
    then_by compare_ranks (text_key v.version) (text_key w.version)
    then_by compare_ranks (text_key v.release) (text_key w.release)

pub order_versions-IsOrder : IsOrder order_versions
unfolding order_versions
order_versions-IsOrder = IsOrder-then_by (IsOrder-by level compare_ℕ-IsOrder) (
    IsOrder-then_by (IsOrder-by (λ (v : Version). v.epoch) compare_ℤ-IsOrder) (
      IsOrder-then_by (IsOrder-by (λ (v : Version). text_key v.version) compare_ranks-IsOrder)
        (IsOrder-by (λ (v : Version). text_key v.release) compare_ranks-IsOrder)))

not_zero : (c d : ℤ) → (if not (eqb_ℤ c (pos 0)) then c else d) ≡ c then_by d
not_zero c d = ground arith

fields_order : Version → Version → ℤ
fields_order v w =
    compare_ℤ v.epoch w.epoch
    then_by compare_ranks (text_key v.version) (text_key w.version)
    then_by compare_ranks (text_key v.release) (text_key w.release)

compare_fields-order : (v w : Version) → compare_fields v w ≡ fields_order v w
unfolding compare_fields fields_order
compare_fields-order v w =
    epoch_tests (λ c. c) v.epoch w.epoch _ _
      (rw (rpmvercmp-key v.version w.version, rpmvercmp-key v.release w.release)
        (not_zero (compare_ranks (text_key v.version) (text_key w.version))
          (compare_ranks (text_key v.release) (text_key w.release))))

min_version-ne-max_version : min_version ≢ max_version
min_version-ne-max_version e = ground arith

-- A comparison of two versions has the result that the order means.
pub compare_versions-order : (v w : Version) → compare_versions v w ≡ order_versions v w
compare_versions-order v w = elim (Version-discrete v w) [
  | yes e ↦ rw (e, order_versions-IsOrder.self w) (unfold compare_versions in rw (===-refl w))
  | no ne ↦
      unfold compare_versions order_versions in
      rw (===-eq-false v w ne) (
        level_tests (λ c. c) _ _ _ _ _ _ (===_not-Both v w min_version ne)
          (===_not-Both v w max_version ne)
          (===_not_either w min_version max_version min_version-ne-max_version)
          (unfold fields_order in compare_fields-order v w))
]

-- What Compare returns on texts that both parse.
pub rpm_compare-order :
    (a b : Bytes) {v w : Version}
    → new_version a ≡ ok v
    → new_version b ≡ ok w
    → compare a b ≡ ok (order_versions v w)
unfolding compare
rpm_compare-order a b {v} {w} p q = rw (p, q, compare_versions-order v w)

-- A result of Compare comes from two texts that parse.
pub compare_parts :
    (a b : Bytes) (r : ℤ)
    → compare a b ≡ ok r
    → (v : Version) × (w : Version) × (new_version a ≡ ok v)
      × (new_version b ≡ ok w)
      × (r ≡ order_versions v w)
compare_parts a b r h = parts (new_version a) (new_version b) refl refl
  where
    parts :
        (x y : Outcome VersionError Version)
        → new_version a ≡ x
        → new_version b ≡ y
        → (v : Version) × (w : Version) × (new_version a ≡ ok v)
          × (new_version b ≡ ok w)
          × (r ≡ order_versions v w)
    parts (ok v) (ok w) p q = (v, w, p, q, cc (h, rpm_compare-order a b p q))
    parts (err e) y p q = absurd (unfold compare in cc)
    parts panic y p q = absurd (unfold compare in cc)
    parts hang y p q = absurd (unfold compare in cc)
    parts (ok v) (err e) p q = absurd (unfold compare in cc)
    parts (ok v) panic p q = absurd (unfold compare in cc)
    parts (ok v) hang p q = absurd (unfold compare in cc)

-- Exchanging the two versions negates the result.
pub rpm_compare_swap : (a b : Bytes) (r : ℤ) → compare a b ≡ ok r → compare b a ≡ ok (neg r)
rpm_compare_swap a b r h =
    let (v, w, p, q, e) = compare_parts a b r h in
    rpm_compare-order b a q p ∙ ap ok (order_versions-IsOrder.swap v w ∙ ap neg (sym e))

-- If a does not come after b, and b not after c, then Compare has a result for a and c, and a does
-- not come after c.
pub rpm_compare_trans :
    (a b c : Bytes) (r s : ℤ)
    → compare a b ≡ ok r
    → compare b c ≡ ok s
    → NotAfter r
    → NotAfter s
    → (t : ℤ) × (compare a c ≡ ok t) × NotAfter t
rpm_compare_trans a b c r s h k nr ns =
    let (u, v, p, q, e) = compare_parts a b r h in
    let (v', w, q', p', e') = compare_parts b c s k in
    let same : v ≡ v' = cc in
    (
      order_versions u w,
      rpm_compare-order a c p p',
      order_versions-IsOrder.trans u v w (rw e at nr) (rw (e', ← same) at ns),
    )
