-- ===== src/VulnSrc/Oval/Sound.antt =====
-- What toFeatures of rhel.go and oracle.go keeps of the comments.
use clair.GoLib.{trim_space, slice, contains}
use clair.Database.{Namespace, AffectedFeature, affect_binary_package}
use clair.VersionFmt.Errors.{VersionError}
use clair.VersionFmt.Driver.{Parsers, valid}
use clair.VersionFmt.Rpm
use clair.VulnSrc.Oval.{Criterion, Possibilities}
use clair.VulnSrc.Oval.Features.{
  Reading, nothing_read, is_installed, is_earlier_than, os_text, with_name, with_version,
  set_version, read_package, read_system, read_criterion, read_criterions, FeatureMap, incomplete,
  add_feature, read_possibilities, features_of,
}
use clair.Prelude.{
  ℕ, ◌+◌, Bytes, bytes_eq, Bool, true, false, Option, none, some, List, [], ◌∷◌, ◌++◌, map, length,
  is_empty, MapOrder, visit-All, All, All-put, Outcome, ok, err, panic, hang, ◌>>=◌, >>=-ok, ◌≡◌,
  refl, ◌∙◌, ap, subst, arith, Bool-cases, Option-cases, inl, inr,
}

module _ (parsers : Parsers) (mark : Namespace → Namespace) (Marked : Namespace → Type 0) where
  -- What holds of the feature that is being read.
  abbrev pub Sound : AffectedFeature → Type 0
  Sound f =
      (is_empty f.feature_name ≡ false → f.affected_type ≡ affect_binary_package)
      × (is_empty f.affected_version ≡ false
          → (valid parsers Rpm.parser_name f.affected_version ≡ ok true) × Marked f.namespace)

  valid-true : (format version : Bytes) (b : Bool) → valid parsers format version ≡ ok b → b ≡ true
  unfolding valid
  valid-true format version b e = ground arith

  module _ (marks : (n : Namespace) → Marked (mark n)) where
    set_version-Sound :
        {E : Type 0} (version : Bytes) (f g : AffectedFeature)
        → Sound f
        → set_version {E = E} mark version f (valid parsers Rpm.parser_name version) ≡ ok g
        → Sound g
    set_version-Sound {E} version f g h = go _ refl
      where
        go :
            (m : Outcome VersionError Bool)
            → valid parsers Rpm.parser_name version ≡ m
            → set_version {E = E} mark version f m ≡ ok g
            → Sound g
        go (ok b) e x =
            let same : with_version mark version f ≡ g = cc in
            let valid_version : valid parsers Rpm.parser_name version ≡ ok true =
              e ∙ ap ok (valid-true Rpm.parser_name version b e) in
            subst Sound same (h.0, λ _. (valid_version, marks f.namespace))
        go (err _) e x = let same : f ≡ g = cc in subst Sound same h
        go panic e x = absurd (cc)
        go hang e x = absurd (cc)

    read_package-Sound :
        {E : Type 0} (comment : Bytes) (f g : AffectedFeature) (at : Option ℕ)
        → Sound f
        → read_package {E = E} parsers mark comment f at ≡ ok g
        → Sound g
    read_package-Sound comment f g none h e = absurd (cc)
    read_package-Sound comment f g (some i) h e =
        let (name, _, x) = >>=-ok (slice comment 0 i) _ g e in
        let (version, _, y) =
          >>=-ok (slice comment (i + length is_earlier_than) (length comment)) _ g x in
        set_version-Sound version (with_name (trim_space name) f) g ((λ _. refl), h.1) y

    read_criterion-Sound :
        {E : Type 0} (prefix_len : ℕ) (c : Criterion) (r after : Reading)
        → Sound r.feature_version
        → read_criterion {E = E} parsers prefix_len mark c r ≡ ok after
        → Sound after.feature_version
    unfolding read_criterion read_system
    read_criterion-Sound prefix_len c r after h e =
        elim (Bool-cases (contains c.comment is_installed)) [
          | inl x ↦
              let (text, _, y) = >>=-ok (os_text prefix_len c.comment) _ after (rw x at e) in
              let same : r.feature_version ≡ after.feature_version = cc in subst Sound same h
          | inr x ↦
              let rest = rw x at e in
              elim (Bool-cases (contains c.comment is_earlier_than)) [
                | inl y ↦
                    let (f, z, w) =
                      >>=-ok (read_package parsers mark c.comment r.feature_version _) _ after
                        (rw y at rest) in
                    let same : f ≡ after.feature_version = cc in
                    subst Sound same (read_package-Sound c.comment r.feature_version f _ h z)
                | inr y ↦
                    let z : ok r ≡ ok after = rw y at rest in
                    let same : r ≡ after = cc in subst (λ q. Sound q.feature_version) same h
              ]
        ]

    read_criterions-Sound :
        {E : Type 0} (prefix_len : ℕ) (cs : List Criterion) (r after : Reading)
        → Sound r.feature_version
        → read_criterions {E = E} parsers prefix_len mark cs r ≡ ok after
        → Sound after.feature_version
    unfolding read_criterions
    read_criterions-Sound prefix_len [] r after h e =
        let same : r ≡ after = cc in subst (λ q. Sound q.feature_version) same h
    read_criterions-Sound prefix_len (c ∷ cs) r after h e =
        let (next, x, y) = >>=-ok (read_criterion parsers prefix_len mark c r) _ after e in
        read_criterions-Sound prefix_len cs next after
          (read_criterion-Sound prefix_len c r next h x) y

    nothing_read-Sound : Sound nothing_read.feature_version
    nothing_read-Sound = (λ e. absurd (cc), λ e. absurd (cc))

    -- What the source makes of a round's variables has the property `Q`, if what was read is sound.
    module _ (locate : Reading → Option AffectedFeature) (Q : AffectedFeature → Type 0)
        (locates : (r : Reading) (f : AffectedFeature)
          → Sound r.feature_version
          → locate r ≡ some f
          → Q f) where
      abbrev Whole : Bytes → AffectedFeature → Type 0
      Whole k f = Q f × (incomplete f ≡ false)

      add_feature-Whole :
          (r : Reading) (m : FeatureMap)
          → Sound r.feature_version
          → All (λ (x : Bytes × AffectedFeature). Whole x.0 x.1) m
          → All (λ (x : Bytes × AffectedFeature). Whole x.0 x.1) (add_feature (locate r) m)
      unfolding add_feature
      add_feature-Whole r m h w = elim (Option-cases (locate r)) [
        | inl e ↦ rw e w
        | inr (f, e) ↦ elim (Bool-cases (incomplete f)) [
          | inl x ↦ rw (e, x) w
          | inr x ↦
              rw (e, x)
                (All-put Whole (f.namespace.name ++ b':' ∷ f.feature_name) f m w
                  (locates r f h e, x))
        ]
      ]

      read_possibilities-Whole :
          {E : Type 0} (prefix_len : ℕ) (ps : Possibilities) (m after : FeatureMap)
          → All (λ (x : Bytes × AffectedFeature). Whole x.0 x.1) m
          → read_possibilities {E = E} parsers prefix_len mark locate ps m ≡ ok after
          → All (λ (x : Bytes × AffectedFeature). Whole x.0 x.1) after
      unfolding read_possibilities
      read_possibilities-Whole prefix_len [] m after w e =
          let same : m ≡ after = cc in
          subst (All (λ (x : Bytes × AffectedFeature). Whole x.0 x.1)) same w
      read_possibilities-Whole prefix_len (p ∷ ps) m after w e =
          let (r, x, y) =
            >>=-ok (read_criterions parsers prefix_len mark p nothing_read) _ after e in
          read_possibilities-Whole prefix_len ps (add_feature (locate r) m) after
            (add_feature-Whole r m
              (read_criterions-Sound prefix_len p nothing_read r nothing_read-Sound x) w)
            y

      -- Every feature that toFeatures returns has the property, and its parts are not empty.
      pub features-Whole :
          {E : Type 0} (o : MapOrder) (prefix_len : ℕ) (ps : Possibilities)
          (fs : List AffectedFeature)
          → (read_possibilities {E = E} parsers prefix_len mark locate ps [] >>= λ m.
              ok (features_of o m))
            ≡ ok fs
          → All (λ f. Q f × (incomplete f ≡ false)) fs
      unfolding features_of
      features-Whole o prefix_len ps fs e =
          let (m, x, y) = >>=-ok (read_possibilities parsers prefix_len mark locate ps []) _ fs e in
          let same : features_of o m ≡ fs = cc in
          subst (All (λ f. Q f × (incomplete f ≡ false))) same (
            map-All (o.visit (Bytes × AffectedFeature) m)
              (visit-All _ o m (read_possibilities-Whole prefix_len ps [] m tt x)))
        where
          map-All :
              (l : FeatureMap)
              → All (λ (x : Bytes × AffectedFeature). Whole x.0 x.1) l
              → All
                  (λ f. Q f × (incomplete f ≡ false))
                  (map (λ (x : Bytes × AffectedFeature). x.1) l)
          map-All [] h = tt
          map-All (x ∷ l) h = (h.0, map-All l h.1)
