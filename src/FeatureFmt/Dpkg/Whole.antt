-- ===== src/FeatureFmt/Dpkg/Whole.antt =====
-- The features that the lister of ext/featurefmt/dpkg/dpkg.go returns.
use clair.GoLib.{scan_lines, has_prefix, trim_space}
use clair.Database.{Feature, feature_eq}
use clair.Database.Sets.{MapSet}
use clair.Database.Dbutil.{convert_feature_set_to_features}
use clair.FeatureFmt.{FilesMap}
use clair.VersionFmt.Errors.{VersionError}
use clair.VersionFmt.Driver.{Parsers, valid}
use clair.VersionFmt.Dpkg
use clair.FeatureFmt.Dpkg.{
  status_file, no_feature, complete, add_source_package, set_source_version, set_version,
  name_group, version_group, read_source, read_line, fill, add_complete, list_lines, list_file,
  list_features,
}
use clair.Prelude.{
  Bool, true, false, Bytes, bytes_eq, Option, none, some, List, [], ◌∷◌, codes, get, elem, is_empty,
  length, drop, ◌===◌, ===_iff, if◌then◌else◌, if_either, Outcome, ok, err, panic, hang, >>=-ok,
  ◌≡◌, refl, sym, ap, ◌∙◌, subst, arith, Bool-cases, inl, inr,
}

module _ (parsers : Parsers) where
  abbrev IsValid : Bytes → Type 0
  IsValid version = valid parsers Dpkg.parser_name version ≡ ok true

  -- What holds of the package that is being read.
  abbrev pub Sound : Feature → Type 0
  Sound f =
      (f.version_format ≡ Dpkg.parser_name)
      × (is_empty f.version ≡ false → IsValid f.version)
      × (is_empty f.source_version ≡ false → IsValid f.source_version)

  -- A name and a valid version of the package and of its source.
  abbrev pub Whole : Feature → Type 0
  Whole f =
      (f.version_format ≡ Dpkg.parser_name)
      × (is_empty f.name ≡ false)
      × (is_empty f.version ≡ false)
      × IsValid f.version
      × (is_empty f.source_name ≡ false)
      × (is_empty f.source_version ≡ false)
      × IsValid f.source_version

  valid-true :
      (version : Bytes) (b : Bool) → valid parsers Dpkg.parser_name version ≡ ok b → b ≡ true
  unfolding valid
  valid-true version b e = ground arith

  set_version-Sound :
      {E : Type 0} (pkg next : Feature) (version : Bytes) (m : Outcome VersionError Bool)
      → valid parsers Dpkg.parser_name version ≡ m
      → Sound pkg
      → set_version {E = E} pkg version m ≡ ok next
      → Sound next
  set_version-Sound pkg next version (ok b) v h e =
      let same : record pkg { version = version } ≡ next = cc in
      subst Sound same (h.0, λ _. v ∙ ap ok (valid-true version b v), h.2)
  set_version-Sound pkg next version (err _) v h e =
      let same : pkg ≡ next = cc in subst Sound same h
  set_version-Sound pkg next version panic v h e = absurd (cc)
  set_version-Sound pkg next version hang v h e = absurd (cc)

  set_source_version-Sound :
      {E : Type 0} (pkg next : Feature) (version : Bytes) (m : Outcome VersionError Bool)
      → valid parsers Dpkg.parser_name version ≡ m
      → Sound pkg
      → set_source_version {E = E} pkg version m ≡ ok next
      → Sound next
  set_source_version-Sound pkg next version (ok b) v h e =
      let same : record pkg { source_version = version } ≡ next = cc in
      subst Sound same (h.0, h.1, λ _. v ∙ ap ok (valid-true version b v))
  set_source_version-Sound pkg next version (err _) v h e =
      let same : pkg ≡ next = cc in subst Sound same h
  set_source_version-Sound pkg next version panic v h e = absurd (cc)
  set_source_version-Sound pkg next version hang v h e = absurd (cc)

  read_source-Sound :
      {E : Type 0} (text : Bytes) (pkg next : Feature)
      → Sound pkg
      → read_source parsers {E = E} text pkg ≡ ok next
      → Sound next
  read_source-Sound {E} text pkg next h e =
      let named : Feature = record pkg { source_name = trim_space (name_group text) } in
      let version = trim_space (version_group (drop (length (name_group text)) text)) in
      let P : Outcome E Feature → Type 0 = λ m. m ≡ ok next → Sound next in
      if_either P (is_empty version) (λ x. let same : named ≡ next = cc in subst Sound same h)
        (λ x. set_source_version-Sound named next version _ refl h x) e

  no_feature-Sound : Sound no_feature
  no_feature-Sound = (refl, λ e. absurd (cc), λ e. absurd (cc))

  read_line-Sound :
      {E : Type 0} (line : Bytes) (pkg next : Feature)
      → Sound pkg
      → read_line parsers {E = E} line pkg ≡ ok next
      → Sound next
  unfolding read_line
  read_line-Sound {E} line pkg next h e =
      let P : Outcome E Feature → Type 0 = λ m. m ≡ ok next → Sound next in
      let gives : (f : Feature) → Sound f → P (ok f) =
        λ f i x. let same : f ≡ next = cc in subst Sound same i in
      let named : Feature = record pkg {
        name = trim_space (drop (length (codes "Package: ")) line);
        version = [];
      } in
      let text = drop (length (codes "Version: ")) line in
      if_either P (has_prefix line (codes "Package: ")) (gives named (h.0, λ x. absurd (cc), h.2))
        (if_either P (has_prefix line (codes "Source: "))
          (λ x. read_source-Sound (drop (length (codes "Source: ")) line) pkg next h x)
          (if_either P (has_prefix line (codes "Version: "))
            (λ x. set_version-Sound pkg next text (valid parsers Dpkg.parser_name text) refl h x)
            (if_either P (is_empty line) (gives no_feature no_feature-Sound) (gives pkg h))))
        e

  or_own : (a b : Bytes) → is_empty b ≡ false → is_empty (if is_empty a then b else a) ≡ false
  or_own a b h = ground arith

  add_source_package-Whole :
      (f : Feature) → complete f ≡ true → Sound f → Whole (add_source_package f)
  unfolding add_source_package
  add_source_package-Whole f c h =
      let name : is_empty f.name ≡ false = ground arith in
      let version : is_empty f.version ≡ false = ground arith in
      let source = or_own f.source_name f.name name in
      elim (Bool-cases (is_empty f.source_version)) [
        | inl x ↦ rw x (h.0, name, version, h.1 version, source, version, h.1 version)
        | inr x ↦ rw x (h.0, name, version, h.1 version, source, x, h.2 x)
      ]

  Whole-Sound : (f : Feature) → Whole f → Sound f
  Whole-Sound f h = (h.0, λ _. h.3, λ _. h.6)

module _ (s : MapSet Feature) (parsers : Parsers) where
  AllWhole : s.Set → Type 0
  AllWhole pkgs = (f : Feature) → s.contains pkgs f ≡ true → Whole parsers f

  fill-Sound : (f : Feature) → Sound parsers f → Sound parsers (fill s parsers f)
  fill-Sound f h = elim (Bool-cases (complete f)) [
    | inl c ↦ rw c (Whole-Sound parsers _ (add_source_package-Whole parsers f c h))
    | inr c ↦ rw c h
  ]

  add-AllWhole :
      (f : Feature) (pkgs : s.Set) → Whole parsers f → AllWhole pkgs → AllWhole (s.add f pkgs)
  unfolding AllWhole
  add-AllWhole f pkgs w h g c = elim (Bool-cases (f === g)) [
    | inl x ↦ subst (Whole parsers) ((===_iff f g).0 x) w
    | inr x ↦ h g (ground (arith, sym (s.contains-add f g pkgs) ∙ c))
  ]

  add_complete-AllWhole :
      (f : Feature) (pkgs : s.Set)
      → Sound parsers f
      → AllWhole pkgs
      → AllWhole (add_complete s parsers f pkgs)
  add_complete-AllWhole f pkgs h w = elim (Bool-cases (complete f)) [
    | inl c ↦ rw c (add-AllWhole _ pkgs (add_source_package-Whole parsers f c h) w)
    | inr c ↦ rw c w
  ]

  list_lines-AllWhole :
      {E : Type 0} (lines : List Bytes) (pkg : Feature) (pkgs after : s.Set)
      → Sound parsers pkg
      → AllWhole pkgs
      → list_lines s parsers {E = E} lines pkg pkgs ≡ ok after
      → AllWhole after
  unfolding list_lines
  list_lines-AllWhole [] pkg pkgs after h w e =
      let same : pkgs ≡ after = cc in subst AllWhole same w
  list_lines-AllWhole {E} (line ∷ lines) pkg pkgs after h w e =
      let (next, x, y) = >>=-ok (read_line parsers {E = E} line pkg) _ after e in
      let sound = read_line-Sound parsers line pkg next h x in
      list_lines-AllWhole lines (fill s parsers next) (add_complete s parsers next pkgs) after
        (fill-Sound next sound) (add_complete-AllWhole next pkgs sound w) y

listed :
    {E : Type 0} (s : MapSet Feature) (parsers : Parsers) (file : Bytes) (fs : List Feature)
    → list_file s parsers {E = E} (some file) ≡ ok fs
    → (f : Feature) → elem f fs ≡ true
    → Whole parsers f
unfolding convert_feature_set_to_features AllWhole
listed {E} s parsers file fs e f h =
    let (pkgs, x, y) =
      >>=-ok (list_lines s parsers {E = E} (scan_lines file) no_feature s.new_set) _ fs e in
    let same : s.iter pkgs ≡ fs = cc in
    list_lines-AllWhole s parsers (scan_lines file) no_feature s.new_set pkgs
      (no_feature-Sound parsers) (λ g c. absurd (cc (sym (s.contains-new_set g) ∙ c))) x f
      (sym (s.elem-iter pkgs f) ∙ subst (λ l. elem f l ≡ true) (sym same) h)

-- Every feature that the lister returns has a name, a version that dpkg's format accepts, and the name
-- and such a version of its source.
pub list_features-Whole :
    {E : Type 0} (s : MapSet Feature) (parsers : Parsers) (files : FilesMap) (fs : List Feature)
    → list_features s parsers {E = E} files ≡ ok fs
    → (f : Feature) → elem f fs ≡ true
    → Whole parsers f
unfolding list_features
list_features-Whole {E} s parsers files fs e = go (get status_file files) e
  where
    go :
        (o : Option Bytes)
        → list_file s parsers {E = E} o ≡ ok fs
        → (f : Feature) → elem f fs ≡ true
        → Whole parsers f
    go none x f h =
        let same : [] ≡ fs = cc in absurd (cc (subst (λ l. elem f l ≡ true) (sym same) h))
    go (some file) x f h = listed s parsers file fs x f h
