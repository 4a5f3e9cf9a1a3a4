-- ===== src/VulnSrc/Oval/Features.antt =====
-- toFeatures of ext/vulnsrc/rhel/rhel.go and ext/vulnsrc/oracle/oracle.go, which read the features
-- that are affected from the comments of each alternative.
use clair.GoLib.{trim_space, index, slice, contains, index_text, atoi_value}
use clair.Database.{Namespace, AffectedFeature, affect_binary_package}
use clair.VersionFmt.Errors.{VersionError, max_version_text}
use clair.VersionFmt.Driver.{Parsers, valid}
use clair.VersionFmt.Rpm
use clair.VulnSrc.Oval.{Criterion, Possibilities}
use clair.Prelude.{
  ℕ, ◌+◌, Bytes, bytes_eq, Bool, ◌||◌, Option, none, some, List, [], ◌∷◌, ◌++◌, map, codes, length,
  is_empty, put, ◌===◌, if◌then◌else◌, ℤ, pos, MapOrder, Outcome, ok, err, panic, hang, ◌>>=◌,
}

-- The variables of one round of the loop over the alternatives.
pub record Reading : Type 0 where
  pub feature_version : AffectedFeature
  pub os_version : ℤ

abbrev pub nothing_read : Reading
nothing_read = record {
  feature_version = record {
    affected_type = [];
    namespace = record { name = []; version_format = [] };
    feature_name = [];
    fixed_in_version = [];
    affected_version = [];
  };
  os_version = pos 0;
}

abbrev pub is_installed : Bytes
is_installed = codes " is installed"

abbrev pub is_earlier_than : Bytes
is_earlier_than = codes " is earlier than "

-- c.Comment[prefixLen : prefixLen+strings.Index(c.Comment[prefixLen:], " ")]
abbrev up_to_space {ℓ} : {E : Type ℓ} → ℕ → Bytes → Option ℕ → Outcome E Bytes
up_to_space prefix_len comment none = panic
up_to_space prefix_len comment (some i) = slice comment prefix_len (prefix_len + i)

unfoldable pub os_text {ℓ} : {E : Type ℓ} → ℕ → Bytes → Outcome E Bytes
os_text prefix_len comment = do
  rest ← slice comment prefix_len (length comment)
  up_to_space prefix_len comment (index rest b' ')

abbrev pub with_name : Bytes → AffectedFeature → AffectedFeature
with_name name f = record f { feature_name = name; affected_type = affect_binary_package }

-- What a version that is valid sets, past the mark that the source makes on the namespace.
abbrev pub with_version : (Namespace → Namespace) → Bytes → AffectedFeature → AffectedFeature
with_version mark version f = record f {
  affected_version = version;
  fixed_in_version = if version === max_version_text then f.fixed_in_version else version;
  namespace = mark f.namespace;
}

abbrev pub set_version {ℓ} :
    {E : Type ℓ}
    → (Namespace → Namespace)
    → Bytes
    → AffectedFeature
    → Outcome VersionError Bool
    → Outcome E AffectedFeature
set_version mark version f (ok _) = ok (with_version mark version f)
set_version mark version f (err _) = ok f
set_version mark version f panic = panic
set_version mark version f hang = hang

-- The branch of a criterion that names a package, at the position of " is earlier than ".
abbrev pub read_package {ℓ} :
    {E : Type ℓ}
    → Parsers
    → (Namespace → Namespace)
    → Bytes
    → AffectedFeature
    → Option ℕ
    → Outcome E AffectedFeature
read_package parsers mark comment f none = panic
read_package parsers mark comment f (some i) = do
  name ← slice comment 0 i
  version ← slice comment (i + length is_earlier_than) (length comment)
  set_version mark version (with_name (trim_space name) f) (valid parsers Rpm.parser_name version)

-- The branch of a criterion that names the system.
unfoldable pub read_system {ℓ} : {E : Type ℓ} → ℕ → Bytes → Reading → Outcome E Reading
unfolding os_text
read_system prefix_len comment r = do
  text ← os_text prefix_len comment
  ok (record r { os_version = atoi_value (trim_space text) })

abbrev pub with_feature {ℓ} : {E : Type ℓ} → Reading → Outcome E AffectedFeature → Outcome E Reading
with_feature r m = do f ← m; ok (record r { feature_version = f })

unfoldable pub read_criterion {ℓ} :
    {E : Type ℓ} → Parsers → ℕ → (Namespace → Namespace) → Criterion → Reading → Outcome E Reading
unfolding read_system
read_criterion parsers prefix_len mark c r =
    if contains c.comment is_installed
    then read_system prefix_len c.comment r
    else if contains c.comment is_earlier_than
    then with_feature r (
        read_package parsers mark c.comment r.feature_version
          (index_text c.comment is_earlier_than))
    else ok r

unfoldable pub read_criterions {ℓ} :
    {E : Type ℓ}
    → Parsers
    → ℕ
    → (Namespace → Namespace)
    → List Criterion
    → Reading
    → Outcome E Reading
unfolding read_criterion
read_criterions parsers prefix_len mark [] r = ok r
read_criterions parsers prefix_len mark (c ∷ cs) r = do
  next ← read_criterion parsers prefix_len mark c r
  read_criterions parsers prefix_len mark cs next

abbrev pub FeatureMap : Type 0
FeatureMap = List (Bytes × AffectedFeature)

unfoldable pub incomplete : AffectedFeature → Bool
incomplete f =
    is_empty f.namespace.name
    || is_empty f.feature_name
    || is_empty f.affected_version
    || is_empty f.fixed_in_version

-- What the end of a round does to the map; `none` is a round that was continued.
unfoldable pub add_feature : Option AffectedFeature → FeatureMap → FeatureMap
unfolding incomplete
add_feature none m = m
add_feature (some f) m =
    if incomplete f then m else put (f.namespace.name ++ b':' ∷ f.feature_name) f m

-- The loop over the alternatives. `locate` is what the source does with the number of the system.
unfoldable pub read_possibilities {ℓ} :
    {E : Type ℓ}
    → Parsers
    → ℕ
    → (Namespace → Namespace)
    → (Reading → Option AffectedFeature)
    → Possibilities
    → FeatureMap
    → Outcome E FeatureMap
unfolding read_criterions add_feature
read_possibilities parsers prefix_len mark locate [] m = ok m
read_possibilities parsers prefix_len mark locate (p ∷ ps) m = do
  r ← read_criterions parsers prefix_len mark p nothing_read
  read_possibilities parsers prefix_len mark locate ps (add_feature (locate r) m)

unfoldable pub features_of : MapOrder → FeatureMap → List AffectedFeature
features_of o m = map (λ (x : Bytes × AffectedFeature). x.1) (o.visit (Bytes × AffectedFeature) m)
