-- ===== src/FeatureNs/Named/Redhat.antt =====
-- What the namespaces of ext/featurens/redhatrelease/redhatrelease.go have in common.
use clair.Database.{Namespace}
use clair.GoLib.{lower_text, has_prefix}
use clair.FeatureFmt.{FilesMap}
use clair.FeatureNs.Shapes.{IsNamespace, AllNamed, none-AllNamed, some-AllNamed}
use clair.FeatureNs.RedhatRelease.{
  or_else, leading_digits, unless_empty, number_behind, match_one, find_number, leading_word,
  with_os, match_centos, find_centos, namespace_of, if_centos, if_redhat, if_oracle, read_file,
  detect_in, required_filenames, detect,
}
use clair.Prelude.{
  Bytes, bytes_eq, false, Option, none, some, List, [], ◌∷◌, codes, get, length, drop, is_empty,
  ◌≡◌, refl, arith, if_either, inr,
}

-- A number that was found is not empty.
abbrev Filled : Option Bytes → Type 0
Filled o = (v : Bytes) → o ≡ some v → is_empty v ≡ false

none-Filled : Filled none
none-Filled v e = absurd (cc)

or_else-Filled : (a b : Option Bytes) → Filled a → Filled b → Filled (or_else a b)
or_else-Filled none b h i = i
or_else-Filled (some v) b h i = h

unless_empty-Filled : (digits : Bytes) → Filled (unless_empty digits)
unless_empty-Filled digits v e = ground arith

match_one-Filled : (phrases : List Bytes) (s : Bytes) → Filled (match_one phrases s)
unfolding match_one
match_one-Filled [] s = none-Filled
match_one-Filled (phrase ∷ phrases) s =
    or_else-Filled (number_behind phrase s) _
      (if_either Filled (has_prefix s phrase)
        (unless_empty-Filled (leading_digits (drop (length phrase) s))) none-Filled)
      (match_one-Filled phrases s)

find_number-Filled : (phrases : List Bytes) (s : Bytes) → Filled (find_number phrases s)
unfolding find_number
find_number-Filled phrases [] = match_one-Filled phrases []
find_number-Filled phrases (c ∷ s) =
    or_else-Filled (match_one phrases (c ∷ s)) _ (match_one-Filled phrases (c ∷ s))
      (find_number-Filled phrases s)

namespace_of-IsNamespace :
    (os version : Bytes) → is_empty version ≡ false → IsNamespace (namespace_of os version)
namespace_of-IsNamespace os version h = (lower_text os, version, refl, h, inr refl)

-- The namespace of a system and a version that were found.
with_os-AllNamed : (os : Bytes) (o : Option Bytes) → Filled o → AllNamed (if_centos (with_os os o))
with_os-AllNamed os none h = none-AllNamed
with_os-AllNamed os (some v) h =
    some-AllNamed (namespace_of os v) (namespace_of-IsNamespace os v (h v refl))

or_else-AllNamed :
    (a b : Option (Bytes × Bytes))
    → AllNamed (if_centos a)
    → AllNamed (if_centos b)
    → AllNamed (if_centos (or_else a b))
or_else-AllNamed none b h i = i
or_else-AllNamed (some v) b h i = h

match_centos-AllNamed : (s : Bytes) → AllNamed (if_centos (match_centos s))
match_centos-AllNamed s = with_os-AllNamed (leading_word s) _ (match_one-Filled _ _)

find_centos-AllNamed : (s : Bytes) → AllNamed (if_centos (find_centos s))
unfolding find_centos
find_centos-AllNamed [] = match_centos-AllNamed []
find_centos-AllNamed (c ∷ s) =
    or_else-AllNamed (match_centos (c ∷ s)) _ (match_centos-AllNamed (c ∷ s))
      (find_centos-AllNamed s)

if_redhat-AllNamed : (o : Option Bytes) (s : Bytes) → Filled o → AllNamed (if_redhat o s)
if_redhat-AllNamed none s h = find_centos-AllNamed s
if_redhat-AllNamed (some v) s h = with_os-AllNamed (codes "centos") (some v) h

if_oracle-AllNamed : (o : Option Bytes) (s : Bytes) → Filled o → AllNamed (if_oracle o s)
if_oracle-AllNamed none s h = if_redhat-AllNamed _ s (find_number-Filled _ s)
if_oracle-AllNamed (some v) s h = with_os-AllNamed (codes "Oracle") (some v) h

read_file-AllNamed : (o : Option Bytes) → AllNamed (read_file o)
read_file-AllNamed none = none-AllNamed
read_file-AllNamed (some s) = if_oracle-AllNamed _ s (find_number-Filled _ s)

or_file-AllNamed : (a b : Option Namespace) → AllNamed a → AllNamed b → AllNamed (or_else a b)
or_file-AllNamed none b h i = i
or_file-AllNamed (some n) b h i = h

detect_in-AllNamed : (files : FilesMap) (paths : List Bytes) → AllNamed (detect_in files paths)
unfolding detect_in
detect_in-AllNamed files [] = none-AllNamed
detect_in-AllNamed files (path ∷ paths) =
    or_file-AllNamed (read_file (get path files)) _ (read_file-AllNamed (get path files))
      (detect_in-AllNamed files paths)

pub redhat_release-AllNamed : (files : FilesMap) → AllNamed (detect files)
unfolding detect
redhat_release-AllNamed files = detect_in-AllNamed files required_filenames
