-- ===== src/Worker/Process/Processed.antt =====
-- When ProcessAncestry has nothing to do.
use clair.Database.{Detector, Ancestry, detector_eq}
use clair.Database.Dbutil.Merge.{elem-diff_detectors}
use clair.Database.Session.{Datastore}
use clair.Database.Transactions.{find_ancestry_and_rollback}
use clair.Worker.Layers.{LayerRequest, Scanners}
use clair.Worker.Process.{WorkerSets, is_processed, is_ancestry_processed, process_ancestry}
use clair.Prelude.{
  true, false, not, ◌&&◌, some, List, [], ◌∷◌, Bytes, all, elem, is_empty, MapOrder, ok, ◌===◌,
  ===_iff, ===-refl, ◌≡◌, refl, arith, ap, sym, ◌∙◌, Bool-cases, inl, inr,
}

pub all-elem :
    (xs ys : List Detector)
    → ((a : Detector) → elem a xs ≡ true → elem a ys ≡ true)
    → all (λ a. elem a ys) xs ≡ true
all-elem [] ys h = refl
all-elem (x ∷ xs) ys h =
    ground
      (arith, h x (ground (arith, ===-refl x)), all-elem xs ys (λ a e. h a (ground (arith, e))))

not_all-elem :
    (xs ys : List Detector) (b : Detector)
    → elem b xs ≡ true
    → elem b ys ≡ false
    → all (λ a. elem a ys) xs ≡ false
not_all-elem [] ys b e h = absurd (cc)
not_all-elem (x ∷ xs) ys b e h = elim (Bool-cases (x === b)) [
  | inl q ↦
      let same : elem x ys ≡ false = ap (λ a. elem a ys) ((===_iff x b).0 q) ∙ h in
      ground (arith, same)
  | inr q ↦ ground (arith, not_all-elem xs ys b (ground (arith, e, q)) h)
]

-- A list that holds exactly what is in xs and not in ys is empty just if all of xs is in ys.
is_empty-all :
    (l xs ys : List Detector)
    → ((a : Detector) → elem a l ≡ (elem a xs && not (elem a ys)))
    → is_empty l ≡ all (λ a. elem a ys) xs
is_empty-all [] xs ys h = sym (all-elem xs ys (λ a e. ground (arith, h a, e)))
is_empty-all (b ∷ l) xs ys h =
    sym (not_all-elem xs ys b (ground (arith, h b, ===-refl b)) (ground (arith, h b, ===-refl b)))

module _ (o : MapOrder) (d : Datastore) (sets : WorkerSets) (enabled_detectors : List Detector)
    (scanners : Scanners d.Error) where
  -- An ancestry that was found counts as processed just if every enabled detector is among its.
  pub is_processed-all :
      (ancestry : Ancestry)
      → is_processed o d sets enabled_detectors scanners (some ancestry)
        ≡ all (λ dt. elem dt ancestry.by) enabled_detectors
  unfolding is_processed
  is_processed-all ancestry =
      is_empty-all _ enabled_detectors ancestry.by
        (λ dt. (elem-diff_detectors sets.detectors enabled_detectors ancestry.by dt).0)

  -- For an ancestry that the store finds, isAncestryProcessed says whether every enabled detector is
  -- among those of the ancestry.
  pub is_ancestry_processed_lem :
      (name : Bytes) (store : d.Store) (ancestry : Ancestry)
      → find_ancestry_and_rollback d name store ≡ ok (some ancestry)
      → is_ancestry_processed o d sets enabled_detectors scanners name store
        ≡ ok (all (λ dt. elem dt ancestry.by) enabled_detectors)
  unfolding is_ancestry_processed
  is_ancestry_processed_lem name store ancestry h = rw h (ap ok (is_processed-all ancestry))

  -- For a name and a format that are not empty, ProcessAncestry returns without an error and leaves
  -- the store as it was, if the store finds the ancestry and every enabled detector is among its.
  pub process_ancestry_processed :
      (image_format name : Bytes) (layer_request : List LayerRequest) (store : d.Store)
      (ancestry : Ancestry)
      → is_empty name ≡ false
      → is_empty image_format ≡ false
      → find_ancestry_and_rollback d name store ≡ ok (some ancestry)
      → all (λ dt. elem dt ancestry.by) enabled_detectors ≡ true
      → process_ancestry o d sets enabled_detectors scanners image_format name layer_request store
        ≡ (ok tt, store)
  unfolding process_ancestry
  process_ancestry_processed image_format name layer_request store ancestry n f h a =
      rw (n, f, is_ancestry_processed_lem name store ancestry h, a) refl
