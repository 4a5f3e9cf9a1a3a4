-- ===== src/Worker/Process/Again.antt =====
-- What ProcessAncestry leaves to a second call.
use clair.Database.{Detector, Layer, Ancestry, AncestryLayer, detector_eq}
use clair.Database.Session.{Datastore, AncestryLaws}
use clair.Database.Transactions.{
  Result, write, find_ancestry_in, find_ancestry_and_rollback,
  persist_namespaced_features_and_commit, cache_related_vulnerability_and_commit,
  upsert_ancestry_and_commit, get_ancestry_features,
}
use clair.Database.Transactions.Atomic.{finish-IsAtomic}
use clair.Worker.Ancestry.{compute_ancestry_layers}
use clair.Worker.Ancestry.Common.{compute_ancestry_layers_lem}
use clair.Worker.Layers.{LayerRequest, Scanners, and_then}
use clair.Worker.Layers.Scanned.{AllScanned, FindsHash, process_layers-AllScanned}
use clair.Worker.Process.{
  WorkerSets, is_processed, is_ancestry_processed, persist_ancestry, or_no_format, process_computed,
  unless_processed, process_ancestry,
}
use clair.Worker.Process.Processed.{all-elem, is_processed-all, process_ancestry_processed}
use clair.Prelude.{
  Bool, true, false, Option, none, some, List, [], ◌∷◌, Bytes, all, elem, is_empty, MapOrder,
  Outcome, ok, err, panic, hang, >>=-ok, ◌≡◌, refl, sym, ap, ◌∙◌, subst, arith, Bool-cases, inl,
  inr,
}

module _ (o : MapOrder) (d : Datastore) (sets : WorkerSets) (enabled_detectors : List Detector)
    (scanners : Scanners d.Error) where
  -- Every enabled detector is among those of the ancestry that is found.
  abbrev pub Complete : Option Ancestry → Type 0
  Complete found =
      (b : Ancestry) × (found ≡ some b) × (all (λ dt. elem dt b.by) enabled_detectors ≡ true)

  -- A chain of calls that returns has had a first call that returns.
  then-ok :
      {A B : Type 0} (r : Result d A) (next : A → d.Store → Result d B) (b : B) (s : d.Store)
      → and_then o d sets.detectors enabled_detectors scanners r next ≡ (ok b, s)
      → (a : A) × (t : d.Store) × (r ≡ (ok a, t)) × (next a t ≡ (ok b, s))
  then-ok {B = B} (ok a, t) next b s e = (a, t, refl, e)
  then-ok {B = B} (err x, t) next b s e = absurd (cc (ap (λ (z : Result d B). z.0) e))
  then-ok {B = B} (panic, t) next b s e = absurd (cc (ap (λ (z : Result d B). z.0) e))
  then-ok {B = B} (hang, t) next b s e = absurd (cc (ap (λ (z : Result d B). z.0) e))

  -- Detectors that ran on all scanned layers include every enabled one.
  AllScanned-all :
      (dt : Detector) (rs : List LayerRequest) (ls : List Layer)
      → elem dt enabled_detectors ≡ true
      → AllScanned o d sets.detectors enabled_detectors scanners rs ls
      → all (λ (l : Layer). elem dt l.by) ls ≡ true
  AllScanned-all dt [] [] e h = refl
  AllScanned-all dt [] (l ∷ ls) e h = absurd h
  AllScanned-all dt (r ∷ rs) [] e h = absurd h
  AllScanned-all dt (r ∷ rs) (l ∷ ls) e h =
      let here = h.0.1 dt e in let rest = AllScanned-all dt rs ls e h.1 in ground arith

  -- What FindAncestryAndRollback does where it returns.
  find_ancestry-ok :
      (name : Bytes) (s : d.Store) (found : Option Ancestry)
      → find_ancestry_and_rollback d name s ≡ ok found
      → (tx : d.Tx) × (d.begin s ≡ ok tx) × (d.find_ancestry name tx ≡ ok found)
  unfolding find_ancestry_and_rollback
  find_ancestry-ok name s found e = go (d.begin s) refl e
    where
      go :
          (m : Outcome d.Error d.Tx)
          → d.begin s ≡ m
          → find_ancestry_in d name m ≡ ok found
          → (tx : d.Tx) × (d.begin s ≡ ok tx) × (d.find_ancestry name tx ≡ ok found)
      go (ok tx) b f = (tx, b, f)
      go (err x) b f = absurd (cc)
      go panic b f = absurd (cc)
      go hang b f = absurd (cc)

  module _ (laws : AncestryLaws d) where
    upsert-Complete :
        (a : Ancestry) (s after : d.Store) (found : Option Ancestry)
        → ((dt : Detector) → elem dt enabled_detectors ≡ true → elem dt a.by ≡ true)
        → upsert_ancestry_and_commit d a s ≡ (ok tt, after)
        → find_ancestry_and_rollback d a.name after ≡ ok found
        → Complete found
    unfolding upsert_ancestry_and_commit
    upsert-Complete a s after found covers e f =
        elim (finish-IsAtomic d (λ tx. write d (d.upsert_ancestry a tx)) s) [
          | inl (u, tx, h, c, _) ↦
              let (t, b, h1) = >>=-ok (d.begin s) (λ t. write d (d.upsert_ancestry a t)) _ h in
              let (up, q, h2) = >>=-ok (d.upsert_ancestry a t) _ _ h1 in
              let (found_in, b2, g) = find_ancestry-ok a.name after found f in
              let same : up ≡ tx = cc h2 in
              let committed : d.commit up ≡ ok after =
                ap d.commit same ∙ c ∙ ap (λ (z : Result d Unit). ok (z.1)) e in
              let (x, y, z) = laws.find-upsert a t up found_in after found q committed b2 g in
              (x, y, all-elem enabled_detectors x.by (λ dt k. z dt ∙ covers dt k))
          | inr (_, failed) ↦ absurd (failed tt (ap (λ (z : Result d Unit). z.0) e))
        ]

    persist-Complete :
        (a : Ancestry) (s after : d.Store) (found : Option Ancestry)
        → ((dt : Detector) → elem dt enabled_detectors ≡ true → elem dt a.by ≡ true)
        → persist_ancestry o d sets enabled_detectors scanners a s ≡ (ok tt, after)
        → find_ancestry_and_rollback d a.name after ≡ ok found
        → Complete found
    unfolding persist_ancestry
    persist-Complete a s after found covers e f =
        let features = get_ancestry_features sets.namespaced_features a in
        let (_, t, _, e1) =
          then-ok (persist_namespaced_features_and_commit d features s) _ tt after e in
        let (_, u, _, e2) =
          then-ok (cache_related_vulnerability_and_commit d features t) _ tt after e1 in
        upsert-Complete a u after found covers e2 f

    computed-Complete :
        (name : Bytes) (r : LayerRequest) (rs : List LayerRequest) (layers : List Layer)
        (s after : d.Store) (found : Option Ancestry)
        → AllScanned o d sets.detectors enabled_detectors scanners (r ∷ rs) layers
        → process_computed o d sets enabled_detectors scanners name layers s ≡ (ok tt, after)
        → find_ancestry_and_rollback d name after ≡ ok found
        → Complete found
    unfolding process_computed
    computed-Complete name r rs [] s after found scanned e f = absurd scanned
    computed-Complete name r rs (l ∷ ls) s after found scanned e f =
        go (compute_ancestry_layers o sets.detectors (l ∷ ls)) refl e
      where
        go :
            (computed : Option (List AncestryLayer × List Detector))
            → compute_ancestry_layers o sets.detectors (l ∷ ls) ≡ computed
            → or_no_format o d sets enabled_detectors scanners name computed s ≡ (ok tt, after)
            → Complete found
        go none c p = absurd (cc (ap (λ (z : Result d Unit). z.0) p))
        go (some (layers, by)) c p =
            let common = (compute_ancestry_layers_lem o sets.detectors l ls layers by c).1 in
            persist-Complete (record { name = name; by = by; layers = layers }) s after found
              (λ dt k. common dt ∙ AllScanned-all dt (r ∷ rs) (l ∷ ls) k scanned) p f

    -- What ProcessAncestry does behind the test whether the ancestry is processed.
    unless_processed-Complete :
        (finds : FindsHash o d sets.detectors enabled_detectors scanners)
        (image_format name : Bytes) (r : LayerRequest) (rs : List LayerRequest) (s after : d.Store)
        (found : Option Ancestry) (m : Outcome d.Error Bool)
        → is_ancestry_processed o d sets enabled_detectors scanners name s ≡ m
        → unless_processed o d sets enabled_detectors scanners image_format name (r ∷ rs) m s
          ≡ (ok tt, after)
        → find_ancestry_and_rollback d name after ≡ ok found
        → Complete found
    unfolding is_ancestry_processed is_processed
    unless_processed-Complete finds image_format name r rs s after found (ok true) q e f =
        let same : s ≡ after = ap (λ (z : Result d Unit). z.1) e in
        let (other, g, p) = >>=-ok (find_ancestry_and_rollback d name s) _ true q in
        let same_found : other ≡ found =
          cc (sym g ∙ ap (find_ancestry_and_rollback d name) same ∙ f) in
        subst Complete same_found (go other (cc p))
      where
        go :
            (other : Option Ancestry)
            → is_processed o d sets enabled_detectors scanners other ≡ true
            → Complete other
        go none p = absurd (cc)
        go (some b) p = (b, refl, sym (is_processed-all o d sets enabled_detectors scanners b) ∙ p)
    unless_processed-Complete finds image_format name r rs s after found (ok false) q e f =
        let (layers, t, p, e1) = then-ok _ _ tt after e in
        computed-Complete name r rs layers t after found
          (process_layers-AllScanned o d sets.detectors enabled_detectors scanners finds sets.layers
            sets.features sets.namespaces image_format (r ∷ rs) s layers
            (ap (λ (z : Result d (List Layer)). z.0) p))
          e1 f
    unless_processed-Complete finds image_format name r rs s after found (err x) q e f =
        absurd (cc (ap (λ (z : Result d Unit). z.0) e))
    unless_processed-Complete finds image_format name r rs s after found panic q e f =
        absurd (cc (ap (λ (z : Result d Unit). z.0) e))
    unless_processed-Complete finds image_format name r rs s after found hang q e f =
        absurd (cc (ap (λ (z : Result d Unit). z.0) e))

    -- If ProcessAncestry returns without an error, for layers of which there is at least one, then the
    -- ancestry that the store behind it finds under the name exists and has every enabled detector,
    -- and the same call on that store returns without an error and leaves the store as it is; provided
    -- that the store finds a layer under its own hash, and an ancestry that was upserted under its
    -- name with its detectors.
    pub process_ancestry-again :
        (finds : FindsHash o d sets.detectors enabled_detectors scanners)
        (image_format name : Bytes) (r : LayerRequest) (rs : List LayerRequest)
        (store after : d.Store) (found : Option Ancestry)
        → process_ancestry o d sets enabled_detectors scanners image_format name (r ∷ rs) store
          ≡ (ok tt, after)
        → find_ancestry_and_rollback d name after ≡ ok found
        → Complete found
          × (process_ancestry o d sets enabled_detectors scanners image_format name (r ∷ rs) after
              ≡ (ok tt, after))
    unfolding process_ancestry
    process_ancestry-again finds image_format name r rs store after found e f =
        elim (Bool-cases (is_empty name)) [
          | inl x ↦ absurd (cc (ap (λ (z : Result d Unit). z.0) (rw x at e)))
          | inr x ↦ elim (Bool-cases (is_empty image_format)) [
            | inl y ↦ absurd (cc (ap (λ (z : Result d Unit). z.0) (rw (x, y) at e)))
            | inr y ↦
                let (b, q, covers) =
                  unless_processed-Complete finds image_format name r rs store after found
                    (is_ancestry_processed o d sets enabled_detectors scanners name store) refl
                    (rw (x, y) at e) f in
                (
                  (b, q, covers),
                  process_ancestry_processed o d sets enabled_detectors scanners image_format name
                      (r ∷ rs) after b x y (f ∙ ap ok q) covers,
                )
          ]
        ]
