-- ===== src/Worker/Layers/Scanned.antt =====
-- What the layers that processLayers returns have been scanned by.
use clair.Database.{Detector, Namespace, Feature, Layer, detector_eq, feature_eq, namespace_eq}
use clair.Database.Sets.{MapSet}
use clair.Database.Dbutil.{LayerSets, merge_layers}
use clair.Database.Dbutil.Merge.{elem-merge_lists, elem-diff_detectors}
use clair.Database.Session.{Datastore}
use clair.Database.Transactions.{Result, find_layer_and_rollback}
use clair.Worker.Layers.{
  LayerRequest, ProcessRequest, Scanners, RequestMap, ResultMap, detect_content, request_of,
  get_process_request, get_process_requests, run_requests, unless_error, process_requests, and_then,
  persist_process_result, get_process_result_layers, in_request_order, store_results,
  process_layers,
}
use clair.Worker.Layers.Detected.{detect_content-by, detect_content-existing}
use clair.Worker.Errors.{combine_errors}
use clair.Prelude.{
  true, ◌||◌, Option, none, some, List, [], ◌∷◌, Bytes, bytes_eq, elem, All, All-put, All-get, get,
  put, get-put, ◌===◌, ===-refl, MapOrder, Outcome, ok, err, panic, hang, ◌>>=◌, >>=-ok, inl, inr,
  ◌≡◌, refl, arith, ◌∙◌, ap, subst, Bool-cases,
}

module _ (o : MapOrder) (d : Datastore) (detector_set : MapSet Detector)
    (enabled_detectors : List Detector) (scanners : Scanners d.Error) where
  -- The request is for the layer, and its detectors are all that are enabled and have not run on it.
  abbrev Ready : Bytes → ProcessRequest → Type 0
  Ready hash p =
      (p.existing_layer.hash ≡ hash)
      × ((dt : Detector)
          → elem dt enabled_detectors ≡ true
          → (elem dt p.existing_layer.by || elem dt p.detectors) ≡ true)

  abbrev AllReady : RequestMap → Type 0
  AllReady m = All (λ (x : Bytes × ProcessRequest). Ready x.0 x.1) m

  -- A layer that the store finds has the hash that was asked for.
  abbrev pub FindsHash : Type 0
  FindsHash =
      (hash : Bytes) (tx : d.Tx) (l : Layer) → d.find_layer hash tx ≡ ok (some l) → l.hash ≡ hash

  request_of-Ready :
      (r : LayerRequest) (found : Option Layer)
      → ((l : Layer) → found ≡ some l → l.hash ≡ r.hash)
      → Ready r.hash (request_of o d detector_set enabled_detectors scanners r found)
  request_of-Ready r none h = (refl, λ dt e. e)
  request_of-Ready r (some l) h = (
    h l refl,
    λ dt e. ground (arith, e, (elem-diff_detectors detector_set enabled_detectors l.by dt).0),
  )

  get_process_request-Ready :
      (finds : FindsHash) (r : LayerRequest) (store : d.Store) (p : ProcessRequest)
      → get_process_request o d detector_set enabled_detectors scanners r store ≡ ok p
      → Ready r.hash p
  unfolding get_process_request find_layer_and_rollback
  get_process_request-Ready finds r store p e =
      let (found, f, e1) = >>=-ok (find_layer_and_rollback d r.hash store) _ p e in
      let (tx, b, e2) = >>=-ok (d.begin store) (d.find_layer r.hash) found f in
      let same : request_of o d detector_set enabled_detectors scanners r found ≡ p = cc e1 in
      subst (Ready r.hash) same (request_of-Ready r found (λ l q. finds r.hash tx l (e2 ∙ ap ok q)))

  abbrev Has : RequestMap → Bytes → Type 0
  Has m hash = (p : ProcessRequest) × (get hash m ≡ some p)

  Has-put :
      (m : RequestMap) (k hash : Bytes) (p : ProcessRequest) → Has m hash → Has (put k p m) hash
  Has-put m k hash p (q, e) = elim (Bool-cases (k === hash)) [
    | inl x ↦ (p, get-put k hash p m ∙ rw x refl)
    | inr x ↦ (q, get-put k hash p m ∙ rw x e)
  ]

  -- What the first loop gives: all requests are there and ready, and no key is lost.
  get_process_requests_lem :
      (finds : FindsHash) (m : RequestMap) (rs : List LayerRequest) (store : d.Store)
      (after : RequestMap)
      → get_process_requests o d detector_set enabled_detectors scanners m rs store ≡ ok after
      → AllReady m
      → AllReady after
        × ((hash : Bytes) → Has m hash → Has after hash)
        × All (λ (r : LayerRequest). Has after r.hash) rs
  unfolding get_process_requests
  get_process_requests_lem finds m [] store after e h =
      let same : m ≡ after = cc e in
      (subst AllReady same h, λ hash k. subst (λ x. Has x hash) same k, tt)
  get_process_requests_lem finds m (r ∷ rs) store after e h =
      let (p, g, e1) =
        >>=-ok (get_process_request o d detector_set enabled_detectors scanners r store) _ after
          e in
      let (a, b, c) =
        get_process_requests_lem finds (put r.hash p m) rs store after e1
          (All-put Ready r.hash p m h (get_process_request-Ready finds r store p g)) in
      (
        a,
        λ hash k. b hash (Has-put m r.hash hash p k),
        (b r.hash (p, get-put r.hash r.hash p m ∙ rw (===-refl r.hash) refl), c),
      )

  abbrev complete : LayerSets → Bytes → RequestMap → List (Bytes × Layer)
  complete sets image_format m =
      get_process_result_layers o d detector_set enabled_detectors scanners sets
        (run_requests o d detector_set enabled_detectors scanners image_format m)

  abbrev merged : LayerSets → Bytes → ProcessRequest → Layer
  merged sets image_format p =
      merge_layers sets (detect_content scanners image_format p).existing_layer
        (detect_content scanners image_format p).new_layer_content

  get-complete :
      (sets : LayerSets) (image_format : Bytes) (m : RequestMap) (hash : Bytes) (p : ProcessRequest)
      → get hash m ≡ some p
      → get hash (complete sets image_format m) ≡ some (merged sets image_format p)
  unfolding run_requests get_process_result_layers get
  get-complete sets image_format [] hash p e = absurd (cc)
  get-complete sets image_format ((k, q) ∷ m) hash p e = elim (Bool-cases (k === hash)) [
    | inl x ↦
        let same : q ≡ p = cc (rw x at e) in rw x (ap (λ r. some (merged sets image_format r)) same)
    | inr x ↦ rw x (get-complete sets image_format m hash p (rw x at e))
  ]

  -- The layer has the hash, and every enabled detector has run on it.
  abbrev pub IsScanned : Bytes → Layer → Type 0
  IsScanned hash l =
      (l.hash ≡ hash) × ((dt : Detector) → elem dt enabled_detectors ≡ true → elem dt l.by ≡ true)

  abbrev pub AllScanned : List LayerRequest → List Layer → Type 0
  AllScanned [] [] = Unit
  AllScanned [] (l ∷ ls) = ⊥
  AllScanned (r ∷ rs) [] = ⊥
  AllScanned (r ∷ rs) (l ∷ ls) = IsScanned r.hash l × AllScanned rs ls

  merged-IsScanned :
      (sets : LayerSets) (image_format hash : Bytes) (p : ProcessRequest)
      → Ready hash p
      → IsScanned hash (merged sets image_format p)
  unfolding merge_layers
  merged-IsScanned sets image_format hash p (h, covers) = (
    ap (λ (l : Layer). l.hash) (detect_content-existing scanners image_format p) ∙ h,
    λ dt e.
        elem-merge_lists sets.detectors _ _ dt
        ∙ rw
            (
              detect_content-existing scanners image_format p,
              detect_content-by scanners image_format p,
            )
            (covers dt e),
  )

  in_request_order-AllScanned :
      (sets : LayerSets) (image_format : Bytes) (m : RequestMap) (rs : List LayerRequest)
      → AllReady m
      → All (λ (r : LayerRequest). Has m r.hash) rs
      → AllScanned rs (
          in_request_order o d detector_set enabled_detectors scanners
            (complete sets image_format m)
            rs)
  unfolding in_request_order
  in_request_order-AllScanned sets image_format m [] h k = tt
  in_request_order-AllScanned sets image_format m (r ∷ rs) h ((p, e), k) = (
    rw (get-complete sets image_format m r.hash p e)
        (merged-IsScanned sets image_format r.hash p (All-get Ready r.hash p m h e)),
    in_request_order-AllScanned sets image_format m rs h k,
  )

  process_requests_lem :
      (image_format : Bytes) (m : RequestMap)
      (results : ResultMap o d detector_set enabled_detectors scanners)
      → process_requests o d detector_set enabled_detectors scanners image_format m ≡ ok results
      → results ≡ run_requests o d detector_set enabled_detectors scanners image_format m
  unfolding process_requests
  process_requests_lem image_format m results e = by_errors (combine_errors _) e
    where
      by_errors :
          (c : Option Bytes)
          → unless_error o d detector_set enabled_detectors scanners c
              (run_requests o d detector_set enabled_detectors scanners image_format m)
            ≡ ok results
          → results ≡ run_requests o d detector_set enabled_detectors scanners image_format m
      by_errors none q = cc
      by_errors (some t) q = absurd (cc)

  -- A constant continuation gives its value.
  and_then-ok :
      {A B : Type 0} (r : Result d A) (a b : B)
      → (and_then o d detector_set enabled_detectors scanners r (λ _ s. (ok a, s))).0 ≡ ok b
      → a ≡ b
  and_then-ok (ok x, s) a b e = cc
  and_then-ok (err x, s) a b e = absurd (cc)
  and_then-ok (panic, s) a b e = absurd (cc)
  and_then-ok (hang, s) a b e = absurd (cc)

  -- If processLayers returns layers, there is one for each request in the order of the requests, it
  -- has the hash of the request, and every enabled detector has run on it; provided that the store
  -- finds a layer under its own hash.
  pub process_layers-AllScanned :
      (finds : FindsHash) (sets : LayerSets) (feature_set : MapSet Feature)
      (namespace_set : MapSet Namespace) (image_format : Bytes) (requests : List LayerRequest)
      (store : d.Store) (layers : List Layer)
      → (process_layers o d detector_set enabled_detectors scanners sets feature_set namespace_set
          image_format requests store).0
        ≡ ok layers
      → AllScanned requests layers
  unfolding process_layers
  process_layers-AllScanned finds sets feature_set namespace_set image_format requests store layers
        e =
      by_results
        (get_process_requests o d detector_set enabled_detectors scanners [] requests store
          >>= process_requests o d detector_set enabled_detectors scanners image_format)
        refl e
    where
      by_results :
          (m : Outcome d.Error (ResultMap o d detector_set enabled_detectors scanners))
          → (get_process_requests o d detector_set enabled_detectors scanners [] requests store
              >>= process_requests o d detector_set enabled_detectors scanners image_format)
            ≡ m
          → (store_results o d detector_set enabled_detectors scanners sets feature_set
              namespace_set requests store m).0
            ≡ ok layers
          → AllScanned requests layers
      by_results (ok results) q k =
          let (m, g, p) =
            >>=-ok
              (get_process_requests o d detector_set enabled_detectors scanners [] requests store) _
              results q in
          let (ready, kept, has) = get_process_requests_lem finds [] requests store m g tt in
          let same =
            and_then-ok
              (persist_process_result o d detector_set enabled_detectors scanners feature_set
                namespace_set results store)
              _ layers k in
          subst (AllScanned requests) same (
            rw (process_requests_lem image_format m results p)
              (in_request_order-AllScanned sets image_format m requests ready has))
      by_results (err x) q k = absurd (cc)
      by_results panic q k = absurd (cc)
      by_results hang q k = absurd (cc)
