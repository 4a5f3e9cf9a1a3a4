-- ===== src/Worker/Layers/Detected.antt =====
-- What detectContent leaves in its result, whether a scan fails or not.
use clair.Database.{Detector, Layer, LayerNamespace, LayerFeature}
use clair.Worker.Layers.{
  ProcessRequest, Scanners, scan_files, scan_namespaces, scan_features, detect_content, empty_layer,
}
use clair.Prelude.{List, Bytes, ◌⊎◌, inl, inr, ◌≡◌, refl}

module _ {E : Type 0} (scanners : Scanners E) where
  scan_features-by :
      (l : Layer) (found : E ⊎ List LayerFeature) → (scan_features scanners l found).0.by ≡ l.by
  scan_features-by l (inl e) = refl
  scan_features-by l (inr features) = refl

  scan_namespaces-by :
      (l : Layer) (ds : List Detector) (files : scanners.Files) (found : E ⊎ List LayerNamespace)
      → (scan_namespaces scanners l ds files found).0.by ≡ l.by
  scan_namespaces-by l ds files (inl e) = refl
  scan_namespaces-by l ds files (inr ns) =
      scan_features-by (record l { namespaces = ns }) (scanners.list_features files ds)

  scan_files-by :
      (l : Layer) (ds : List Detector) (files : E ⊎ scanners.Files)
      → (scan_files scanners l ds files).0.by ≡ l.by
  scan_files-by l ds (inl e) = refl
  scan_files-by l ds (inr files) = scan_namespaces-by l ds files (scanners.detect files ds)

  pub detect_content-by :
      (image_format : Bytes) (req : ProcessRequest)
      → (detect_content scanners image_format req).new_layer_content.by ≡ req.detectors
  unfolding detect_content
  detect_content-by image_format req =
      scan_files-by (empty_layer req.request.hash req.detectors) req.detectors
        (scanners.extract_required_files image_format req)

  pub detect_content-existing :
      (image_format : Bytes) (req : ProcessRequest)
      → (detect_content scanners image_format req).existing_layer ≡ req.existing_layer
  unfolding detect_content
  detect_content-existing image_format req = refl
