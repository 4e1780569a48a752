-- ===== src/Metrics.antt =====
-- internal/inspector/metrics.go and capture.go: the collectors that `newMetrics` and `newSampleCapture`
-- register, by their names and label names, in the order they are registered in. Help texts and
-- buckets are left out.
use remote_write_inspector.Prelude.{List, [], ◌∷◌, ◌++◌, Option, some, ◌>>=◌}
use remote_write_inspector.Prelude.Bytes.{Bytes, codes}
use remote_write_inspector.Config.Types.{TopSeriesLabel}
pub mod Labels
pub mod Registry
pub mod Registered
pub mod Valid
pub mod Fresh

pub record Collector : Type 0 where
  pub name : Bytes
  pub labels : List Bytes

-- `appendLabels`.
unfoldable pub append_labels : List Bytes → List Bytes → List Bytes
append_labels labels extra = labels ++ extra

-- The outputs of the projections.
abbrev pub outputs : List TopSeriesLabel → List Bytes
outputs [] = []
outputs (p ∷ ps) = p.output ∷ outputs ps

-- The label names of the top series.
unfoldable pub top_series_label_names : List Bytes → List TopSeriesLabel → List Bytes
top_series_label_names identity_labels projections =
    append_labels identity_labels
      (codes "reason" ∷ codes "series_name" ∷ codes "host_name" ∷ codes "series_fingerprint" ∷ [])
    ++ outputs projections

-- A collector of the program, by what follows the prefix of its name.
abbrev pub registered : Bytes → List Bytes → Collector
registered name labels = record { name = codes "remote_write_inspector_" ++ name; labels = labels }

-- `newMetrics`.
unfoldable pub new_metrics : List Bytes → List TopSeriesLabel → List Collector
new_metrics identity_labels projections =
    registered (codes "requests_total") (append_labels identity_labels (codes "result" ∷ []))
    ∷ registered (codes "samples_total") identity_labels
    ∷ registered (codes "bad_series_total") (append_labels identity_labels (codes "reason" ∷ []))
    ∷ registered (codes "bad_samples_total") (append_labels identity_labels (codes "reason" ∷ []))
    ∷ registered (codes "decode_errors_total") (codes "reason" ∷ [])
    ∷ registered (codes "cache_entries") (codes "cache" ∷ [])
    ∷ registered (codes "cache_capacity_entries") (codes "cache" ∷ [])
    ∷ registered (codes "cache_evictions_total") (codes "cache" ∷ [])
    ∷ registered (codes "cache_operations_total") (codes "cache" ∷ codes "result" ∷ [])
    ∷ registered (codes "in_flight_requests") []
    ∷ registered (codes "max_in_flight_requests") []
    ∷ registered (codes "request_bytes") []
    ∷ registered (codes "request_duration_seconds") []
    ∷ registered (codes "decode_duration_seconds") []
    ∷ registered (codes "validation_duration_seconds") []
    ∷ registered (codes "top_series") (top_series_label_names identity_labels projections)
    ∷ []

-- The collectors of `newSampleCapture`.
unfoldable pub capture_collectors : List Bytes → List Collector
capture_collectors identity_labels =
    registered (codes "capture_matched_samples_total")
      (append_labels identity_labels (codes "sample_type" ∷ []))
    ∷ registered (codes "capture_captured_samples_total")
        (append_labels identity_labels (codes "sample_type" ∷ []))
    ∷ registered (codes "capture_skipped_samples_total")
        (append_labels identity_labels (codes "sample_type" ∷ codes "reason" ∷ []))
    ∷ registered (codes "capture_truncated_samples_total") identity_labels
    ∷ registered (codes "capture_deadline_timestamp_seconds") []
    ∷ []

-- The loops that register them in turn, by `Register` of a registry; `none` is its error.
unfoldable pub register_all :
    {R : Type 0} → (Collector → R → Option R) → List Collector → R → Option R
register_all register [] r = some r
register_all register (c ∷ cs) r = do r' ← register c r; register_all register cs r'
