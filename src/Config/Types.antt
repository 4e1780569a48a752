-- ===== src/Config/Types.antt =====
-- internal/inspector/config.go: `TopSeriesLabel`, `Config`, and the errors of their checks.
use remote_write_inspector.Prelude.{Bool, List, Option}
use remote_write_inspector.Prelude.Bytes.{Bytes}
use remote_write_inspector.Prelude.Int.{ℤ}
use remote_write_inspector.Capture.{CaptureConfig}

pub record TopSeriesLabel : Type 0 where
  pub source : Bytes
  pub output : Bytes

pub record Config (F : Type 0) : Type 0 where
  pub capture : Option CaptureConfig
  pub listen_address : Bytes
  pub max_body_bytes : ℤ
  pub max_in_flight_requests : ℤ
  pub identity_names : List Bytes
  pub max_identity_length : ℤ
  pub stale_cutoff : ℤ
  pub future_skew : ℤ
  pub max_labels : ℤ
  pub max_label_value_length : ℤ
  pub cache_size : ℤ
  pub cache_memory_bytes : ℤ
  pub cache_ttl : ℤ
  pub top_series_size : ℤ
  pub top_series_window : ℤ
  pub top_series_labels : List TopSeriesLabel
  pub log_sample_rate : F
  pub log_first_examples_per_window : ℤ
  pub log_label_bytes : ℤ
  pub diagnostic_metric_prefixes : List Bytes
  pub disable_duplicate_sample_detection : Bool
  pub disable_cross_path_collision_detection : Bool

pub data ConfigError : Type 0 where
  invalid_source invalid_output duplicate_source duplicate_output reserved_output :
      Bytes → ConfigError
  sample_rate first_examples : ConfigError

pub data ParseError : Type 0 where
  empty_source empty_output : ParseError
