-- ===== src/Main.antt =====
-- cmd/remote-write-inspector/main.go: the configuration that the flags make. The flag library hands over
-- the flags with their parsed values; Main/Process.antt has what follows.
use remote_write_inspector.Prelude.{
  ◌*◌, Bool, false, List, [], ◌∷◌, ◌++◌, none, some, if◌then◌else◌, ◌⊎◌, inl, inr,
}
use remote_write_inspector.Prelude.Bytes.{Bytes, codes, bytes_eq}
use remote_write_inspector.Prelude.Int.{ℤ, pos}
use remote_write_inspector.Capture.{CaptureConfig, default_capture_config}
use remote_write_inspector.Config.Types.{TopSeriesLabel, Config, ParseError}
use remote_write_inspector.Config.{seconds, parse_top_series_label}
pub mod Defaults
pub mod Process
pub mod Exits

-- A flag with its parsed value, as the flag library hands it over; a repeatable one with its text.
pub data Flag (F : Type 0) : Type 0 where
  listen_address : Bytes → Flag F
  max_body_bytes max_in_flight_requests stale_cutoff future_skew max_labels : ℤ → Flag F
  max_label_value_length max_identity_length cache_size cache_memory_bytes cache_ttl : ℤ → Flag F
  top_series_size top_series_window log_first_examples_per_window log_label_bytes : ℤ → Flag F
  top_series_label identity capture_selector : Bytes → Flag F
  log_sample_rate : F → Flag F
  disable_duplicate_sample_detection disable_cross_path_collision_detection : Bool → Flag F
  capture_duration capture_max_samples capture_rate capture_label_bytes : ℤ → Flag F

-- The variables of `main` that the flags set.
pub record Options (F : Type 0) : Type 0 where
  pub cfg : Config F
  pub identities : List Bytes
  pub labels : List TopSeriesLabel
  pub selector : Bytes
  pub capture : CaptureConfig

-- The defaults of the flags; `rate` is 0.01.
abbrev pub default_options : {F : Type 0} → F → Options F
default_options rate = record {
  cfg = record {
    capture = none;
    listen_address = codes ":8080";
    max_body_bytes = pos (32 * 1_048_576);
    max_in_flight_requests = pos 8;
    identity_names = [];
    max_identity_length = pos 128;
    stale_cutoff = seconds (23 * 3600);
    future_skew = seconds (10 * 60);
    max_labels = pos 128;
    max_label_value_length = pos 4096;
    cache_size = pos 500_000;
    cache_memory_bytes = pos 0;
    cache_ttl = seconds (25 * 3600);
    top_series_size = pos 20;
    top_series_window = seconds (5 * 60);
    top_series_labels = [];
    log_sample_rate = rate;
    log_first_examples_per_window = pos 20;
    log_label_bytes = pos 4096;
    diagnostic_metric_prefixes = [];
    disable_duplicate_sample_detection = false;
    disable_cross_path_collision_detection = false;
  };
  identities = [];
  labels = [];
  selector = [];
  capture = default_capture_config;
}

-- `identityFlags.Set`.
unfoldable pub set_identity : Bytes → List Bytes → List Bytes
set_identity value values = values ++ (value ∷ [])

-- `topSeriesLabelFlags.Set`.
unfoldable pub set_top_series_label :
    (Bytes → Bytes) → Bytes → List TopSeriesLabel → ParseError ⊎ List TopSeriesLabel
set_top_series_label trim_space value labels = elim (parse_top_series_label trim_space value) [
  | inl e ↦ inl e
  | inr projection ↦ inr (labels ++ (projection ∷ []))
]

-- A flag of `cfg`, and one of the capture session.
unfoldable pub set_cfg : {F : Type 0} → Config F → Options F → ParseError ⊎ Options F
set_cfg cfg o = inr (record o { cfg = cfg })

unfoldable pub set_capture : {F : Type 0} → CaptureConfig → Options F → ParseError ⊎ Options F
set_capture capture o = inr (record o { capture = capture })

module _ {F : Type 0} (trim_space : Bytes → Bytes) where
  -- A flag on the command line.
  unfoldable pub set_flag : Flag F → Options F → ParseError ⊎ Options F
  set_flag (listen_address s) o = set_cfg (record o.cfg { listen_address = s }) o
  set_flag (max_body_bytes n) o = set_cfg (record o.cfg { max_body_bytes = n }) o
  set_flag (max_in_flight_requests n) o = set_cfg (record o.cfg { max_in_flight_requests = n }) o
  set_flag (stale_cutoff n) o = set_cfg (record o.cfg { stale_cutoff = n }) o
  set_flag (future_skew n) o = set_cfg (record o.cfg { future_skew = n }) o
  set_flag (max_labels n) o = set_cfg (record o.cfg { max_labels = n }) o
  set_flag (max_label_value_length n) o = set_cfg (record o.cfg { max_label_value_length = n }) o
  set_flag (max_identity_length n) o = set_cfg (record o.cfg { max_identity_length = n }) o
  set_flag (cache_size n) o = set_cfg (record o.cfg { cache_size = n }) o
  set_flag (cache_memory_bytes n) o = set_cfg (record o.cfg { cache_memory_bytes = n }) o
  set_flag (cache_ttl n) o = set_cfg (record o.cfg { cache_ttl = n }) o
  set_flag (top_series_size n) o = set_cfg (record o.cfg { top_series_size = n }) o
  set_flag (top_series_window n) o = set_cfg (record o.cfg { top_series_window = n }) o
  set_flag (log_first_examples_per_window n) o =
      set_cfg (record o.cfg { log_first_examples_per_window = n }) o
  set_flag (log_label_bytes n) o = set_cfg (record o.cfg { log_label_bytes = n }) o
  set_flag (log_sample_rate x) o = set_cfg (record o.cfg { log_sample_rate = x }) o
  set_flag (disable_duplicate_sample_detection b) o =
      set_cfg (record o.cfg { disable_duplicate_sample_detection = b }) o
  set_flag (disable_cross_path_collision_detection b) o =
      set_cfg (record o.cfg { disable_cross_path_collision_detection = b }) o
  set_flag (top_series_label s) o = elim (set_top_series_label trim_space s o.labels) [
    | inl e ↦ inl e
    | inr labels ↦ inr (record o { labels = labels })
  ]
  set_flag (identity s) o = inr (record o { identities = set_identity s o.identities })
  set_flag (capture_selector s) o = inr (record o { selector = s })
  set_flag (capture_duration n) o = set_capture (record o.capture { duration = n }) o
  set_flag (capture_max_samples n) o = set_capture (record o.capture { max_samples = n }) o
  set_flag (capture_rate n) o = set_capture (record o.capture { rate = n }) o
  set_flag (capture_label_bytes n) o = set_capture (record o.capture { label_bytes = n }) o

  -- `flag.Parse`, on flags whose values are parsed, in their order; an error ends the program.
  unfoldable pub set_flags : List (Flag F) → Options F → ParseError ⊎ Options F
  set_flags [] o = inr o
  set_flags (flag ∷ flags) o = elim (set_flag flag o) [
    | inl e ↦ inl e
    | inr o' ↦ set_flags flags o'
  ]

-- The configuration that `main` passes on; without a selector there is no capture session.
unfoldable pub configured : {F : Type 0} → Options F → Config F
configured o = record o.cfg {
  identity_names = o.identities;
  capture = if bytes_eq o.selector [] then none else some o.capture;
  top_series_labels = o.labels;
  diagnostic_metric_prefixes = codes "remote_write_inspector_" ∷ codes "obspipeline_" ∷ [];
}
