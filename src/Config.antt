-- ===== src/Config.antt =====
-- internal/inspector/config.go: the configuration and its normalization. A floating point number is
-- of the type `F`, and the comparison of a rate with 0 and 1 is the parameter `rate_out_of_range`.
-- `strings.TrimSpace` is a parameter too.
use remote_write_inspector.Prelude.{
  ℕ, ◌+◌, ◌-◌, ◌*◌, ◌/◌, ◌^◌, Bool, true, false, ◌&&◌, not, List, [], ◌∷◌, ◌++◌, Option, none, some,
  ltb, if◌then◌else◌, ◌⊎◌, inl, inr,
}
use remote_write_inspector.Prelude.Bytes.{Bytes, codes, bytes_eq}
use remote_write_inspector.Prelude.Int.{ℤ, pos, pos_part, ltb_ℤ}
use remote_write_inspector.Validate.{label_name_match}
use remote_write_inspector.Identity.{contains_string}
use remote_write_inspector.Capture.{CaptureConfig}
pub mod Types
pub mod Projections
pub mod Normal
pub mod Parsing
use Types.{TopSeriesLabel, Config, ConfigError, ParseError}

-- `activeStatefulDetectors`.
unfoldable pub active_stateful_detectors : {F : Type 0} → Config F → ℕ
active_stateful_detectors c =
    (if not c.disable_duplicate_sample_detection then 1 else 0)
    + (if not c.disable_cross_path_collision_detection
          && contains_string c.identity_names (codes "input_path")
        then 1
        else 0)

abbrev pub estimated_bytes_per_entry : ℕ
estimated_bytes_per_entry = 160

-- `maxInt` where an `int` has 64 bits.
abbrev pub max_int : ℕ
max_int = 2 ^ 63 - 1

-- `cacheSizeFromMemoryBudget`. A negative budget has a quotient below 1, as the budget 0 does.
unfoldable pub cache_size_from_memory_budget : ℤ → ℕ → ℕ
cache_size_from_memory_budget bytes active_caches =
    if ltb 0 active_caches
    then (let entries = pos_part bytes / (active_caches * estimated_bytes_per_entry) in
        if ltb entries 1 then 1 else if ltb max_int entries then max_int else entries)
    else 0

-- The labels and log attributes that a projection may not be named after, without the identities.
abbrev pub reserved_names : List Bytes
reserved_names =
    codes "__name__"
    ∷ codes "component"
    ∷ codes "event"
    ∷ codes "host_name"
    ∷ codes "incoming_value"
    ∷ codes "incoming_value_bits"
    ∷ codes "labels"
    ∷ codes "labels_truncated"
    ∷ codes "previous_value"
    ∷ codes "previous_value_bits"
    ∷ codes "reason"
    ∷ codes "sample_timestamp_ms"
    ∷ codes "sample_type"
    ∷ codes "series_fingerprint"
    ∷ codes "series_name"
    ∷ codes "value_delta"
    ∷ []

-- An output that is not given is `source_` and the source.
unfoldable pub default_output : TopSeriesLabel → TopSeriesLabel
default_output p =
    if bytes_eq p.output [] then record p { output = codes "source_" ++ p.source } else p

-- The checks of one projection, after the default of its output is set.
unfoldable pub check_projection :
    List Bytes → List Bytes → List Bytes → TopSeriesLabel → Option ConfigError
check_projection reserved sources outputs p =
    if not (label_name_match p.source)
    then some (ConfigError.invalid_source p.source)
    else if not (label_name_match p.output)
    then some (ConfigError.invalid_output p.output)
    else if contains_string sources p.source
    then some (ConfigError.duplicate_source p.source)
    else if contains_string outputs p.output
    then some (ConfigError.duplicate_output p.output)
    else if contains_string reserved p.output
    then some (ConfigError.reserved_output p.output)
    else none

-- The loop of `normalizeTopSeriesLabels`, with the sources and outputs seen before.
unfoldable pub normalize_projections :
    List Bytes → List Bytes → List Bytes → List TopSeriesLabel → ConfigError ⊎ List TopSeriesLabel
normalize_projections reserved sources outputs [] = inr []
normalize_projections reserved sources outputs (p ∷ ps) =
    let q = default_output p in
    let rest = normalize_projections reserved (q.source ∷ sources) (q.output ∷ outputs) ps in
    elim (check_projection reserved sources outputs q) [
      | some e ↦ inl e
      | none ↦ elim rest [ inl e ↦ inl e | inr qs ↦ inr (q ∷ qs) ]
    ]

-- `normalizeTopSeriesLabels`.
unfoldable pub normalize_top_series_labels :
    List Bytes → List TopSeriesLabel → ConfigError ⊎ List TopSeriesLabel
normalize_top_series_labels identity_names ps =
    normalize_projections (identity_names ++ reserved_names) [] [] ps

-- `if n <= 0 { n = d }`.
unfoldable pub positive_or : ℤ → ℤ → ℤ
positive_or d n = if ltb_ℤ (pos 0) n then n else d

-- A time in nanoseconds, from seconds.
abbrev pub seconds : ℕ → ℤ
seconds n = pos (n * 1_000_000_000)

-- The defaults of `normalize`, in the order of the code but for the projections, which no other
-- field depends on.
unfoldable pub with_defaults : {F : Type 0} → Config F → Config F
with_defaults c = record c {
  listen_address = if bytes_eq c.listen_address [] then codes ":8080" else c.listen_address;
  max_body_bytes = positive_or (pos 33_554_432) c.max_body_bytes;
  max_in_flight_requests = positive_or (pos 8) c.max_in_flight_requests;
  max_identity_length = positive_or (pos 128) c.max_identity_length;
  stale_cutoff = positive_or (seconds 82_800) c.stale_cutoff;
  future_skew = positive_or (seconds 600) c.future_skew;
  max_labels = positive_or (pos 128) c.max_labels;
  max_label_value_length = positive_or (pos 4096) c.max_label_value_length;
  cache_size =
      if ltb_ℤ (pos 0) c.cache_memory_bytes
      then pos (cache_size_from_memory_budget c.cache_memory_bytes (active_stateful_detectors c))
      else positive_or (pos 500_000) c.cache_size;
  cache_ttl = positive_or (seconds 90_000) c.cache_ttl;
  top_series_size = positive_or (pos 20) c.top_series_size;
  top_series_window = positive_or (seconds 300) c.top_series_window;
  log_label_bytes = positive_or (pos 4096) c.log_label_bytes;
  diagnostic_metric_prefixes = elim c.diagnostic_metric_prefixes [
    | [] ↦ codes "remote_write_inspector_" ∷ codes "obspipeline_" ∷ []
    | p ∷ ps ↦ p ∷ ps
  ];
}

module _ {F : Type 0} (rate_out_of_range : F → Bool) where
  -- `normalize`; its errors end it.
  unfoldable pub normalize : Config F → ConfigError ⊎ Config F
  normalize c = elim (normalize_top_series_labels c.identity_names c.top_series_labels) [
    | inl e ↦ inl e
    | inr ps ↦
        if rate_out_of_range c.log_sample_rate
        then inl ConfigError.sample_rate
        else if ltb_ℤ c.log_first_examples_per_window (pos 0)
        then inl ConfigError.first_examples
        else inr (record (with_defaults c) { top_series_labels = ps })
  ]

-- `strings.Cut(value, "=")`: what comes before the first `=`, what comes after it, whether there is
-- one.
unfoldable pub cut_equals : Bytes → Bytes × Bytes × Bool
cut_equals [] = ([], [], false)
cut_equals (c ∷ s) =
    let (before, after, found) = cut_equals s in
    if bytes_eq (c ∷ []) (codes "=") then ([], s, true) else (c ∷ before, after, found)

-- `ParseTopSeriesLabel`.
unfoldable pub parse_top_series_label : (Bytes → Bytes) → Bytes → ParseError ⊎ TopSeriesLabel
parse_top_series_label trim_space value =
    let (before, after, mapped) = cut_equals (trim_space value) in
    let source = trim_space before in
    let output = if mapped then trim_space after else codes "source_" ++ source in
    if bytes_eq source []
    then inl ParseError.empty_source
    else if bytes_eq output []
    then inl ParseError.empty_output
    else inr (record { source = source; output = output })
