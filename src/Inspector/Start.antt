-- ===== src/Inspector/Start.antt =====
-- internal/inspector/inspector.go: `New`, and the shards of the caches that it makes.
use Prim.Native.Nat.{bit_xor}
use remote_write_inspector.Prelude.{
  ℕ, ◌-◌, ◌*◌, ◌%◌, ◌^◌, Bool, ◌&&◌, not, List, [], ◌∷◌, Option, none, some, if◌then◌else◌, ◌⊎◌,
  inl, inr, ◌>>=◌,
}
use remote_write_inspector.Prelude.Bytes.{Bytes, codes}
use remote_write_inspector.Prelude.Int.{ℤ, pos, negsuc, pos_part}
use remote_write_inspector.Cache.Shards.{new_state_cache}
use remote_write_inspector.Config.Types.{Config}
use remote_write_inspector.Config.{normalize}
use remote_write_inspector.Identity.Types.{IdentitySet, ok, err}
use remote_write_inspector.Identity.{has, new_identity_set, names_from_defs}
use remote_write_inspector.Metrics.{Collector, new_metrics, capture_collectors, register_all}
use remote_write_inspector.Capture.{
  CaptureConfig, Matcher, SampleCapture, Counters, new_sample_capture,
}
use remote_write_inspector.Diagnostics.{new_finding_log_sampler}
use remote_write_inspector.TopSeries.{new_top_series_collector}
use remote_write_inspector.Inspector.Types.{SampleKey, PathKey, Effects, Inspector, NewError}

-- `hashString64`: FNV-1a on 64-bit words.
unfoldable pub hash_bytes : ℕ → Bytes → ℕ
hash_bytes h [] = h
hash_bytes h (c ∷ s) = hash_bytes (bit_xor h c * 1_099_511_628_211 % 2 ^ 64) s

unfoldable pub hash_string_64 : Bytes → ℕ
hash_string_64 s = hash_bytes 14_695_981_039_346_656_037 s

-- `uint64(ts)` of an int64.
unfoldable pub uint64 : ℤ → ℕ
uint64 (pos n) = n % 2 ^ 64
uint64 (negsuc n) = 2 ^ 64 - 1 - n

unfoldable pub sample_cache_shard : SampleKey → ℕ
sample_cache_shard key = bit_xor (bit_xor key.series (uint64 key.ts)) (hash_string_64 key.tenant)

unfoldable pub path_cache_shard : PathKey → ℕ
path_cache_shard key = bit_xor key.series (hash_string_64 key.tenant)

-- The clock when `New` makes the top-series collector, the log sampler and the capture session.
pub record Started : Type 0 where
  pub top_series : ℤ
  pub log_sampler : ℤ
  pub capture : ℤ

-- The counters and collectors of a new inspector; no label values have been counted.
unfoldable pub new_effects : {F : Type 0} → Config F → Started → Effects
new_effects cfg started = record {
  bad_series_total = [];
  bad_samples_total = [];
  samples_total = [];
  requests_total = [];
  decode_errors_total = [];
  cache_operations_total = [];
  cache_evictions_total = [];
  top_series =
      new_top_series_collector (pos_part cfg.top_series_size) cfg.top_series_window
        cfg.top_series_labels started.top_series;
  log_sampler =
      new_finding_log_sampler cfg.top_series_window cfg.log_first_examples_per_window
        started.log_sampler;
  logs = [];
}

abbrev pub no_counts : Counters
no_counts = record {
  matched_float = 0;
  matched_histogram = 0;
  captured = 0;
  skipped = λ r. 0;
  skipped_unsupported = 0;
  truncated = 0;
}

module _ {R : Type 0} (register : Collector → R → Option R) where
  -- The capture session that `New` makes, none if it is not configured; `none` is an error. `matchers`
  -- is what the parser makes of the selector, `names` the identity labels.
  unfoldable pub new_capture :
      List Bytes
      → Option CaptureConfig
      → Option (List Matcher)
      → ℤ
      → R
      → Option (R × Option SampleCapture)
  new_capture names none matchers now reg = some (reg, none)
  new_capture names (some config) none now reg = none
  new_capture names (some config) (some matchers) now reg = do
    c ← new_sample_capture config matchers now
    reg' ← register_all register (capture_collectors names) reg
    some (reg', some c)

-- What `New` returns once its checks are passed.
abbrev pub inspector_of :
    {F : Type 0} → Config F → IdentitySet → Option SampleCapture → Started → Inspector F
inspector_of cfg ids session started = record {
  cfg = cfg;
  ids = ids;
  samples =
      if not cfg.disable_duplicate_sample_detection
      then some (new_state_cache cfg.cache_size cfg.cache_ttl sample_cache_shard)
      else none;
  paths =
      if not cfg.disable_cross_path_collision_detection && has ids (codes "input_path")
      then some (new_state_cache cfg.cache_size cfg.cache_ttl path_cache_shard)
      else none;
  capture = session;
  capture_counters = λ values. no_counts;
  effects = new_effects cfg started;
  cache_metrics_last = none;
  sample_entries = 0;
  path_entries = 0;
}

module _ {F R : Type 0} (register : Collector → R → Option R) (rate_out_of_range : F → Bool) where
  -- `New`: the registry with what was registered, and the inspector.
  unfoldable pub new_inspector :
      Config F → Option (List Matcher) → Started → R → NewError ⊎ (R × Inspector F)
  new_inspector config matchers started reg = elim (normalize rate_out_of_range config) [
    | inl e ↦ inl (NewError.bad_config e)
    | inr cfg ↦ elim (new_identity_set cfg.identity_names cfg.max_identity_length) [
      | err e ↦ inl (NewError.bad_identity e)
      | ok ids ↦
          elim (register_all register (new_metrics (names_from_defs ids.defs) cfg.top_series_labels)
            reg) [
              | none ↦ inl NewError.bad_registry
              | some reg1 ↦
                  elim (new_capture register (names_from_defs ids.defs) cfg.capture matchers
                    started.capture reg1) [
                      | none ↦ inl NewError.bad_capture
                      | some (reg2, session) ↦ inr (reg2, inspector_of cfg ids session started)
                    ]
            ]
    ]
  ]
