-- ===== src/Tests/Inspections.antt =====
-- Configurations and inspectors at concrete inputs. A rate is a number of percent.
use remote_write_inspector.Prelude.{
  Option, ℕ, ◌+◌, ◌*◌, ◌≤◌, ◌<◌, ◌≢◌, ◌↔◌, ◌≡◌, refl, ◌⊎◌, inr, Bool, true, false, ◌&&◌, not, List,
  [], ◌∷◌, ◌++◌, none, some, arith, ltb, length, map, get_elem?, map_get,
}
use remote_write_inspector.Prelude.Bytes.{Bytes, codes}
use remote_write_inspector.Prelude.Int.{pos, ltb_ℤ, ◌+ℤ◌}
use remote_write_inspector.Identity.Types.{IdentitySet, RequestIdentity}
use remote_write_inspector.Identity.{
  resolve, resolve_values, new_identity_set, collect_definitions, has, contains_string,
  names_from_defs,
}
use remote_write_inspector.Config.Types.{TopSeriesLabel, Config}
use remote_write_inspector.Config.Projections.{Accepted, normalize_top_series_labels_iff}
use remote_write_inspector.Config.Normal.{
  Normal, normalize-Normal, cache_size_from_memory_budget_bounds,
}
use remote_write_inspector.Config.Parsing.{parse_top_series_label_printed}
use remote_write_inspector.Config.{
  default_output, reserved_names, normalize, normalize_top_series_labels, normalize_projections,
  parse_top_series_label, cache_size_from_memory_budget, with_defaults, positive_or,
}
use remote_write_inspector.Cache.Types.{CircularCache}
use remote_write_inspector.Cache.Shards.{StateCache, new_shards, new_state_cache, shard_for}
use remote_write_inspector.Cache.History.{new_state_cache-AllValid}
use remote_write_inspector.Cache.StateCalls.{state_view}
use remote_write_inspector.Cache.Spec.{live, view}
use remote_write_inspector.Cache.{new_circular_cache, at_least_one}
use remote_write_inspector.Inspector.Types.{
  Inspector, Effects, Environment, Reading, Sample, TimeSeries, Inspection, SampleConflict,
  SampleKey, SampleKey-discrete, PathKey-discrete,
}
use remote_write_inspector.Inspector.Faults.{any_fault}
use remote_write_inspector.Inspector.Labels.{valid_labels}
use remote_write_inspector.Inspector.Ready.{Ready}
use remote_write_inspector.Inspector.Total.{Inspected, inspect_received-Inspected}
use remote_write_inspector.Inspector.Conflicts.{sample_key, detect_duplicate_sample_again}
use remote_write_inspector.Inspector.Admission.{
  Step, Steps, closed, try_admit, release, Steps-bounded,
}
use remote_write_inspector.Inspector.{inspect_received, detect_duplicate_sample, no_conflict}
use remote_write_inspector.Capture.{Attempt}
use remote_write_inspector.Metrics.{Collector, new_metrics, register_all}
use remote_write_inspector.Inspector.Start.{
  sample_cache_shard, new_inspector, new_effects, new_capture, no_counts, Started,
}

abbrev pub over_100 : ℕ → Bool
over_100 n = ltb 100 n

-- All fields at their zero values, but for the cache size.
abbrev pub zero_config : Config ℕ
zero_config = record {
  capture = none;
  listen_address = [];
  max_body_bytes = pos 0;
  max_in_flight_requests = pos 0;
  identity_names = [];
  max_identity_length = pos 0;
  stale_cutoff = pos 0;
  future_skew = pos 0;
  max_labels = pos 0;
  max_label_value_length = pos 0;
  cache_size = pos 1;
  cache_memory_bytes = pos 0;
  cache_ttl = pos 0;
  top_series_size = pos 0;
  top_series_window = pos 0;
  top_series_labels = [];
  log_sample_rate = 0;
  log_first_examples_per_window = pos 0;
  log_label_bytes = pos 0;
  diagnostic_metric_prefixes = [];
  disable_duplicate_sample_detection = false;
  disable_cross_path_collision_detection = false;
}

normalized : normalize over_100 zero_config ≡ inr (with_defaults zero_config)
unfolding normalize normalize_top_series_labels with_defaults normalize_projections
normalized = refl

small_config-Normal : Normal over_100 (with_defaults zero_config)
small_config-Normal = normalize-Normal over_100 zero_config (with_defaults zero_config) normalized

normalize-Normal_example : Normal over_100 (with_defaults zero_config)
normalize-Normal_example =
    normalize-Normal over_100 zero_config (with_defaults zero_config) normalized

cache_size_from_memory_budget_bounds_example :
    (0 < cache_size_from_memory_budget (pos 1000) 2)
    × ((2 * cache_size_from_memory_budget (pos 1000) 2 * 160 ≤ 1000)
        ⊎ (cache_size_from_memory_budget (pos 1000) 2 ≡ 1))
    × (1000 < 2 * (cache_size_from_memory_budget (pos 1000) 2 + 1) * 160)
cache_size_from_memory_budget_bounds_example =
    cache_size_from_memory_budget_bounds (pos 1000) 2 (omega arith) (omega arith) (omega arith)

abbrev job_projection : List TopSeriesLabel
job_projection = record { source = codes "job"; output = [] } ∷ []

normalize_top_series_labels_iff_example :
    (normalize_top_series_labels [] job_projection ≡ inr (map default_output job_projection)) ↔ (
      Accepted ([] ++ reserved_names) [] [] (map default_output job_projection)
      × (map default_output job_projection ≡ map default_output job_projection))
normalize_top_series_labels_iff_example =
    normalize_top_series_labels_iff [] job_projection (map default_output job_projection)

abbrev pub same_text : Bytes → Bytes
same_text s = s

parse_top_series_label_printed_example :
    (parse_top_series_label same_text (codes "a=b")
      ≡ inr (record { source = codes "a"; output = codes "b" }))
    × (parse_top_series_label same_text (codes "a")
        ≡ inr (record { source = codes "a"; output = codes "source_a" }))
parse_top_series_label_printed_example =
    parse_top_series_label_printed same_text (codes "a") (codes "b") ((λ e. ground arith), tt) refl
      refl refl (λ e. ground arith) (λ e. ground arith)

abbrev pub no_fields : IdentitySet
no_fields = record { defs = []; max_identity_length = pos 8 }

abbrev no_shard : {K : Type 0} → K → ℕ
no_shard k = 0

-- One entry for ten nanoseconds.
abbrev one_sample : StateCache SampleKey ℕ
one_sample = new_state_cache (pos 1) (pos 10) no_shard

abbrev pub small_config : Config ℕ
small_config = with_defaults zero_config

abbrev pub at_start : Started
at_start = record { top_series = pos 0; log_sampler = pos 0; capture = pos 0 }

abbrev pub nothing_counted : Effects
nothing_counted = new_effects small_config at_start

abbrev pub inspector : Inspector ℕ
inspector = record {
  cfg = small_config;
  ids = no_fields;
  samples = some one_sample;
  paths = some (new_state_cache (pos 1) (pos 10) no_shard);
  capture = none;
  capture_counters = λ values. no_counts;
  effects = nothing_counted;
  cache_metrics_last = none;
  sample_entries = 0;
  path_entries = 0;
}

pub inspector-Ready : Ready small_config no_fields inspector
inspector-Ready = record {
  same_cfg = refl;
  same_ids = refl;
  samples = λ on.
      (one_sample, refl, new_state_cache-AllValid SampleKey-discrete (pos 1) (pos 10) no_shard);
  paths = λ on known. (
    new_state_cache (pos 1) (pos 10) no_shard,
    refl,
    new_state_cache-AllValid PathKey-discrete (pos 1) (pos 10) no_shard,
  );
  balanced = λ values. record { floats = refl; histograms = refl; cuts = omega arith };
}

abbrev pub no_attempt : Attempt
no_attempt = record { now = pos 1; enabled = true; handled = true }

abbrev sample_at_5 : Sample
sample_at_5 = record {
  timestamp = pos 5;
  value_bits = 7;
  now = pos 1;
  later = pos 1;
  attempt = no_attempt;
}

abbrev sample_again : Sample
sample_again = record {
  timestamp = pos 5;
  value_bits = 8;
  now = pos 2;
  later = pos 2;
  attempt = no_attempt;
}

abbrev pub one_series : List TimeSeries
one_series =
    record {
      labels = record { name = codes "__name__"; value = codes "up" } ∷ [];
      samples = sample_at_5 ∷ sample_again ∷ [];
      histograms = pos 3 ∷ [];
      now = pos 0;
      later = pos 0;
    }
    ∷ []

abbrev pub environment : Environment
environment = record {
  sum64 = λ s. length s;
  arrange = λ entries. entries;
  encode = λ l. some l.name;
  float_sub = λ a b. a;
}

abbrev pub same_reading : ℕ → Reading
same_reading n = record { observed_at = pos 1; logged_at = pos 1; repeat = false }

pub no_fields-valid : valid_labels (resolve same_text same_text no_fields).values ≡ true
unfolding valid_labels resolve resolve_values
no_fields-valid = refl

inspect_received-Inspected_example :
    (r : Inspection ℕ) × (inspect_received environment same_reading
        (resolve same_text same_text no_fields)
        inspector
        (pos 4)
        (pos 6)
        one_series
      ≡ some r)
    × Inspected environment same_reading
        (resolve same_text same_text no_fields)
        small_config
        no_fields
        nothing_counted
        one_series
        r
    × (any_fault small_config (pos 4) one_series && not r.bad_data ≡ false)
inspect_received-Inspected_example =
    inspect_received-Inspected small_config no_fields environment same_reading same_text same_text
      inspector (pos 4) (pos 6) one_series inspector-Ready no_fields-valid

abbrev nobody : RequestIdentity
nobody = record { names = []; values = []; by_name = [] }

admitted_one : Steps 1 closed (record { used = 1; inside = 4 ∷ [] })
unfolding try_admit
admitted_one = Steps.step_on (Steps.start closed) (Step.admitted closed 4 1 refl)

Steps-bounded_example :
    (1 ≤ 1)
    × (try_admit 1 1 ≡ none → ◌≡◌ {A = ℕ} 1 1)
    × (0 < 1 → (used : ℕ) × (release 1 ≡ some used))
Steps-bounded_example = Steps-bounded 1 (record { used = 1; inside = 4 ∷ [] }) admitted_one

abbrev one_slot : CircularCache SampleKey ℕ
one_slot = new_circular_cache (pos 1) (pos 10)

first_shard :
    get_elem? one_sample.shards (shard_for one_sample (sample_key nobody 3 sample_at_5))
    ≡ some one_slot
unfolding shard_for new_state_cache new_shards at_least_one
first_shard = refl

not_seen :
    live (pos 1) (state_view SampleKey-discrete one_sample (sample_key nobody 3 sample_at_5)) ≡ none
unfolding state_view shard_for new_state_cache new_shards at_least_one view map_get
    new_circular_cache
not_seen = refl

not_expired : ltb_ℤ (pos 1 +ℤ one_slot.ttl) (pos 2) ≡ false
unfolding new_circular_cache ◌+ℤ◌
not_expired = refl

detect_duplicate_sample_again_example :
    (i1 : Inspector ℕ) × (conflict : SampleConflict) × (detect_duplicate_sample nobody inspector 3
        sample_at_5
      ≡ some (i1, no_conflict))
    × (i2 : Inspector ℕ) × (detect_duplicate_sample nobody i1 3 sample_again ≡ some (i2, conflict))
    × (i2.samples ≡ i1.samples)
    × ((conflict.found ≡ true) ↔ (sample_at_5.value_bits ≢ sample_again.value_bits))
detect_duplicate_sample_again_example =
    detect_duplicate_sample_again nobody inspector one_sample one_slot 3 sample_at_5 sample_again
      refl (new_state_cache-AllValid SampleKey-discrete (pos 1) (pos 10) no_shard) first_shard
      not_seen refl not_expired

abbrev pub made : Inspector ℕ
made = record {
  cfg = small_config;
  ids = record { defs = []; max_identity_length = pos 128 };
  samples =
      some (new_state_cache small_config.cache_size small_config.cache_ttl sample_cache_shard);
  paths = none;
  capture = none;
  capture_counters = λ values. no_counts;
  effects = new_effects small_config at_start;
  cache_metrics_last = none;
  sample_entries = 0;
  path_entries = 0;
}

-- A registry that counts what is registered.
abbrev count_collector : Collector → ℕ → Option ℕ
count_collector c n = some (n + 1)

made_lem : new_inspector count_collector over_100 zero_config none at_start 0 ≡ inr (16, made)
unfolding new_inspector normalize normalize_top_series_labels with_defaults normalize_projections
    new_capture new_identity_set collect_definitions has contains_string names_from_defs positive_or
    register_all new_metrics
made_lem = refl
