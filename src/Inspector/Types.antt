-- ===== src/Inspector/Types.antt =====
-- internal/inspector/inspector.go: the keys of the caches, `Inspector` with what it counts and logs, and a
-- received request. The readings of the clock for a cache call stand beside what the call is made for.
use remote_write_inspector.Prelude.{ℕ, Bool, List, Option, ℕ_discrete}
use remote_write_inspector.Capture.{SampleCapture, Counters, Attempt}
use remote_write_inspector.Diagnostics.{FindingLogSampler}
use remote_write_inspector.TopSeries.Types.{SeriesDetails, TopSeriesEntry, TopSeriesCollector}
use remote_write_inspector.Prelude.Bytes.{Bytes}
use remote_write_inspector.Prelude.Int.{ℤ}
use remote_write_inspector.Cache.Shards.{StateCache}
use remote_write_inspector.Config.Types.{Config, ConfigError}
use remote_write_inspector.Hash.Types.{Label}
use remote_write_inspector.Identity.Types.{IdentitySet, IdentityError}
use remote_write_inspector.Validate.Reasons.{Reason}

pub record SampleKey : Type 0 where
  pub tenant : Bytes
  pub series : ℕ
  pub ts : ℤ

pub record PathKey : Type 0 where
  pub tenant : Bytes
  pub series : ℕ

unfoldable pub ℤ_discrete : Discrete ℤ
ℤ_discrete = hlevel ℕ_discrete

unfoldable pub SampleKey-discrete : Discrete SampleKey
SampleKey-discrete = hlevel (ℕ_discrete, ℤ_discrete)

unfoldable pub PathKey-discrete : Discrete PathKey
PathKey-discrete = hlevel ℕ_discrete

-- A series as the detectors pass it on.
pub record Seen : Type 0 where
  pub labels : List Label
  pub details : SeriesDetails

pub record SampleEvidence : Type 0 where
  pub has_timestamp : Bool
  pub timestamp_ms : ℤ
  pub sample_type : Bytes
  pub has_previous_value : Bool
  pub previous_value_bits : ℕ
  pub has_incoming_value : Bool
  pub incoming_value_bits : ℕ

pub data Kind : Type 0 where
  bad_series bad_sample : Kind

-- A call of `observeBadSeries` or `observeBadSample`.
pub record Observation : Type 0 where
  pub kind : Kind
  pub reason : Reason
  pub series : Seen
  pub evidence : SampleEvidence

-- An argument of a log record. A float is given by its bits.
pub data AttrValue : Type 0 where
  text : Bytes → AttrValue
  label_list : List Label → AttrValue
  flag : Bool → AttrValue
  number : ℤ → AttrValue
  float : ℕ → AttrValue
  group : Bytes → Bytes → AttrValue

-- A counter with label values: how often it was incremented for each.
abbrev pub Counter : Type 0
Counter = List (List Bytes × ℕ)

-- What the inspector counts and logs; the log records are those handed to the logger, the last first.
pub record Effects : Type 0 where
  pub bad_series_total : Counter
  pub bad_samples_total : Counter
  pub samples_total : Counter
  pub requests_total : Counter
  pub decode_errors_total : Counter
  pub cache_operations_total : Counter
  pub cache_evictions_total : Counter
  pub top_series : TopSeriesCollector
  pub log_sampler : FindingLogSampler
  pub logs : List (List (Bytes × AttrValue))

-- The counters that an observation and a cache call leave as they are.
abbrev pub other_counters : Effects → Counter × Counter × Counter
other_counters e = (e.samples_total, e.requests_total, e.decode_errors_total)

-- What is not this code's own: the digest of `canonicalHash`, the sort of the top series, the JSON
-- encoding of a label, and the difference of two floats, by their bits.
pub record Environment : Type 0 where
  pub sum64 : Bytes → ℕ
  pub arrange : List TopSeriesEntry → List TopSeriesEntry
  pub encode : Label → Option Bytes
  pub float_sub : ℕ → ℕ → ℕ

-- What an observation reads of the clock, for the top series and for the log sampler, and whether the
-- random number repeats its log record.
pub record Reading : Type 0 where
  pub observed_at : ℤ
  pub logged_at : ℤ
  pub repeat : Bool

-- `sampleValue` is the bits of a float64; a path is remembered as it is. The capture session counts for
-- each identity.
pub record Inspector (F : Type 0) : Type 0 where
  pub cfg : Config F
  pub ids : IdentitySet
  pub samples : Option (StateCache SampleKey ℕ)
  pub paths : Option (StateCache PathKey Bytes)
  pub capture : Option SampleCapture
  pub capture_counters : List Bytes → Counters
  pub effects : Effects
  pub cache_metrics_last : Option ℤ
  pub sample_entries : ℕ
  pub path_entries : ℕ

-- `value_bits` is `math.Float64bits` of the value; `attempt` is what the capture session reads for it.
pub record Sample : Type 0 where
  pub timestamp : ℤ
  pub value_bits : ℕ
  pub now : ℤ
  pub later : ℤ
  pub attempt : Attempt

-- Of a histogram only the timestamp is read.
pub record TimeSeries : Type 0 where
  pub labels : List Label
  pub samples : List Sample
  pub histograms : List ℤ
  pub now : ℤ
  pub later : ℤ

pub record SampleConflict : Type 0 where
  pub found : Bool
  pub previous_value_bits : ℕ
  pub incoming_value_bits : ℕ

-- What `inspectReceived` has done: the inspector, the result, and the observations, the last first.
pub record Inspection (F : Type 0) : Type 0 where
  pub inspector : Inspector F
  pub bad_data : Bool
  pub total_samples : ℕ
  pub observations : List Observation

pub data NewError : Type 0 where
  bad_config : ConfigError → NewError
  bad_identity : IdentityError → NewError
  bad_registry bad_capture : NewError
