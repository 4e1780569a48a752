-- ===== src/Inspector/Observed.antt =====
-- internal/inspector/inspector.go: what an observation is counted and logged as (`observeBadSeries`,
-- `observeBadSample`, `sampleLog`), and the counters of a cache call. A counter is a number; a float64
-- counts exactly up to 2^53.
use remote_write_inspector.Prelude.{
  ℕ, ◌+◌, ◌/◌, ◌%◌, ◌^◌, Bool, true, false, ◌&&◌, List, [], ◌∷◌, ◌++◌, Option, none, some,
  if◌then◌else◌, ltb, map_get, map_put,
}
use remote_write_inspector.Prelude.Bytes.{Bytes, codes, Bytes-discrete}
use remote_write_inspector.Prelude.Int.{ℤ, pos}
use remote_write_inspector.Config.Types.{Config, TopSeriesLabel}
use remote_write_inspector.Diagnostics.{FindingLogKey, should_log, bounded_log_labels}
use remote_write_inspector.Hash.{series_fingerprint}
use remote_write_inspector.Identity.Types.{RequestIdentity}
use remote_write_inspector.Identity.{label_values}
use remote_write_inspector.TopSeries.{observe, join_identity_values, projected_label_values}
use remote_write_inspector.Validate.Reasons.{reason_text}
use remote_write_inspector.Inspector.Types.{
  SampleEvidence, Kind, bad_series, bad_sample, Observation, AttrValue, Counter, Effects,
  Environment, Reading, SampleConflict,
}

unfoldable pub Values-discrete : Discrete (List Bytes)
Values-discrete = hlevel Bytes-discrete

-- The count for some label values, 0 where there is none.
unfoldable pub counter_value : List Bytes → Counter → ℕ
counter_value values c = elim (map_get Values-discrete values c) [ none ↦ 0 | some n ↦ n ]

-- `Add(n)` on the counter of some label values, `Inc` with 1. `WithLabelValues` panics before it where a
-- value is not valid UTF-8: the operations that count for an identity decide that by `valid_labels`.
unfoldable pub counter_add : List Bytes → ℕ → Counter → Counter
counter_add values n c = map_put Values-discrete values (counter_value values c + n) c

abbrev pub no_evidence : SampleEvidence
no_evidence = record {
  has_timestamp = false;
  timestamp_ms = pos 0;
  sample_type = [];
  has_previous_value = false;
  previous_value_bits = 0;
  has_incoming_value = false;
  incoming_value_bits = 0;
}

abbrev pub sample_value_evidence : ℤ → ℕ → SampleEvidence
sample_value_evidence timestamp_ms value_bits = record no_evidence {
  has_timestamp = true;
  timestamp_ms = timestamp_ms;
  sample_type = codes "sample";
  has_incoming_value = true;
  incoming_value_bits = value_bits;
}

abbrev pub sample_conflict_evidence : ℤ → SampleConflict → SampleEvidence
sample_conflict_evidence timestamp_ms conflict = record {
  has_timestamp = true;
  timestamp_ms = timestamp_ms;
  sample_type = codes "sample";
  has_previous_value = true;
  previous_value_bits = conflict.previous_value_bits;
  has_incoming_value = true;
  incoming_value_bits = conflict.incoming_value_bits;
}

abbrev pub histogram_evidence : ℤ → SampleEvidence
histogram_evidence timestamp_ms = record no_evidence {
  has_timestamp = true;
  timestamp_ms = timestamp_ms;
  sample_type = codes "histogram";
}

-- `isFinite`, on the bits: the exponent of a NaN or an infinity has all ones.
unfoldable pub is_finite : ℕ → Bool
is_finite bits = ltb (bits / 2 ^ 52 % 2 ^ 11) 2047

unfoldable pub kind_text : Kind → Bytes
kind_text bad_series = codes "bad_series"
kind_text bad_sample = codes "bad_sample"

-- `Attrs`: the names with their values.
unfoldable pub identity_attrs : List Bytes → List Bytes → List (Bytes × AttrValue)
identity_attrs (name ∷ names) (value ∷ values) =
    (name, AttrValue.text value) ∷ identity_attrs names values
identity_attrs _ _ = []

-- The projected values under their outputs.
unfoldable pub projected_attrs : List TopSeriesLabel → List Bytes → List (Bytes × AttrValue)
projected_attrs (p ∷ ps) (value ∷ values) =
    (p.output, AttrValue.text value) ∷ projected_attrs ps values
projected_attrs _ _ = []

-- `attrs = append(attrs, ...)` under a condition.
unfoldable pub attrs_if : Bool → List (Bytes × AttrValue) → List (Bytes × AttrValue)
attrs_if b attrs = if b then attrs else []

-- The arguments for the evidence of an observation.
unfoldable pub evidence_attrs : (ℕ → ℕ → ℕ) → SampleEvidence → List (Bytes × AttrValue)
evidence_attrs float_sub e =
    let previous = e.previous_value_bits in
    let incoming = e.incoming_value_bits in
    let delta = float_sub incoming previous in
    attrs_if e.has_timestamp (
      (codes "sample_timestamp_ms", AttrValue.number e.timestamp_ms)
      ∷ (codes "sample_type", AttrValue.text e.sample_type)
      ∷ [])
    ++ (attrs_if e.has_previous_value (
          (codes "previous_value_bits", AttrValue.text (codes "0x" ++ series_fingerprint previous))
          ∷ attrs_if (is_finite previous) ((codes "previous_value", AttrValue.float previous) ∷ []))
        ++ (attrs_if e.has_incoming_value (
              (
                codes "incoming_value_bits",
                AttrValue.text (codes "0x" ++ series_fingerprint incoming),
              )
              ∷ attrs_if (is_finite incoming)
                  ((codes "incoming_value", AttrValue.float incoming) ∷ []))
            ++ attrs_if
                (e.has_previous_value
                  && (e.has_incoming_value
                      && (is_finite previous && (is_finite incoming && is_finite delta))))
                ((codes "value_delta", AttrValue.float delta) ∷ [])))

module _ {F : Type 0} (env : Environment) (cfg : Config F) (identity : RequestIdentity) where
  -- The arguments of the log record for an observation, after `component`, which the logger adds.
  unfoldable pub log_attrs : Observation → List (Bytes × AttrValue)
  log_attrs o =
      let details = o.series.details in
      let (log_labels, truncated) =
        bounded_log_labels env.encode cfg.log_label_bytes o.series.labels in
      ((codes "component", AttrValue.text (codes "remote-write-inspector"))
        ∷ (codes "event", AttrValue.group (codes "action") (kind_text o.kind))
        ∷ (codes "reason", AttrValue.text (reason_text o.reason))
        ∷ (codes "series_name", AttrValue.text details.name)
        ∷ (codes "host_name", AttrValue.text details.host)
        ∷ (codes "series_fingerprint", AttrValue.text (series_fingerprint details.hash))
        ∷ (codes "labels", AttrValue.label_list log_labels)
        ∷ (codes "labels_truncated", AttrValue.flag truncated)
        ∷ [])
      ++ (identity_attrs identity.names identity.values
          ++ (projected_attrs cfg.top_series_labels
                (projected_label_values o.series.labels cfg.top_series_labels)
              ++ evidence_attrs env.float_sub o.evidence))

  -- `sampleLog`.
  unfoldable pub sample_log : Reading → Observation → Effects → Effects
  sample_log reading o e =
      let key : FindingLogKey = record {
        identity_values = join_identity_values identity.values;
        kind = kind_text o.kind;
        reason = o.reason;
        series_hash = o.series.details.hash;
      } in
      let (sampler, logged) = should_log e.log_sampler reading.logged_at key reading.repeat in
      record e { log_sampler = sampler; logs = if logged then log_attrs o ∷ e.logs else e.logs }

  -- The counter of `observeBadSeries` and of `observeBadSample`.
  unfoldable pub count_bad : Observation → Effects → Effects
  count_bad o e =
      let values = label_values identity (reason_text o.reason ∷ []) in
      elim o.kind [
        | bad_series ↦ record e { bad_series_total = counter_add values 1 e.bad_series_total }
        | bad_sample ↦ record e { bad_samples_total = counter_add values 1 e.bad_samples_total }
      ]

  -- `observeBadSeries` and `observeBadSample`.
  unfoldable pub observe_bad : Reading → Observation → Effects → Effects
  observe_bad reading o e =
      let e1 = count_bad o e in
      let top =
        observe env.arrange e1.top_series reading.observed_at identity o.reason o.series.labels
          o.series.details in
      sample_log reading o (record e1 { top_series = top })

-- The counters after a call of `GetOrPut` on a cache.
unfoldable pub count_cache : {V : Type 0} → Bytes → Option V → ℕ → Effects → Effects
count_cache cache (some v) evicted e = record e {
  cache_operations_total = counter_add (cache ∷ codes "hit" ∷ []) 1 e.cache_operations_total;
}
count_cache cache none evicted e = record e {
  cache_operations_total = counter_add (cache ∷ codes "miss" ∷ []) 1 e.cache_operations_total;
  cache_evictions_total =
      if ltb 0 evicted
      then counter_add (cache ∷ []) evicted e.cache_evictions_total
      else e.cache_evictions_total;
}
