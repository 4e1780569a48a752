-- ===== src/Inspector.antt =====
-- internal/inspector/inspector.go: `inspectReceived`, with what it counts and logs; `New` stands in
-- Inspector/Start.antt and the detectors in Inspector/Detections.antt. What is not this code's own stands
-- in an `Environment`; the readings of the clock are arguments, those of an observation by its place in
-- the request. `none` is a panic: an index out of range in a cache, a cache that is nil,
-- or a label value that is not valid UTF-8.
use remote_write_inspector.Prelude.{
  ◌>>=◌, ℕ, ◌+◌, ◌-◌, Bool, true, false, ◌&&◌, ◌||◌, not, List, [], ◌∷◌, Option, none, some,
  if◌then◌else◌, length, ite,
}
use remote_write_inspector.Prelude.Bytes.{codes}
use remote_write_inspector.Prelude.Int.{ℤ, ◌-ℤ◌, ltb_ℤ}
use remote_write_inspector.Cache.Shards.{total_len}
use remote_write_inspector.Hash.{canonical_hash, series_name, host_name}
use remote_write_inspector.Identity.Types.{RequestIdentity}
use remote_write_inspector.Identity.{has_field, has_known, label_values}
use remote_write_inspector.Capture.{SampleCapture, second, inspect}
use remote_write_inspector.Validate.Reasons.{
  Reason, stale_sample, future_sample, duplicate_timestamp_different_value, cross_path_collision,
  diagnostic_writer_id_missing,
}
use remote_write_inspector.Validate.{validate_series}
pub mod Types
pub mod Labels
pub mod Observed
pub mod Start
pub mod Made
pub mod Registers
pub mod Ready
pub mod Recorded
pub mod Judged
pub mod Detectors
pub mod Checks
pub mod Faults
pub mod Total
pub mod Conflicts
pub mod Times
pub mod Admission
pub mod Detections
use Types.{
  Seen, SampleEvidence, bad_series, bad_sample, Observation, Environment, Reading, Inspector,
  Sample, TimeSeries, Inspection,
}
use Labels.{valid_labels}
use Observed.{
  no_evidence, sample_value_evidence, sample_conflict_evidence, histogram_evidence, counter_add,
  observe_bad, Values-discrete,
}
unfoldable pub use Detections.{
  milliseconds, is_stale, is_future, no_conflict, has_prefix, is_diagnostic_metric, conflict_of,
  no_reasons, attempts_of, detect_duplicate_sample, detect_cross_path_collision,
}

module _ {F : Type 0} (identity : RequestIdentity) where
  -- The counter of samples and histograms.
  unfoldable pub counted_samples : Inspection F → Inspection F
  counted_samples r =
      let i = r.inspector in
      let e = i.effects in
      record r {
        inspector = record i {
          effects = record e {
            samples_total = counter_add (label_values identity []) r.total_samples e.samples_total;
          };
        };
      }

  -- Where a value of the identity is not valid UTF-8, `WithLabelValues` panics. The observations and the
  -- capture session count under the same values, with constant texts, so that where one of their calls
  -- panics this one would: it decides for them too.
  unfoldable pub count_samples : Inspection F → Option (Inspection F)
  count_samples r =
      if valid_labels (label_values identity []) then some (counted_samples r) else none

-- `updateCacheMetrics` at time `now`: at most once in a second.
unfoldable pub update_cache_metrics : {F : Type 0} → ℤ → Inspector F → Inspector F
update_cache_metrics now i =
    let waits = elim i.cache_metrics_last as (λ o. Bool) [
      | none ↦ false
      | some last ↦ ltb_ℤ (now -ℤ last) second
    ] in
    if waits then i else record i {
      cache_metrics_last = some now;
      sample_entries = elim i.samples [ none ↦ i.sample_entries | some c ↦ total_len c.shards ];
      path_entries = elim i.paths [ none ↦ i.path_entries | some c ↦ total_len c.shards ];
    }

module _ {F : Type 0} (env : Environment) (reading : ℕ → Reading) (identity : RequestIdentity) where
  -- `result.BadData = true` and the call that reports the observation.
  unfoldable pub report_observation : Observation → Inspection F → Inspection F
  report_observation o r =
      let i = r.inspector in
      let seen = reading (length r.observations) in
      record r {
        inspector = record i { effects = observe_bad env i.cfg identity seen o i.effects };
        bad_data = true;
        observations = o ∷ r.observations;
      }

  abbrev pub report_series_reason : Reason → Seen → Inspection F → Inspection F
  report_series_reason reason series r =
      report_observation
        (record { kind = bad_series; reason = reason; series = series; evidence = no_evidence }) r

  abbrev pub report_sample_reason : Reason → Seen → SampleEvidence → Inspection F → Inspection F
  report_sample_reason reason series evidence r =
      report_observation
        (record { kind = bad_sample; reason = reason; series = series; evidence = evidence }) r

  -- The reasons of `validateSeries`.
  unfoldable pub report_series : List Reason → Seen → Inspection F → Inspection F
  report_series [] series r = r
  report_series (reason ∷ reasons) series r =
      report_series reasons series (report_series_reason reason series r)

  -- The check of the cross-path collision, where it is not disabled.
  unfoldable pub check_paths : Seen → ℤ → ℤ → Inspection F → Option (Inspection F)
  check_paths series now later r =
      if r.inspector.cfg.disable_cross_path_collision_detection then some r else (do
        (i, found) ← detect_cross_path_collision identity r.inspector series.details.hash now later
        let r' = record r { inspector = i } in
            some (if found then report_series_reason cross_path_collision series r' else r'))

  -- The check of the writer of a diagnostic metric.
  unfoldable pub check_writer : Seen → Inspection F → Inspection F
  check_writer series r =
      if is_diagnostic_metric r.inspector.cfg.diagnostic_metric_prefixes series.details.name
        && (has_field identity (codes "writer_id") && not (has_known identity (codes "writer_id")))
      then report_series_reason diagnostic_writer_id_missing series r
      else r

  -- The checks of a time, for a sample or a histogram.
  unfoldable pub check_times : Seen → ℤ → ℤ → SampleEvidence → Inspection F → Inspection F
  check_times series now_ms ts evidence r =
      let cfg = r.inspector.cfg in
      let r1 =
        if is_stale cfg ts now_ms then report_sample_reason stale_sample series evidence r else r in
      if is_future cfg ts now_ms then report_sample_reason future_sample series evidence r1 else r1

  -- The check for a conflict of a sample, where it is not disabled; `clean` says that the series has no
  -- reason against it.
  unfoldable pub check_conflict : Bool → Seen → ℤ → Sample → Inspection F → Option (Inspection F)
  check_conflict clean series now_ms sample r =
      let cfg = r.inspector.cfg in
      let bad = is_stale cfg sample.timestamp now_ms || is_future cfg sample.timestamp now_ms in
      if clean && (not bad && not cfg.disable_duplicate_sample_detection)
      then (do
        (i, conflict) ← detect_duplicate_sample identity r.inspector series.details.hash sample
        let r' = record r { inspector = i } in
            some (
              if conflict.found
              then report_sample_reason duplicate_timestamp_different_value series
                  (sample_conflict_evidence sample.timestamp conflict) r'
              else r'))
      else some r

  unfoldable pub inspect_samples :
      Bool → Seen → ℤ → List Sample → Inspection F → Option (Inspection F)
  inspect_samples clean series now_ms [] r = some r
  inspect_samples clean series now_ms (sample ∷ samples) r = do
    r' ← check_conflict clean series now_ms sample (
        check_times series now_ms sample.timestamp
          (sample_value_evidence sample.timestamp sample.value_bits) r)
    inspect_samples clean series now_ms samples r'

  unfoldable pub inspect_histograms : Seen → ℤ → List ℤ → Inspection F → Inspection F
  inspect_histograms series now_ms [] r = r
  inspect_histograms series now_ms (ts ∷ histograms) r =
      inspect_histograms series now_ms histograms
        (check_times series now_ms ts (histogram_evidence ts) r)

  -- The capture session sees every series before it is validated; without one this does nothing.
  unfoldable pub capture_with : Option SampleCapture → TimeSeries → Inspector F → Inspector F
  capture_with none ts i = i
  capture_with (some session) ts i =
      let (session', counters) =
        inspect env.encode session (i.capture_counters identity.values) ts.labels
          (length ts.histograms) (attempts_of ts.samples) in
      record i {
        capture = some session';
        capture_counters = λ values.
            ite (Values-discrete identity.values values) counters (i.capture_counters values);
      }

  abbrev pub capture_series : TimeSeries → Inspector F → Inspector F
  capture_series ts i = capture_with i.capture ts i

  -- The body of the loop over the series of a request.
  unfoldable pub inspect_series : ℤ → TimeSeries → Inspection F → Option (Inspection F)
  inspect_series now_ms ts r =
      let cfg = r.inspector.cfg in
      let series : Seen = record {
        labels = ts.labels;
        details = record {
          name = series_name ts.labels;
          host = host_name ts.labels;
          hash = canonical_hash env.sum64 ts.labels;
        };
      } in
      let reasons = validate_series cfg.max_labels cfg.max_label_value_length ts.labels in
      let clean = no_reasons reasons in
      let r1 = report_series reasons series (record r {
        inspector = capture_series ts r.inspector;
        total_samples = r.total_samples + length ts.samples + length ts.histograms;
      }) in
      do
        r2 ← (if clean then check_paths series ts.now ts.later r1 else some r1)
        r3 ←
            inspect_samples clean series now_ms ts.samples
              (if clean then check_writer series r2 else r2)
        some (inspect_histograms series now_ms ts.histograms r3)

  unfoldable pub inspect_all : ℤ → List TimeSeries → Inspection F → Option (Inspection F)
  inspect_all now_ms [] r = some r
  inspect_all now_ms (ts ∷ series) r = do
    r' ← inspect_series now_ms ts r
    inspect_all now_ms series r'

  -- `inspectReceived` at `now_ms`; `ended` is the clock when it has ended.
  unfoldable pub inspect_received : Inspector F → ℤ → ℤ → List TimeSeries → Option (Inspection F)
  inspect_received i now_ms ended series = do
    r ←
        inspect_all now_ms series
          (record { inspector = i; bad_data = false; total_samples = 0; observations = [] })
    r' ← count_samples identity r
    some (record r' { inspector = update_cache_metrics ended r'.inspector })
