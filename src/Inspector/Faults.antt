-- ===== src/Inspector/Faults.antt =====
-- What an inspection has to find: the series that `validateSeries` has a reason against, and the samples
-- and histograms that are stale or future.
use remote_write_inspector.Prelude.{
  ℕ, ◌+◌, ◌≡◌, refl, ap, sym, ◌∙◌, inl, inr, Bool, true, false, ◌&&◌, ◌||◌, not, List, [], ◌∷◌,
  Option, none, some, if◌then◌else◌, arith, Bool-cases, Option-cases, length,
}
use remote_write_inspector.Prelude.Int.{ℤ}
use remote_write_inspector.Config.Types.{Config}
use remote_write_inspector.Hash.{canonical_hash, series_name, host_name}
use remote_write_inspector.Identity.Types.{RequestIdentity}
use remote_write_inspector.Identity.{has_field, has_known}
use remote_write_inspector.Prelude.Bytes.{codes}
use remote_write_inspector.Capture.{SampleCapture}
use remote_write_inspector.Validate.Reasons.{
  Reason, diagnostic_writer_id_missing, cross_path_collision, duplicate_timestamp_different_value,
}
use remote_write_inspector.Validate.{validate_series}
use remote_write_inspector.Inspector.Types.{
  Environment, Reading, Seen, SampleEvidence, Observation, Inspector, Inspection, Sample,
  SampleConflict, TimeSeries, bad_series,
}
use remote_write_inspector.Inspector.Observed.{
  no_evidence, sample_conflict_evidence, sample_value_evidence,
}
use remote_write_inspector.Inspector.Judged.{some_observation}
use remote_write_inspector.Inspector.{
  is_stale, is_future, is_diagnostic_metric, no_reasons, detect_cross_path_collision,
  detect_duplicate_sample, report_observation, report_series_reason, report_sample_reason,
  report_series, check_paths, check_writer, check_times, check_conflict, inspect_samples,
  inspect_histograms, capture_with, capture_series, inspect_series, inspect_all,
}

module _ {F : Type 0} (cfg : Config F) (now_ms : ℤ) where
  unfoldable pub bad_time : ℤ → Bool
  bad_time ts = is_stale cfg ts now_ms || is_future cfg ts now_ms

  unfoldable pub bad_sample_time : List Sample → Bool
  bad_sample_time [] = false
  bad_sample_time (sample ∷ samples) = bad_time sample.timestamp || bad_sample_time samples

  unfoldable pub bad_histogram_time : List ℤ → Bool
  bad_histogram_time [] = false
  bad_histogram_time (ts ∷ histograms) = bad_time ts || bad_histogram_time histograms

  unfoldable pub faulty_series : TimeSeries → Bool
  faulty_series ts =
      not (no_reasons (validate_series cfg.max_labels cfg.max_label_value_length ts.labels))
      || (bad_sample_time ts.samples || bad_histogram_time ts.histograms)

  -- A fault that shows without what the caches hold.
  unfoldable pub any_fault : List TimeSeries → Bool
  any_fault [] = false
  any_fault (ts ∷ series) = faulty_series ts || any_fault series

  -- The configuration is the one, and where `b`, something was observed.
  abbrev pub Found : Bool → Inspection F → Type 0
  Found b r = (r.inspector.cfg ≡ cfg) × (b && not (some_observation r.observations) ≡ false)

  module _ (env : Environment) (reading : ℕ → Reading) (identity : RequestIdentity) where
    report_Found :
        (b : Bool) (o : Observation) (r : Inspection F)
        → r.inspector.cfg ≡ cfg
        → Found b (report_observation env reading identity o r)
    unfolding report_observation
    report_Found b o r e = (e, ground arith)

    report_if-Found :
        (b c : Bool) (o : Observation) (r : Inspection F)
        → Found b r
        → Found (b || c) (if c then report_observation env reading identity o r else r)
    report_if-Found b true o r (e, f) = report_Found (b || true) o r e
    report_if-Found b false o r (e, f) = (e, ground arith)

    report_series-Found :
        (b : Bool) (reasons : List Reason) (series : Seen) (r : Inspection F)
        → Found b r
        → Found
            (b || not (no_reasons reasons))
            (report_series env reading identity reasons series r)
    unfolding report_series no_reasons
    report_series-Found b [] series r (e, f) = (e, ground arith)
    report_series-Found b (reason ∷ reasons) series r (e, f) =
        let (e', f') = report_series-Found true reasons series _ (report_Found true _ r e) in
        (e', ground arith)

    check_times-Found :
        (b : Bool) (series : Seen) (ts : ℤ) (evidence : SampleEvidence) (r : Inspection F)
        → Found b r
        → Found (b || bad_time ts) (check_times env reading identity series now_ms ts evidence r)
    unfolding check_times bad_time
    check_times-Found b series ts evidence r (e, f) =
        let stale = ap (λ c. is_stale c ts now_ms) e in
        let future = ap (λ c. is_future c ts now_ms) e in
        let (e1, f1) = report_if-Found b (is_stale r.inspector.cfg ts now_ms) _ r (e, f) in
        let (e2, f2) = report_if-Found _ (is_future r.inspector.cfg ts now_ms) _ _ (e1, f1) in
        (e2, ground (arith, f2, stale, future))

    inspect_histograms-Found :
        (b : Bool) (series : Seen) (histograms : List ℤ) (r : Inspection F)
        → Found b r
        → Found
            (b || bad_histogram_time histograms)
            (inspect_histograms env reading identity series now_ms histograms r)
    unfolding inspect_histograms bad_histogram_time
    inspect_histograms-Found b series [] r (e, f) = (e, ground arith)
    inspect_histograms-Found b series (ts ∷ histograms) r g =
        let (e, f) =
          inspect_histograms-Found (b || bad_time ts) series histograms _
            (check_times-Found b series ts _ r g) in
        (e, ground (arith, f))

    collision_cfg :
        (i i' : Inspector F) (n : ℕ) (now later : ℤ) (found : Bool)
        → detect_cross_path_collision identity i n now later ≡ some (i', found)
        → i'.cfg ≡ i.cfg
    unfolding detect_cross_path_collision
    collision_cfg i i' n now later found h = ground arith

    duplicate_cfg :
        (i i' : Inspector F) (n : ℕ) (sample : Sample) (conflict : SampleConflict)
        → detect_duplicate_sample identity i n sample ≡ some (i', conflict)
        → i'.cfg ≡ i.cfg
    unfolding detect_duplicate_sample
    duplicate_cfg i i' n sample conflict h = ground arith

    then-Found :
        (b c : Bool) (o : Observation) (r r' : Inspection F)
        → some (if c then report_observation env reading identity o r else r) ≡ some r'
        → Found b r
        → Found b r'
    unfolding report_observation
    then-Found b true o r r' h (e, f) = (ground arith, ground arith)
    then-Found b false o r r' h (e, f) = (ground arith, ground arith)

    same-Found : (b : Bool) (r r' : Inspection F) → some r ≡ some r' → Found b r → Found b r'
    same-Found b r r' h (e, f) = (ground arith, ground arith)

    check_paths-Found :
        (b : Bool) (series : Seen) (now later : ℤ) (r r' : Inspection F)
        → check_paths env reading identity series now later r ≡ some r'
        → Found b r
        → Found b r'
    unfolding check_paths
    check_paths-Found b series now later r r' h (e, f) =
        elim (Bool-cases r.inspector.cfg.disable_cross_path_collision_detection) [
          | inl off ↦
              let same : r ≡ r' = ground arith in
              (ap (λ q. q.inspector.cfg) (sym same) ∙ e, ground (arith, same))
          | inr on ↦
              elim (Option-cases
                (detect_cross_path_collision identity r.inspector series.details.hash now later)) [
                  | inl bad ↦ absurd (ground arith)
                  | inr ((i, found), run) ↦
                      let same =
                        collision_cfg r.inspector i series.details.hash now later found run in
                      let r1 : Inspection F = record r { inspector = i } in
                      let q : some (
                            if found
                            then report_series_reason env reading identity cross_path_collision
                                series r1
                            else r1)
                          ≡ some r' =
                        ground arith in
                      then-Found b found _ r1 r' q (same ∙ e, f)
                ]
        ]

    check_conflict-Found :
        (b clean : Bool) (series : Seen) (sample : Sample) (r r' : Inspection F)
        → check_conflict env reading identity clean series now_ms sample r ≡ some r'
        → Found b r
        → Found b r'
    unfolding check_conflict
    check_conflict-Found b clean series sample r r' h (e, f) =
        let c = r.inspector.cfg in
        let bad = is_stale c sample.timestamp now_ms || is_future c sample.timestamp now_ms in
        elim (Bool-cases (clean && (not bad && not c.disable_duplicate_sample_detection))) [
          | inr off ↦ same-Found b r r' (ground arith) (e, f)
          | inl on ↦
              elim (Option-cases
                (detect_duplicate_sample identity r.inspector series.details.hash sample)) [
                  | inl none_run ↦ absurd (ground arith)
                  | inr ((i, conflict), run) ↦
                      let same =
                        duplicate_cfg r.inspector i series.details.hash sample conflict run in
                      let r1 : Inspection F = record r { inspector = i } in
                      let q : some (
                            if conflict.found
                            then report_sample_reason env reading identity
                                duplicate_timestamp_different_value series
                                (sample_conflict_evidence sample.timestamp conflict) r1
                            else r1)
                          ≡ some r' =
                        ground arith in
                      then-Found b conflict.found _ r1 r' q (same ∙ e, f)
                ]
        ]

    inspect_samples-Found :
        (samples : List Sample) (b clean : Bool) (series : Seen) (r r' : Inspection F)
        → inspect_samples env reading identity clean series now_ms samples r ≡ some r'
        → Found b r
        → Found (b || bad_sample_time samples) r'
    unfolding inspect_samples bad_sample_time
    inspect_samples-Found [] b clean series r r' h (e, f) = (ground arith, ground arith)
    inspect_samples-Found (sample ∷ samples) b clean series r r' h g =
        let r1 =
          check_times env reading identity series now_ms sample.timestamp
            (sample_value_evidence sample.timestamp sample.value_bits) r in
        let g1 =
          check_times-Found b series sample.timestamp
            (sample_value_evidence sample.timestamp sample.value_bits) r g in
        elim (Option-cases (check_conflict env reading identity clean series now_ms sample r1)) [
          | inl none_run ↦ absurd (ground arith)
          | inr (r2, run) ↦
              let g2 =
                check_conflict-Found (b || bad_time sample.timestamp) clean series sample r1 r2 run
                  g1 in
              let (e, f) =
                inspect_samples-Found samples (b || bad_time sample.timestamp) clean series r2 r'
                  (ground arith) g2 in
              (e, ground (arith, f))
        ]

    check_writer-Found :
        (b : Bool) (series : Seen) (r : Inspection F)
        → Found b r
        → Found b (check_writer env reading identity series r)
    unfolding check_writer
    check_writer-Found b series r g =
        then-Found b
          (is_diagnostic_metric r.inspector.cfg.diagnostic_metric_prefixes series.details.name
            && (has_field identity (codes "writer_id")
                && not (has_known identity (codes "writer_id"))))
          (record {
            kind = bad_series;
            reason = diagnostic_writer_id_missing;
            series = series;
            evidence = no_evidence;
          })
          r _ refl g

    capture_cfg :
        (session : Option SampleCapture) (ts : TimeSeries) (i : Inspector F)
        → (capture_with env reading identity session ts i).cfg ≡ i.cfg
    unfolding capture_with
    capture_cfg none ts i = refl
    capture_cfg (some session) ts i = refl

    if_clean-Found :
        (b clean : Bool) (series : Seen) (now later : ℤ) (r r' : Inspection F)
        → (if clean then check_paths env reading identity series now later r else some r) ≡ some r'
        → Found b r
        → Found b r'
    if_clean-Found b true series now later r r' h g = check_paths-Found b series now later r r' h g
    if_clean-Found b false series now later r r' h g = same-Found b r r' h g

    writer_if-Found :
        (b clean : Bool) (series : Seen) (r : Inspection F)
        → Found b r
        → Found b (if clean then check_writer env reading identity series r else r)
    writer_if-Found b true series r g = check_writer-Found b series r g
    writer_if-Found b false series r g = g

    inspect_series-Found :
        (b : Bool) (ts : TimeSeries) (r r' : Inspection F)
        → inspect_series env reading identity now_ms ts r ≡ some r'
        → Found b r
        → Found (b || faulty_series ts) r'
    unfolding inspect_series faulty_series
    inspect_series-Found b ts r r' h (e, f) =
        let c = r.inspector.cfg in
        let series : Seen = record {
          labels = ts.labels;
          details = record {
            name = series_name ts.labels;
            host = host_name ts.labels;
            hash = canonical_hash env.sum64 ts.labels;
          };
        } in
        let reasons = validate_series c.max_labels c.max_label_value_length ts.labels in
        let clean = no_reasons reasons in
        let r0 : Inspection F = record r {
          inspector = capture_series env reading identity ts r.inspector;
          total_samples = r.total_samples + length ts.samples + length ts.histograms;
        } in
        let g0 : Found b r0 = (capture_cfg r.inspector.capture ts r.inspector ∙ e, f) in
        let r1 = report_series env reading identity reasons series r0 in
        let g1 = report_series-Found b reasons series r0 g0 in
        elim (Option-cases
          (if clean then check_paths env reading identity series ts.now ts.later r1 else some r1)) [
            | inl none_run ↦ absurd (ground arith)
            | inr (r2, run) ↦
                let g2 =
                  if_clean-Found (b || not clean) clean series ts.now ts.later r1 r2 run g1 in
                let w = if clean then check_writer env reading identity series r2 else r2 in
                let gw = writer_if-Found (b || not clean) clean series r2 g2 in
                elim (Option-cases
                  (inspect_samples env reading identity clean series now_ms ts.samples w)) [
                    | inl none_run ↦ absurd (ground arith)
                    | inr (r3, run') ↦
                        let g3 =
                          inspect_samples-Found ts.samples (b || not clean) clean series w r3 run'
                            gw in
                        let g4 =
                          inspect_histograms-Found (b || not clean || bad_sample_time ts.samples)
                            series ts.histograms r3 g3 in
                        let q : some (
                              inspect_histograms env reading identity series now_ms ts.histograms
                                r3)
                            ≡ some r' =
                          ground arith in
                        let (e5, f5) = same-Found _ _ r' q g4 in
                        let same =
                          ap (λ d. validate_series d.max_labels d.max_label_value_length ts.labels)
                            e in
                        (e5, ground (arith, f5, ap no_reasons same))
                  ]
          ]

    pub inspect_all-Found :
        (series : List TimeSeries) (b : Bool) (r r' : Inspection F)
        → inspect_all env reading identity now_ms series r ≡ some r'
        → Found b r
        → Found (b || any_fault series) r'
    unfolding inspect_all any_fault
    inspect_all-Found [] b r r' h (e, f) = (ground arith, ground arith)
    inspect_all-Found (ts ∷ series) b r r' h g =
        elim (Option-cases (inspect_series env reading identity now_ms ts r)) [
          | inl none_run ↦ absurd (ground arith)
          | inr (r1, run) ↦
              let g1 = inspect_series-Found b ts r r1 run g in
              let (e, f) =
                inspect_all-Found series (b || faulty_series ts) r1 r' (ground arith) g1 in
              (e, ground (arith, f))
        ]
