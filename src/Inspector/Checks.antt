-- ===== src/Inspector/Checks.antt =====
-- The checks of one series and its samples on an inspector that is ready.
use remote_write_inspector.Capture.{SampleCapture, Counters}
use remote_write_inspector.Prelude.{
  Option, none, ite, ℕ, ◌≡◌, refl, sym, ◌∙◌, ap, inl, inr, Bool, false, not, ◌&&◌, ◌||◌, List, [],
  ◌∷◌, some, arith, Bool-cases, if◌then◌else◌, length,
}
use remote_write_inspector.Prelude.Bytes.{codes}
use remote_write_inspector.Prelude.Int.{ℤ}
use remote_write_inspector.Config.Types.{Config}
use remote_write_inspector.Identity.Types.{IdentitySet, RequestIdentity}
use remote_write_inspector.Identity.{has_field, has_known}
use remote_write_inspector.Validate.Reasons.{
  Reason, stale_sample, future_sample, duplicate_timestamp_different_value,
  diagnostic_writer_id_missing,
}
use remote_write_inspector.Inspector.Types.{
  Inspector, Sample, TimeSeries, Kind, bad_series, bad_sample, Inspection, Seen, SampleEvidence,
  Observation, Environment, Effects, Reading,
}
use remote_write_inspector.Capture.Accounting.{Balanced, inspect-Balanced}
use remote_write_inspector.Inspector.Observed.{
  no_evidence, sample_value_evidence, sample_conflict_evidence, histogram_evidence, Values-discrete,
}
use remote_write_inspector.Inspector.Ready.{Ready}
use remote_write_inspector.Inspector.{
  report_observation, capture_with, attempts_of, is_stale, is_future, is_diagnostic_metric,
  check_writer, check_times, check_conflict, inspect_samples, inspect_histograms,
}
use remote_write_inspector.Inspector.Judged.{Good, with_inspector-Good, report_if-Good}
use remote_write_inspector.Inspector.Detectors.{SameObserved, duplicate_total}

ite-Balanced :
    {P : Type 0} (d : Dec P) (a b : Counters) → Balanced a → Balanced b → Balanced (ite d a b)
ite-Balanced (yes p) a b x y = x
ite-Balanced (no q) a b x y = y

module _ {F : Type 0} (env : Environment) (reading : ℕ → Reading) (cfg : Config F)
    (ids : IdentitySet) (before : Effects) where
  module _ (identity : RequestIdentity) where
    -- What holds of an inspection while it goes on.
    abbrev pub Fine : ℕ → Inspection F → Type 0
    Fine n r = Good env reading identity cfg ids before n r

    abbrev observation : Kind → Reason → Seen → SampleEvidence → Observation
    observation kind reason series evidence = record {
      kind = kind;
      reason = reason;
      series = series;
      evidence = evidence;
    }

    pub report_if :
        {n : ℕ} (b : Bool) (o : Observation) (r : Inspection F)
        → Fine n r
        → Fine n (if b then report_observation env reading identity o r else r)
    report_if b o r g = report_if-Good env reading identity cfg ids before b o r g

    check_times-Good :
        {n : ℕ} (series : Seen) (now_ms ts : ℤ) (evidence : SampleEvidence) (r : Inspection F)
        → Fine n r
        → Fine n (check_times env reading identity series now_ms ts evidence r)
    unfolding check_times
    check_times-Good series now_ms ts evidence r g =
        let stale = is_stale r.inspector.cfg ts now_ms in
        report_if (is_future r.inspector.cfg ts now_ms)
          (observation bad_sample future_sample series evidence) _
          (report_if stale (observation bad_sample stale_sample series evidence) r g)

    check_conflict_total :
        {n : ℕ} (clean : Bool) (series : Seen) (now_ms : ℤ) (sample : Sample) (r : Inspection F)
        → Fine n r
        → (r' : Inspection F) × (check_conflict env reading identity clean series now_ms sample r
            ≡ some r')
          × Fine n r'
    unfolding check_conflict
    check_conflict_total clean series now_ms sample r g =
        let bad =
          is_stale r.inspector.cfg sample.timestamp now_ms
          || is_future r.inspector.cfg sample.timestamp now_ms in
        elim (Bool-cases
          (clean && (not bad && not r.inspector.cfg.disable_duplicate_sample_detection))) [
            | inr f ↦ rw f (r, refl, g)
            | inl t ↦
                let on : cfg.disable_duplicate_sample_detection ≡ false =
                  ap (λ c. c.disable_duplicate_sample_detection) (sym g.ready.same_cfg)
                  ∙ ground arith in
                let (i, conflict, run, ready, same) =
                  duplicate_total cfg ids identity r.inspector series.details.hash sample g.ready
                    on in
                let g' = with_inspector-Good env reading identity cfg ids before i r ready same g in
                let o =
                  observation bad_sample duplicate_timestamp_different_value series
                    (sample_conflict_evidence sample.timestamp conflict) in
                rw t (rw run (_, refl, report_if conflict.found o _ g'))
          ]

    pub inspect_samples_total :
        {n : ℕ} (clean : Bool) (series : Seen) (now_ms : ℤ) (samples : List Sample)
        (r : Inspection F)
        → Fine n r
        → (r' : Inspection F) × (inspect_samples env reading identity clean series now_ms samples r
            ≡ some r')
          × Fine n r'
    unfolding inspect_samples
    inspect_samples_total clean series now_ms [] r g = (r, refl, g)
    inspect_samples_total clean series now_ms (sample ∷ samples) r g =
        let evidence = sample_value_evidence sample.timestamp sample.value_bits in
        let (r1, e1, g1) =
          check_conflict_total clean series now_ms sample _
            (check_times-Good series now_ms sample.timestamp evidence r g) in
        let (r2, e2, g2) = inspect_samples_total clean series now_ms samples r1 g1 in
        (r2, rw e1 e2, g2)

    pub inspect_histograms-Good :
        {n : ℕ} (series : Seen) (now_ms : ℤ) (histograms : List ℤ) (r : Inspection F)
        → Fine n r
        → Fine n (inspect_histograms env reading identity series now_ms histograms r)
    unfolding inspect_histograms
    inspect_histograms-Good series now_ms [] r g = g
    inspect_histograms-Good series now_ms (ts ∷ histograms) r g =
        inspect_histograms-Good series now_ms histograms _
          (check_times-Good series now_ms ts (histogram_evidence ts) r g)

    pub check_writer-Good :
        {n : ℕ} (series : Seen) (r : Inspection F)
        → Fine n r
        → Fine n (check_writer env reading identity series r)
    unfolding check_writer
    check_writer-Good series r g =
        report_if
          (is_diagnostic_metric r.inspector.cfg.diagnostic_metric_prefixes series.details.name
            && (has_field identity (codes "writer_id")
                && not (has_known identity (codes "writer_id"))))
          (observation bad_series diagnostic_writer_id_missing series no_evidence) r g

    pub capture_with-Ready :
        (session : Option SampleCapture) (ts : TimeSeries) (i : Inspector F)
        → Ready cfg ids i
        → Ready cfg ids (capture_with env reading identity session ts i)
          × SameObserved i.effects (capture_with env reading identity session ts i).effects
    unfolding capture_with
    capture_with-Ready none ts i ready =
        (ready, record { series = refl; samples = refl; top = refl; uncounted = refl })
    capture_with-Ready (some session) ts i ready = (
      record {
        same_cfg = ready.same_cfg;
        same_ids = ready.same_ids;
        samples = ready.samples;
        paths = ready.paths;
        balanced = λ values.
            ite-Balanced (Values-discrete identity.values values) _ _
              (inspect-Balanced env.encode session (i.capture_counters identity.values) ts.labels
                (length ts.histograms) (attempts_of ts.samples) (ready.balanced identity.values))
              (ready.balanced values);
      },
      record { series = refl; samples = refl; top = refl; uncounted = refl },
    )
