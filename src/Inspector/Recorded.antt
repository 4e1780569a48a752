-- ===== src/Inspector/Recorded.antt =====
-- What the counters and the top series show of the observations of a request.
use remote_write_inspector.Prelude.{
  ℕ, ◌+◌, ◌≡◌, refl, ◌∙◌, ap, Bool, true, false, List, [], ◌∷◌, arith, if◌then◌else◌, length, ite,
  map_get-map_put,
}
use remote_write_inspector.Prelude.Bytes.{Bytes}
use remote_write_inspector.Identity.Types.{RequestIdentity}
use remote_write_inspector.Identity.{label_values}
use remote_write_inspector.Config.Types.{Config}
use remote_write_inspector.Validate.Reasons.{Reason, reason_text}
use remote_write_inspector.TopSeries.Types.{TopSeriesCollector}
use remote_write_inspector.TopSeries.{observe}
use remote_write_inspector.Inspector.Types.{
  other_counters, Seen, SampleEvidence, Kind, bad_series, bad_sample, Observation, Counter, Effects,
  Environment, Reading,
}
use remote_write_inspector.Inspector.Detectors.{SameObserved}
use remote_write_inspector.Inspector.Observed.{
  Values-discrete, counter_value, counter_add, count_bad, sample_log, observe_bad,
}

pub counter_value-counter_add :
    (values added : List Bytes) (n : ℕ) (c : Counter)
    → counter_value values (counter_add added n c)
      ≡ counter_value values c + ite (Values-discrete added values) n 0
unfolding counter_add counter_value
counter_value-counter_add values added n c =
    rw (map_get-map_put Values-discrete values added (counter_value added c + n) c, counter_value)
      (elim (Values-discrete added values) [
        | yes p ↦ ground (arith, ap (λ v. counter_value v c) p)
        | no q ↦ ground arith
      ])

abbrev pub same_kind : Kind → Kind → Bool
same_kind bad_series bad_series = true
same_kind bad_sample bad_sample = true
same_kind _ _ = false

module _ {F : Type 0} (env : Environment) (cfg : Config F) (identity : RequestIdentity) where
  pub count_bad-uncounted :
      (kind : Kind) (reason : Reason) (series : Seen) (evidence : SampleEvidence) (e : Effects)
      → other_counters (
          count_bad env cfg identity
            (record { kind = kind; reason = reason; series = series; evidence = evidence })
            e)
        ≡ other_counters e
  unfolding count_bad
  count_bad-uncounted bad_series reason series evidence e = refl
  count_bad-uncounted bad_sample reason series evidence e = refl

  pub observe_bad-uncounted :
      (seen : Reading) (o : Observation) (e : Effects)
      → other_counters (observe_bad env cfg identity seen o e) ≡ other_counters e
  unfolding observe_bad sample_log
  observe_bad-uncounted seen o e = count_bad-uncounted o.kind o.reason o.series o.evidence e

module _ (env : Environment) (reading : ℕ → Reading) (identity : RequestIdentity) where
  -- The label values that an observation is counted under.
  abbrev pub counted_under : Observation → List Bytes
  counted_under o = label_values identity (reason_text o.reason ∷ [])

  -- How many observations of the kind are counted under the label values.
  unfoldable pub observations_of : Kind → List Bytes → List Observation → ℕ
  observations_of kind values [] = 0
  observations_of kind values (o ∷ os) =
      (if same_kind o.kind kind then ite (Values-discrete (counted_under o) values) 1 0 else 0)
      + observations_of kind values os

  -- The top series after the observations, the last of which stands first.
  unfoldable pub ranked : TopSeriesCollector → List Observation → TopSeriesCollector
  ranked c [] = c
  ranked c (o ∷ os) =
      observe env.arrange (ranked c os) (reading (length os)).observed_at identity o.reason
        o.series.labels o.series.details

  -- From `e` to `e'`, the observations were counted under their reasons and ranked, in order.
  pub record Recorded (e : Effects) (os : List Observation) (e' : Effects) : Type 0 where
    pub series :
        (values : List Bytes)
        → counter_value values e'.bad_series_total
          ≡ counter_value values e.bad_series_total + observations_of bad_series values os
    pub samples :
        (values : List Bytes)
        → counter_value values e'.bad_samples_total
          ≡ counter_value values e.bad_samples_total + observations_of bad_sample values os
    pub top : e'.top_series ≡ ranked e.top_series os

  pub nothing-Recorded : (e : Effects) → Recorded e [] e
  unfolding observations_of ranked
  nothing-Recorded e = record {
    series = λ values. omega arith;
    samples = λ values. omega arith;
    top = refl;
  }

  pub same-Recorded :
      (e e' e'' : Effects) (os : List Observation)
      → SameObserved e' e''
      → Recorded e os e'
      → Recorded e os e''
  same-Recorded e e' e'' os s r = record {
    series = λ values. ap (counter_value values) s.series ∙ r.series values;
    samples = λ values. ap (counter_value values) s.samples ∙ r.samples values;
    top = s.top ∙ r.top;
  }

  observed-Recorded :
      {F : Type 0} (cfg : Config F) (e e' : Effects) (kind : Kind) (reason : Reason) (series : Seen)
      (evidence : SampleEvidence) (os : List Observation)
      → Recorded e os e'
      → let o : Observation = record {
        kind = kind;
        reason = reason;
        series = series;
        evidence = evidence;
      } in
        Recorded e (o ∷ os) (observe_bad env cfg identity (reading (length os)) o e')
  unfolding observe_bad sample_log count_bad observations_of ranked
  observed-Recorded cfg e e' bad_series reason series evidence os r = record {
    series = λ values. omega (
      arith,
      counter_value-counter_add values (label_values identity (reason_text reason ∷ [])) 1
          e'.bad_series_total,
      r.series values,
    );
    samples = λ values. omega (arith, r.samples values);
    top =
        ap
          (λ c.
            observe env.arrange c (reading (length os)).observed_at identity reason series.labels
              series.details)
          r.top;
  }
  observed-Recorded cfg e e' bad_sample reason series evidence os r = record {
    series = λ values. omega (arith, r.series values);
    samples = λ values. omega (
      arith,
      counter_value-counter_add values (label_values identity (reason_text reason ∷ [])) 1
          e'.bad_samples_total,
      r.samples values,
    );
    top =
        ap
          (λ c.
            observe env.arrange c (reading (length os)).observed_at identity reason series.labels
              series.details)
          r.top;
  }

  pub observe_bad-Recorded :
      {F : Type 0} (cfg : Config F) (e e' : Effects) (o : Observation) (os : List Observation)
      → Recorded e os e'
      → Recorded e (o ∷ os) (observe_bad env cfg identity (reading (length os)) o e')
  observe_bad-Recorded cfg e e' o os r =
      observed-Recorded cfg e e' o.kind o.reason o.series o.evidence os r
