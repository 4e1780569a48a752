-- ===== src/Inspector/Judged.antt =====
-- What an inspection has recorded, and that every report keeps it so.
use remote_write_inspector.Prelude.{
  ◌∙◌, ℕ, ◌+◌, ◌≡◌, refl, Bool, true, false, List, [], ◌∷◌, Option, some, if◌then◌else◌, length,
}
use remote_write_inspector.Config.Types.{Config}
use remote_write_inspector.Identity.Types.{IdentitySet, RequestIdentity}
use remote_write_inspector.Validate.Reasons.{Reason}
use remote_write_inspector.Inspector.Types.{
  other_counters, Seen, Inspector, TimeSeries, Observation, Inspection, Environment, Effects,
  Reading,
}
use remote_write_inspector.Inspector.Detectors.{SameObserved}
use remote_write_inspector.Inspector.Recorded.{
  observe_bad-uncounted, Recorded, same-Recorded, observe_bad-Recorded,
}
use remote_write_inspector.Inspector.Ready.{Ready}
use remote_write_inspector.Inspector.{report_observation, report_series}

abbrev pub some_observation : List Observation → Bool
some_observation [] = false
some_observation (o ∷ os) = true

-- The samples and histograms of a request.
abbrev pub sample_count : List TimeSeries → ℕ
sample_count [] = 0
sample_count (ts ∷ series) = length ts.samples + length ts.histograms + sample_count series

-- The parts that an inspection is made of and begins with.
module _ {F : Type 0} (env : Environment) (reading : ℕ → Reading) (identity : RequestIdentity)
    (cfg : Config F) (ids : IdentitySet) (before : Effects) where
  -- The inspector is ready, `n` samples are counted, bad data is reported exactly when there is an
  -- observation, the samples are not yet in their counter, and the observations are recorded, from
  -- the effects `before` on.
  pub record Good (n : ℕ) (r : Inspection F) : Type 0 where
    pub ready : Ready cfg ids r.inspector
    pub total : r.total_samples ≡ n
    pub judged : r.bad_data ≡ some_observation r.observations
    pub uncounted : other_counters r.inspector.effects ≡ other_counters before
    pub recorded : Recorded env reading identity before r.observations r.inspector.effects

  report_observation-Good :
      {n : ℕ} (o : Observation) (r : Inspection F)
      → Good n r
      → Good n (report_observation env reading identity o r)
  unfolding report_observation
  report_observation-Good o r g = record {
    ready = record {
      same_cfg = g.ready.same_cfg;
      same_ids = g.ready.same_ids;
      samples = g.ready.samples;
      paths = g.ready.paths;
      balanced = g.ready.balanced;
    };
    total = g.total;
    judged = refl;
    uncounted =
        observe_bad-uncounted env r.inspector.cfg identity (reading (length r.observations)) o
          r.inspector.effects
        ∙ g.uncounted;
    recorded =
        observe_bad-Recorded env reading identity r.inspector.cfg before r.inspector.effects o
          r.observations g.recorded;
  }

  pub report_series-Good :
      {n : ℕ} (reasons : List Reason) (series : Seen) (r : Inspection F)
      → Good n r
      → Good n (report_series env reading identity reasons series r)
  unfolding report_series
  report_series-Good [] series r g = g
  report_series-Good (reason ∷ reasons) series r g =
      report_series-Good reasons series _ (report_observation-Good _ r g)

  pub with_inspector-Good :
      {n : ℕ} (i : Inspector F) (r : Inspection F)
      → Ready cfg ids i
      → SameObserved r.inspector.effects i.effects
      → Good n r
      → Good n (record r { inspector = i })
  with_inspector-Good i r ready same g = record {
    ready = ready;
    total = g.total;
    judged = g.judged;
    uncounted = same.uncounted ∙ g.uncounted;
    recorded =
        same-Recorded env reading identity before r.inspector.effects i.effects r.observations same
          g.recorded;
  }

  pub report_if-Good :
      {n : ℕ} (b : Bool) (o : Observation) (r : Inspection F)
      → Good n r
      → Good n (if b then report_observation env reading identity o r else r)
  report_if-Good true o r g = report_observation-Good o r g
  report_if-Good false o r g = g

  pub unless_total :
      {n : ℕ} (b : Bool) (x : Inspection F) (y : Option (Inspection F))
      → Good n x
      → (b ≡ false → (r' : Inspection F) × (y ≡ some r') × Good n r')
      → (r' : Inspection F) × ((if b then some x else y) ≡ some r') × Good n r'
  unless_total true x y g f = (x, refl, g)
  unless_total false x y g f = f refl
