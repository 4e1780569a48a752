-- ===== src/Inspector/Detectors.antt =====
-- The detectors on an inspector that is ready: they do not panic, and it stays ready.
use remote_write_inspector.Prelude.{
  ℕ, ◌≡◌, refl, Option, inl, inr, Bool, true, false, not, none, some, arith, Bool-cases,
}
use remote_write_inspector.Prelude.Bytes.{Bytes, codes, bytes_eq, bytes_eq_iff}
use remote_write_inspector.Prelude.Int.{ℤ}
use remote_write_inspector.Config.Types.{Config}
use remote_write_inspector.Hash.{unknown_identity}
use remote_write_inspector.Identity.Types.{IdentitySet, RequestIdentity}
use remote_write_inspector.Identity.{has, identity_get}
use remote_write_inspector.Inspector.Types.{
  other_counters, Effects, Inspector, Sample, SampleConflict, SampleKey, PathKey,
  SampleKey-discrete, PathKey-discrete,
}
use remote_write_inspector.Inspector.Ready.{Ready, state_get_or_put_total}
use remote_write_inspector.Inspector.Observed.{count_cache}
use remote_write_inspector.Inspector.{
  detect_duplicate_sample, detect_cross_path_collision, conflict_of,
}

-- What observations are counted in is the same.
pub record SameObserved (e e' : Effects) : Type 0 where
  pub series : e'.bad_series_total ≡ e.bad_series_total
  pub samples : e'.bad_samples_total ≡ e.bad_samples_total
  pub top : e'.top_series ≡ e.top_series
  pub uncounted : other_counters e' ≡ other_counters e

count_cache-SameObserved :
    {V : Type 0} (cache : Bytes) (existing : Option V) (evicted : ℕ) (e : Effects)
    → SameObserved e (count_cache cache existing evicted e)
unfolding count_cache
count_cache-SameObserved cache none evicted e = record {
  series = refl;
  samples = refl;
  top = refl;
  uncounted = refl;
}
count_cache-SameObserved cache (some v) evicted e = record {
  series = refl;
  samples = refl;
  top = refl;
  uncounted = refl;
}

module _ {F : Type 0} (cfg : Config F) (ids : IdentitySet) where
  module _ (identity : RequestIdentity) where
    pub duplicate_total :
        (i : Inspector F) (series : ℕ) (sample : Sample)
        → Ready cfg ids i
        → cfg.disable_duplicate_sample_detection ≡ false
        → (i' : Inspector F) × (conflict : SampleConflict) × (detect_duplicate_sample identity i
              series sample
            ≡ some (i', conflict))
          × Ready cfg ids i'
          × SameObserved i.effects i'.effects
    unfolding detect_duplicate_sample
    duplicate_total i series sample ready on =
        let (c, here, valid) = ready.samples on in
        let key : SampleKey = record {
          tenant = identity_get identity (codes "tenant");
          series = series;
          ts = sample.timestamp;
        } in
        let (c', existing, evicted, run, valid') =
          state_get_or_put_total SampleKey-discrete c sample.now sample.later key sample.value_bits
            valid in
        (
          record i {
            samples = some c';
            effects = count_cache (codes "sample_conflicts") existing evicted i.effects;
          },
          conflict_of existing sample.value_bits,
          rw here (rw run refl),
          record {
            same_cfg = ready.same_cfg;
            same_ids = ready.same_ids;
            samples = λ on. (c', refl, valid');
            paths = ready.paths;
            balanced = ready.balanced;
          },
          count_cache-SameObserved (codes "sample_conflicts") existing evicted i.effects,
        )

    -- The identity is read by the identity set: a field that the set lacks reads as `unknown`.
    module _
        (known : (q : Bytes) → has ids q ≡ false → identity_get identity q ≡ unknown_identity) where
      pub collision_total :
          (i : Inspector F) (series : ℕ) (now later : ℤ)
          → Ready cfg ids i
          → cfg.disable_cross_path_collision_detection ≡ false
          → (i' : Inspector F) × (found : Bool) × (detect_cross_path_collision identity i series now
                later
              ≡ some (i', found))
            × Ready cfg ids i'
            × SameObserved i.effects i'.effects
      unfolding detect_cross_path_collision
      collision_total i series now later ready on =
          let path = identity_get identity (codes "input_path") in
          elim (Bool-cases (bytes_eq path unknown_identity)) [
            | inl t ↦ rw t (
              i,
              false,
              refl,
              ready,
              record { series = refl; samples = refl; top = refl; uncounted = refl },
            )
            | inr f ↦
                let field : has ids (codes "input_path") ≡ true =
                  ground (arith, known (codes "input_path"), bytes_eq_iff path unknown_identity) in
                let (c, here, valid) = ready.paths on field in
                let key : PathKey = record {
                  tenant = identity_get identity (codes "tenant");
                  series = series;
                } in
                let (c', existing, evicted, run, valid') =
                  state_get_or_put_total PathKey-discrete c now later key path valid in
                rw f (
                  record i {
                    paths = some c';
                    effects = count_cache (codes "cross_path") existing evicted i.effects;
                  },
                  elim existing [ none ↦ false | some p ↦ not (bytes_eq p path) ],
                  rw here (rw run refl),
                  record {
                    same_cfg = ready.same_cfg;
                    same_ids = ready.same_ids;
                    samples = ready.samples;
                    paths = λ on field. (c', refl, valid');
                    balanced = ready.balanced;
                  },
                  count_cache-SameObserved (codes "cross_path") existing evicted i.effects,
                )
          ]
