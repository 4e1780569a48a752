-- ===== src/Inspector/Ready.antt =====
-- The invariant of the inspector: the caches that its detectors use exist and are valid.
use remote_write_inspector.Prelude.{
  ℕ, ◌≡◌, refl, sym, subst, inl, inr, Bool, true, false, List, Option, none, some, arith,
  Option-cases,
}
use remote_write_inspector.Prelude.Bytes.{Bytes, codes}
use remote_write_inspector.Prelude.Int.{ℤ}
use remote_write_inspector.Cache.Shards.{StateCache, new_state_cache, state_get_or_put}
use remote_write_inspector.Cache.Spec.{live}
use remote_write_inspector.Cache.StateCalls.{
  AllValid, state_view, shard_at, state_get_or_put_hit, state_get_or_put_miss,
}
use remote_write_inspector.Cache.History.{new_state_cache-AllValid}
use remote_write_inspector.Config.Types.{Config}
use remote_write_inspector.Identity.Types.{IdentitySet}
use remote_write_inspector.Identity.{has}
use remote_write_inspector.Capture.{SampleCapture, Matcher}
use remote_write_inspector.Capture.Accounting.{Balanced}
use remote_write_inspector.Inspector.Types.{
  Inspector, SampleKey, PathKey, SampleKey-discrete, PathKey-discrete,
}
use remote_write_inspector.Metrics.{Collector}
use remote_write_inspector.Inspector.Made.{new_inspector-Made}
use remote_write_inspector.Inspector.Start.{
  Started, new_inspector, inspector_of, sample_cache_shard, path_cache_shard,
}

-- A call on valid shards does not panic and leaves them valid.
pub state_get_or_put_total :
    {K V : Type 0} (dec : Discrete K) (c : StateCache K V) (now later : ℤ) (k : K) (x : V)
    → AllValid dec c.shards
    → (c' : StateCache K V) × (existing : Option V) × (evicted : ℕ) × (state_get_or_put dec c now
          later k x
        ≡ some (c', existing, evicted))
      × AllValid dec c'.shards
state_get_or_put_total dec c now later k x v =
    let (s, at, _) = shard_at dec c v k in
    elim (Option-cases (live now (state_view dec c k))) [
      | inl miss ↦
          let (c1, e, v1, _, _) = state_get_or_put_miss dec c v now later k x s at miss in
          (c1, none, _, e, v1)
      | inr (y, hit) ↦ (c, some y, 0, state_get_or_put_hit dec c v now later k x y hit, v)
    ]

module _ {F : Type 0} where
  -- The inspector has the configuration and the identity set, and the caches of the active detectors;
  -- the counters of the capture session are balanced for each identity.
  pub record Ready (cfg : Config F) (ids : IdentitySet) (i : Inspector F) : Type 0 where
    pub same_cfg : i.cfg ≡ cfg
    pub same_ids : i.ids ≡ ids
    pub samples :
        cfg.disable_duplicate_sample_detection ≡ false
        → (c : StateCache SampleKey ℕ) × (i.samples ≡ some c) × AllValid SampleKey-discrete c.shards
    pub paths :
        cfg.disable_cross_path_collision_detection ≡ false
        → has ids (codes "input_path") ≡ true
        → (c : StateCache PathKey Bytes) × (i.paths ≡ some c) × AllValid PathKey-discrete c.shards
    pub balanced : (values : List Bytes) → Balanced (i.capture_counters values)

  pub inspector_of-Ready :
      (cfg : Config F) (ids : IdentitySet) (session : Option SampleCapture) (started : Started)
      → Ready cfg ids (inspector_of cfg ids session started)
  inspector_of-Ready cfg ids session started = record {
    same_cfg = refl;
    same_ids = refl;
    samples = λ on. (
      new_state_cache cfg.cache_size cfg.cache_ttl sample_cache_shard,
      ground arith,
      new_state_cache-AllValid SampleKey-discrete cfg.cache_size cfg.cache_ttl sample_cache_shard,
    );
    paths = λ on known. (
      new_state_cache cfg.cache_size cfg.cache_ttl path_cache_shard,
      ground arith,
      new_state_cache-AllValid PathKey-discrete cfg.cache_size cfg.cache_ttl path_cache_shard,
    );
    balanced = λ values. record { floats = refl; histograms = refl; cuts = omega arith };
  }

module _ {F R : Type 0} (register : Collector → R → Option R) (rate : F → Bool) where
  -- `New` makes an inspector that is ready for its configuration and identity set.
  pub new_inspector-Ready :
      (config : Config F) (matchers : Option (List Matcher)) (started : Started) (reg reg' : R)
      (i : Inspector F)
      → new_inspector register rate config matchers started reg ≡ inr (reg', i)
      → Ready i.cfg i.ids i
  new_inspector-Ready config matchers started reg reg' i h =
      let m = new_inspector-Made register rate config matchers started reg reg' i h in
      subst (λ j. Ready j.cfg j.ids j) (sym m.made)
        (inspector_of-Ready m.cfg m.ids m.session started)
