-- ===== src/Inspector/Conflicts.antt =====
-- What `detectDuplicateSample` finds for a second sample of a series at the same time.
use remote_write_inspector.Prelude.{
  ℕ, ◌≡◌, refl, ◌≢◌, ◌↔◌, true, false, none, some, arith, get_elem?,
}
use remote_write_inspector.Prelude.Bytes.{codes}
use remote_write_inspector.Prelude.Int.{ltb_ℤ, ◌+ℤ◌}
use remote_write_inspector.Cache.Shards.{StateCache, shard_for, state_get_or_put}
use remote_write_inspector.Cache.Spec.{live}
use remote_write_inspector.Cache.Types.{CircularCache}
use remote_write_inspector.Cache.StateCalls.{
  AllValid, state_view, state_get_or_put_hit, state_get_or_put_miss,
}
use remote_write_inspector.Identity.Types.{RequestIdentity}
use remote_write_inspector.Identity.{identity_get}
use remote_write_inspector.Inspector.Types.{
  Inspector, Sample, SampleKey, SampleKey-discrete, SampleConflict,
}
use remote_write_inspector.Inspector.Observed.{count_cache}
use remote_write_inspector.Cache.Eviction.{evictions}
use remote_write_inspector.Cache.Spec.{displaced}
use remote_write_inspector.Inspector.{detect_duplicate_sample, conflict_of, no_conflict}

-- The key that a sample is remembered under.
abbrev pub sample_key : RequestIdentity → ℕ → Sample → SampleKey
sample_key identity series sample = record {
  tenant = identity_get identity (codes "tenant");
  series = series;
  ts = sample.timestamp;
}

conflict_of_iff : (a b : ℕ) → ((conflict_of (some a) b).found ≡ true) ↔ (a ≢ b)
unfolding conflict_of
conflict_of_iff a b = ground arith

-- On valid shards, the first sample of a tenant's series at a timestamp is no conflict. Where the
-- next sample that is inspected, with no other one in between, is one of the same tenant's series
-- at the same timestamp, and comes before the first has expired, it is a conflict exactly when the
-- bits of its value differ, and the cache stays as it was.
pub detect_duplicate_sample_again :
    {F : Type 0} (identity : RequestIdentity) (i : Inspector F) (c : StateCache SampleKey ℕ)
    (s : CircularCache SampleKey ℕ) (series : ℕ) (first second : Sample)
    → i.samples ≡ some c
    → AllValid SampleKey-discrete c.shards
    → get_elem? c.shards (shard_for c (sample_key identity series first)) ≡ some s
    → live first.now (state_view SampleKey-discrete c (sample_key identity series first)) ≡ none
    → second.timestamp ≡ first.timestamp
    → ltb_ℤ (first.later +ℤ s.ttl) second.now ≡ false
    → (i1 : Inspector F) × (conflict : SampleConflict) × (detect_duplicate_sample identity i series
          first
        ≡ some (i1, no_conflict))
      × (i2 : Inspector F) × (detect_duplicate_sample identity i1 series second
          ≡ some (i2, conflict))
      × (i2.samples ≡ i1.samples)
      × ((conflict.found ≡ true) ↔ (first.value_bits ≢ second.value_bits))
unfolding detect_duplicate_sample conflict_of
detect_duplicate_sample_again {F = F} identity i c s series first second here v at new same fresh =
    let key = sample_key identity series first in
    let (c1, run, v1, sees, _) =
      state_get_or_put_miss SampleKey-discrete c v first.now first.later key first.value_bits s at
        new in
    let first_in : Inspector F = record i {
      samples = some c1;
      effects =
          count_cache {V = ℕ} (codes "sample_conflicts") none
            (evictions (displaced SampleKey-discrete s key)) i.effects;
    } in
    let found : live second.now (state_view SampleKey-discrete c1 key) ≡ some first.value_bits =
      ground (arith, sees key) in
    let again =
      state_get_or_put_hit SampleKey-discrete c1 v1 second.now second.later key second.value_bits
        first.value_bits found in
    let again' : state_get_or_put SampleKey-discrete c1 second.now second.later
          (sample_key identity series second) second.value_bits
        ≡ some (c1, some first.value_bits, 0) =
      rw same again in
    (
      first_in,
      conflict_of (some first.value_bits) second.value_bits,
      rw here (rw run refl),
      record first_in {
        effects = count_cache (codes "sample_conflicts") (some first.value_bits) 0 first_in.effects;
      },
      rw again' refl,
      refl,
      conflict_of_iff first.value_bits second.value_bits,
    )
