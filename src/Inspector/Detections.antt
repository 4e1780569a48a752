-- ===== src/Inspector/Detections.antt =====
-- internal/inspector/inspector.go: the tests of a time and of a name, and the detectors with a cache.
use remote_write_inspector.Prelude.{
  ◌>>=◌, ℕ, ◌+◌, ◌/◌, Bool, true, false, ◌&&◌, ◌||◌, not, List, [], ◌∷◌, Option, none, some,
  if◌then◌else◌, length, ℕ_discrete, ite, take, leb,
}
use remote_write_inspector.Prelude.Bytes.{Bytes, codes, bytes_eq}
use remote_write_inspector.Prelude.Int.{ℤ, pos, negsuc, ◌+ℤ◌, ◌-ℤ◌, ltb_ℤ}
use remote_write_inspector.Cache.Shards.{state_get_or_put}
use remote_write_inspector.Config.Types.{Config}
use remote_write_inspector.Hash.{unknown_identity}
use remote_write_inspector.Identity.Types.{RequestIdentity}
use remote_write_inspector.Identity.{identity_get}
use remote_write_inspector.Capture.{Attempt}
use remote_write_inspector.Validate.Reasons.{Reason}
use remote_write_inspector.Inspector.Types.{
  SampleKey-discrete, PathKey-discrete, Inspector, Sample, SampleConflict,
}
use remote_write_inspector.Inspector.Observed.{count_cache}

-- `Duration.Milliseconds`, which drops the fraction.
unfoldable pub milliseconds : ℤ → ℤ
milliseconds (pos n) = pos (n / 1_000_000)
milliseconds (negsuc n) = pos 0 -ℤ pos ((n + 1) / 1_000_000)

-- `isStale` and `isFuture`. Milliseconds of a clock and of a duration are far from the bounds of an
-- int64, so that the sums do not wrap.
unfoldable pub is_stale : {F : Type 0} → Config F → ℤ → ℤ → Bool
is_stale cfg ts now_ms = ltb_ℤ ts (now_ms -ℤ milliseconds cfg.stale_cutoff)

unfoldable pub is_future : {F : Type 0} → Config F → ℤ → ℤ → Bool
is_future cfg ts now_ms = ltb_ℤ (now_ms +ℤ milliseconds cfg.future_skew) ts

abbrev pub no_conflict : SampleConflict
no_conflict = record { found = false; previous_value_bits = 0; incoming_value_bits = 0 }

-- Whether a text has the prefix.
unfoldable pub has_prefix : Bytes → Bytes → Bool
has_prefix name prefix =
    leb (length prefix) (length name) && bytes_eq (take (length prefix) name) prefix

unfoldable pub is_diagnostic_metric : List Bytes → Bytes → Bool
is_diagnostic_metric [] name = false
is_diagnostic_metric (prefix ∷ prefixes) name =
    (not (bytes_eq prefix []) && has_prefix name prefix) || is_diagnostic_metric prefixes name

-- The conflict between a value found and an incoming one.
unfoldable pub conflict_of : Option ℕ → ℕ → SampleConflict
conflict_of none value_bits = no_conflict
conflict_of (some existing) value_bits =
    ite (ℕ_discrete existing value_bits) no_conflict
      (record { found = true; previous_value_bits = existing; incoming_value_bits = value_bits })

-- `len(seriesReasons) == 0`.
unfoldable pub no_reasons : List Reason → Bool
no_reasons [] = true
no_reasons (r ∷ rs) = false

-- What the capture session reads for each sample.
abbrev pub attempts_of : List Sample → List Attempt
attempts_of [] = []
attempts_of (sample ∷ samples) = sample.attempt ∷ attempts_of samples

module _ {F : Type 0} (identity : RequestIdentity) where
  -- `detectDuplicateSample`.
  unfoldable pub detect_duplicate_sample :
      Inspector F → ℕ → Sample → Option (Inspector F × SampleConflict)
  detect_duplicate_sample i series sample = do
    cache ← i.samples
    (cache', existing, evicted) ←
        state_get_or_put SampleKey-discrete cache sample.now sample.later
          (record {
            tenant = identity_get identity (codes "tenant");
            series = series;
            ts = sample.timestamp;
          })
          sample.value_bits
    some (
      record i {
        samples = some cache';
        effects = count_cache (codes "sample_conflicts") existing evicted i.effects;
      },
      conflict_of existing sample.value_bits,
    )

  -- `detectCrossPathCollision`.
  unfoldable pub detect_cross_path_collision : Inspector F → ℕ → ℤ → ℤ → Option (Inspector F × Bool)
  detect_cross_path_collision i series now later =
      let input_path = identity_get identity (codes "input_path") in
      if bytes_eq input_path unknown_identity then some (i, false) else (do
        cache ← i.paths
        (cache', existing, evicted) ←
            state_get_or_put PathKey-discrete cache now later
              (record { tenant = identity_get identity (codes "tenant"); series = series })
              input_path
        some (
          record i {
            paths = some cache';
            effects = count_cache (codes "cross_path") existing evicted i.effects;
          },
          elim existing [ none ↦ false | some path ↦ not (bytes_eq path input_path) ],
        ))
