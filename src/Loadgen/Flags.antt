-- ===== src/Loadgen/Flags.antt =====
-- cmd/rwi-loadgen/main.go: `parseFlags` with its defaults, and how `main` begins. The flag library parses
-- the texts of the flags, and ends the program at one that it refuses.
use remote_write_inspector.Prelude.{
  ℕ, ◌<◌, ◌≡◌, Bool, false, List, [], ◌∷◌, Option, none, some, if◌then◌else◌, arith,
}
use remote_write_inspector.Prelude.Bytes.{Bytes, codes, bytes_eq}
use remote_write_inspector.Prelude.Int.{ℤ, pos}
use remote_write_inspector.Config.{seconds}
use remote_write_inspector.Loadgen.{
  LoadConfig, Url, check, validate_numbers, validate_ratios, validate_parsed, validate,
}

-- A flag with its parsed value.
pub data LoadFlag (F : Type 0) : Type 0 where
  url : Bytes → LoadFlag F
  duration workers rate timeout series_per_request samples_per_series active_series : ℤ → LoadFlag F
  tenant_count sink_count path_count writer_count progress_interval : ℤ → LoadFlag F
  stale_ratio future_ratio invalid_series_ratio conflict_ratio : F → LoadFlag F
  version : Bool → LoadFlag F

-- `cpus` is `runtime.NumCPU()`.
unfoldable pub default_load : {F : Type 0} → F → ℕ → LoadConfig F
default_load no_ratio cpus = record {
  target_url = codes "http://localhost:8080/receive";
  duration = seconds 30;
  workers = pos cpus;
  rate = pos 0;
  timeout = seconds 10;
  series_per_request = pos 1000;
  samples_per_series = pos 1;
  active_series = pos 100_000;
  tenant_count = pos 1;
  sink_count = pos 1;
  path_count = pos 1;
  writer_count = pos 1;
  stale_ratio = no_ratio;
  future_ratio = no_ratio;
  invalid_series_ratio = no_ratio;
  conflict_ratio = no_ratio;
  progress_interval = seconds 5;
}

-- The configuration and `showVersion`.
unfoldable pub set_load_flag : {F : Type 0} → LoadFlag F → LoadConfig F × Bool → LoadConfig F × Bool
set_load_flag (url s) (c, v) = (record c { target_url = s }, v)
set_load_flag (duration n) (c, v) = (record c { duration = n }, v)
set_load_flag (workers n) (c, v) = (record c { workers = n }, v)
set_load_flag (rate n) (c, v) = (record c { rate = n }, v)
set_load_flag (timeout n) (c, v) = (record c { timeout = n }, v)
set_load_flag (series_per_request n) (c, v) = (record c { series_per_request = n }, v)
set_load_flag (samples_per_series n) (c, v) = (record c { samples_per_series = n }, v)
set_load_flag (active_series n) (c, v) = (record c { active_series = n }, v)
set_load_flag (tenant_count n) (c, v) = (record c { tenant_count = n }, v)
set_load_flag (sink_count n) (c, v) = (record c { sink_count = n }, v)
set_load_flag (path_count n) (c, v) = (record c { path_count = n }, v)
set_load_flag (writer_count n) (c, v) = (record c { writer_count = n }, v)
set_load_flag (progress_interval n) (c, v) = (record c { progress_interval = n }, v)
set_load_flag (stale_ratio x) (c, v) = (record c { stale_ratio = x }, v)
set_load_flag (future_ratio x) (c, v) = (record c { future_ratio = x }, v)
set_load_flag (invalid_series_ratio x) (c, v) = (record c { invalid_series_ratio = x }, v)
set_load_flag (conflict_ratio x) (c, v) = (record c { conflict_ratio = x }, v)
set_load_flag (version b) (c, v) = (c, b)

unfoldable pub set_load_flags :
    {F : Type 0} → List (LoadFlag F) → LoadConfig F × Bool → LoadConfig F × Bool
set_load_flags [] o = o
set_load_flags (flag ∷ flags) o = set_load_flags flags (set_load_flag flag o)

-- `parseFlags`.
unfoldable pub parse_load_flags : {F : Type 0} → F → ℕ → List (LoadFlag F) → LoadConfig F × Bool
parse_load_flags no_ratio cpus flags = set_load_flags flags (default_load no_ratio cpus, false)

-- `main` ends with this code, or runs the workers with the configuration.
pub data LoadStart (F : Type 0) : Type 0 where
  ended : ℕ → LoadStart F
  running : LoadConfig F → LoadStart F

module _ {F : Type 0} (out? : F → Bool) (exceed? : F → F → Bool) (url_of : Bytes → Option Url) where
  unfoldable pub start_load : LoadConfig F × Bool → LoadStart F
  start_load (cfg, show_version) =
      if show_version
      then ended 0
      else elim (validate out? exceed? url_of cfg) [ some e ↦ ended 2 | none ↦ running cfg ]

  -- Without flags, the load generator starts, where the URL is parsed as it stands, there is a processor,
  -- and a ratio of 0 is accepted.
  pub start_load-default :
      (no_ratio : F) (cpus : ℕ)
      → url_of (codes "http://localhost:8080/receive")
        ≡ some (record { scheme = codes "http"; host = codes "localhost:8080" })
      → 0 < cpus
      → out? no_ratio ≡ false
      → exceed? no_ratio no_ratio ≡ false
      → start_load (parse_load_flags no_ratio cpus []) ≡ running (default_load no_ratio cpus)
  unfolding start_load parse_load_flags set_load_flags default_load validate validate_parsed
      validate_numbers validate_ratios check bytes_eq
  start_load-default no_ratio cpus parsed some_cpu good together = ground arith
