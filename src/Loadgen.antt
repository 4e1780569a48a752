-- ===== src/Loadgen.antt =====
-- cmd/rwi-loadgen/main.go: the configuration and its validation. A ratio is of the type `F`; the
-- comparisons of ratios, and the parser of the URL, are parameters.
use remote_write_inspector.Prelude.{Bool, ◌||◌, ◌&&◌, not, [], Option, none, some, if◌then◌else◌}
use remote_write_inspector.Prelude.Bytes.{Bytes, codes, bytes_eq}
use remote_write_inspector.Prelude.Int.{ℤ, pos, ltb_ℤ}
pub mod Search
pub mod Stats
pub mod Buckets
pub mod Tally
pub mod Rounds
pub mod Percentile
pub mod Ranks
pub mod Accepted
pub mod Requests
pub mod Cycles
pub mod Verdicts
pub mod Pacer
pub mod Workers
pub mod Sound
pub mod Numbered
pub mod Ends
pub mod Headers
pub mod Sent
pub mod Identified
pub mod Carried
pub mod Delivered
pub mod Report
pub mod Client
pub mod Progress
pub mod Decimals
pub mod Statuses
pub mod Flags

pub record LoadConfig (F : Type 0) : Type 0 where
  pub target_url : Bytes
  pub duration : ℤ
  pub workers : ℤ
  pub rate : ℤ
  pub timeout : ℤ
  pub series_per_request : ℤ
  pub samples_per_series : ℤ
  pub active_series : ℤ
  pub tenant_count : ℤ
  pub sink_count : ℤ
  pub path_count : ℤ
  pub writer_count : ℤ
  pub stale_ratio : F
  pub future_ratio : F
  pub invalid_series_ratio : F
  pub conflict_ratio : F
  pub progress_interval : ℤ

pub data ValidateError : Type 0 where
  parse_url url_scheme url_host duration_negative workers_not_positive rate_negative : ValidateError
  timeout_not_positive series_per_request_not_positive samples_per_series_not_positive :
      ValidateError
  active_series_not_positive identity_counts_not_positive : ValidateError
  ratio_out_of_range : Bytes → ValidateError
  ratios_exceed_one progress_interval_negative : ValidateError

-- The scheme and the host of a URL.
pub record Url : Type 0 where
  pub scheme : Bytes
  pub host : Bytes

-- `n < 0` and `n <= 0`.
abbrev pub negative : ℤ → Bool
negative n = ltb_ℤ n (pos 0)

abbrev pub not_positive : ℤ → Bool
not_positive n = not (ltb_ℤ (pos 0) n)

-- An early return with the error, where the test holds; then what follows.
unfoldable pub check : Bool → ValidateError → Option ValidateError → Option ValidateError
check bad e rest = if bad then some e else rest

module _ {F : Type 0} (ratio_out_of_range? : F → Bool) (exceed_one? : F → F → Bool) where
  -- The checks that follow those of the URL.
  unfoldable pub validate_numbers : LoadConfig F → Option ValidateError
  validate_numbers cfg = check (negative cfg.duration) duration_negative (
      check (not_positive cfg.workers) workers_not_positive (
        check (negative cfg.rate) rate_negative (
          check (not_positive cfg.timeout) timeout_not_positive (
            check (not_positive cfg.series_per_request) series_per_request_not_positive (
              check (not_positive cfg.samples_per_series) samples_per_series_not_positive (
                check (not_positive cfg.active_series) active_series_not_positive (
                  check
                    (not_positive cfg.tenant_count
                      || (not_positive cfg.sink_count
                          || (not_positive cfg.path_count || not_positive cfg.writer_count)))
                    identity_counts_not_positive none)))))))

  -- `validateRatio` for each ratio, and the last checks.
  unfoldable pub validate_ratios : LoadConfig F → Option ValidateError
  validate_ratios cfg =
      check (ratio_out_of_range? cfg.stale_ratio) (ratio_out_of_range (codes "stale-ratio")) (
        check (ratio_out_of_range? cfg.future_ratio) (ratio_out_of_range (codes "future-ratio")) (
          check (ratio_out_of_range? cfg.invalid_series_ratio)
            (ratio_out_of_range (codes "invalid-series-ratio"))
            (check (ratio_out_of_range? cfg.conflict_ratio)
              (ratio_out_of_range (codes "conflict-ratio"))
              (check (exceed_one? cfg.stale_ratio cfg.future_ratio) ratios_exceed_one
                (check (negative cfg.progress_interval) progress_interval_negative none)))))

  -- From what `url.Parse` returns on.
  unfoldable pub validate_parsed : Option Url → LoadConfig F → Option ValidateError
  validate_parsed none cfg = some parse_url
  validate_parsed (some url) cfg =
      if not (bytes_eq url.scheme (codes "http")) && not (bytes_eq url.scheme (codes "https"))
      then some url_scheme
      else if bytes_eq url.host []
      then some url_host
      else elim (validate_numbers cfg) [ some e ↦ some e | none ↦ validate_ratios cfg ]

  -- `validate`; `none` is no error.
  unfoldable pub validate : (Bytes → Option Url) → LoadConfig F → Option ValidateError
  validate url_of cfg = validate_parsed (url_of cfg.target_url) cfg
