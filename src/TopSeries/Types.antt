-- ===== src/TopSeries/Types.antt =====
-- internal/inspector/metrics.go: the types of the top-series collector; inspector.go: `seriesDetails`.
use remote_write_inspector.Prelude.{ℕ, List, ℕ_discrete}
use remote_write_inspector.Prelude.Bytes.{Bytes}
use remote_write_inspector.Prelude.Int.{ℤ}
use remote_write_inspector.Validate.Reasons.{Reason, Reason-discrete}
use remote_write_inspector.Config.Types.{TopSeriesLabel}

pub record SeriesDetails : Type 0 where
  pub name : Bytes
  pub host : Bytes
  pub hash : ℕ

pub record TopSeriesKey : Type 0 where
  pub identity_values : Bytes
  pub reason : Reason
  pub series_hash : ℕ

unfoldable pub TopSeriesKey-discrete : Discrete TopSeriesKey
TopSeriesKey-discrete = hlevel (ℕ_discrete, Reason-discrete)

pub record TopSeriesEntry : Type 0 where
  pub key : TopSeriesKey
  pub values : List Bytes
  pub series_name : Bytes
  pub fingerprint : Bytes
  pub count : ℕ

-- `maxSeries` is a number that is not negative: `normalize` leaves a positive one.
pub record TopSeriesCollector : Type 0 where
  pub projections : List TopSeriesLabel
  pub max_series : ℕ
  pub window : ℤ
  pub window_start : ℤ
  pub entries : List (TopSeriesKey × TopSeriesEntry)
