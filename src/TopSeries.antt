-- ===== src/TopSeries.antt =====
-- internal/inspector/metrics.go: the collector of the series with the most findings in the current
-- window. `sort.Slice` is a parameter: what it makes of the entries, which stand in no order in a Go
-- map. The counts are numbers; a float64 counts exactly up to 2^53.
use remote_write_inspector.Prelude.{
  ℕ, ◌+◌, ◌*◌, Bool, true, false, not, List, [], ◌∷◌, ◌++◌, Option, none, some, map, leb, ltb,
  if◌then◌else◌, length, take, ℕ_discrete, map_get, map_put,
}
use remote_write_inspector.Prelude.Bytes.{Bytes, bytes_eq, bytes_lt}
use remote_write_inspector.Prelude.Int.{ℤ, pos, pos_part, ◌-ℤ◌, ltb_ℤ}
use remote_write_inspector.Hash.Types.{Label}
use remote_write_inspector.Hash.{series_fingerprint, unknown_identity}
use remote_write_inspector.Validate.Reasons.{Reason, reason_text}
use remote_write_inspector.Identity.Types.{RequestIdentity}
use remote_write_inspector.Identity.{label_values}
use remote_write_inspector.Config.Types.{TopSeriesLabel}
pub mod Types
pub mod Joined
pub mod Projected
pub mod Counting
pub mod Top
use Types.{SeriesDetails, TopSeriesKey, TopSeriesKey-discrete, TopSeriesEntry, TopSeriesCollector}

-- The loop of `joinIdentityValues` after the first value: 0xff stands between the values.
unfoldable pub join_rest : List Bytes → Bytes
join_rest [] = []
join_rest (value ∷ values) = 255 ∷ (value ++ join_rest values)

unfoldable pub join_identity_values : List Bytes → Bytes
join_identity_values [] = []
join_identity_values (value ∷ values) = value ++ join_rest values

-- The inner loop of `projectedLabelValues`: the first label of the name, `unknown` for an empty value.
unfoldable pub projected_value : Bytes → List Label → Bytes
projected_value source [] = unknown_identity
projected_value source (label ∷ labels) =
    let later = projected_value source labels in
    if bytes_eq label.name source
    then (if bytes_eq label.value [] then unknown_identity else label.value)
    else later

unfoldable pub projected_label_values : List Label → List TopSeriesLabel → List Bytes
projected_label_values labels [] = []
projected_label_values labels (p ∷ ps) =
    projected_value p.source labels ∷ projected_label_values labels ps

unfoldable pub new_top_series_collector : ℕ → ℤ → List TopSeriesLabel → ℤ → TopSeriesCollector
new_top_series_collector max_series window projections now = record {
  projections = projections;
  max_series = max_series;
  window = window;
  window_start = now;
  entries = [];
}

-- `resetExpiredLocked`.
unfoldable pub reset_expired : TopSeriesCollector → ℤ → TopSeriesCollector
reset_expired c now =
    if ltb_ℤ (now -ℤ c.window_start) c.window
    then c
    else record c { window_start = now; entries = [] }

-- The key that `Observe` counts under.
unfoldable pub top_series_key : RequestIdentity → Reason → SeriesDetails → TopSeriesKey
top_series_key identity reason series = record {
  identity_values = join_identity_values identity.values;
  reason = reason;
  series_hash = series.hash;
}

-- The entry that `Observe` makes for a key it has not counted.
unfoldable pub new_entry :
    List TopSeriesLabel → RequestIdentity → Reason → List Label → SeriesDetails → TopSeriesEntry
new_entry projections identity reason labels series = record {
  key = top_series_key identity reason series;
  values =
      label_values identity
        (reason_text reason ∷ series.name ∷ series.host ∷ series_fingerprint series.hash ∷ [])
      ++ projected_label_values labels projections;
  series_name = series.name;
  fingerprint = series_fingerprint series.hash;
  count = 0;
}

abbrev pub entry_values : List (TopSeriesKey × TopSeriesEntry) → List TopSeriesEntry
entry_values [] = []
entry_values ((k, e) ∷ m) = e ∷ entry_values m

-- The map that `pruneLocked` builds from the entries it keeps.
unfoldable pub put_entries :
    List TopSeriesEntry
    → List (TopSeriesKey × TopSeriesEntry)
    → List (TopSeriesKey × TopSeriesEntry)
put_entries [] m = m
put_entries (e ∷ es) m = put_entries es (map_put TopSeriesKey-discrete e.key e m)

-- The order of `Collect`: by count, the greatest first, then by name and fingerprint.
unfoldable pub entry_less : TopSeriesEntry → TopSeriesEntry → Bool
entry_less a b =
    if leb a.count b.count
    then (if ltb a.count b.count
        then false
        else if bytes_eq a.series_name b.series_name
        then bytes_lt a.fingerprint b.fingerprint
        else bytes_lt a.series_name b.series_name)
    else true

-- The entry that a key has, or a new one.
unfoldable pub entry_or : Option TopSeriesEntry → TopSeriesEntry → TopSeriesEntry
entry_or (some e) new = e
entry_or none new = new

-- The body of `Observe` after the reset and before the prune.
unfoldable pub count_finding :
    TopSeriesCollector → RequestIdentity → Reason → List Label → SeriesDetails → TopSeriesCollector
count_finding c identity reason labels series =
    let key = top_series_key identity reason series in
    let entry =
      entry_or (map_get TopSeriesKey-discrete key c.entries)
        (new_entry c.projections identity reason labels series) in
    record c {
      entries =
          map_put TopSeriesKey-discrete key (record entry { count = entry.count + 1 }) c.entries;
    }

module _ (arrange : List TopSeriesEntry → List TopSeriesEntry) where
  -- `pruneLocked`, for `arrange` by count.
  unfoldable pub prune : TopSeriesCollector → TopSeriesCollector
  prune c =
      let arranged = arrange (entry_values c.entries) in
      let most = c.max_series * 25 in
      let keep = if ltb most c.max_series then c.max_series else most in
      if leb (length arranged) keep
      then c
      else record c { entries = put_entries (take keep arranged) [] }

  -- `Observe` at time `now`.
  unfoldable pub observe :
      TopSeriesCollector
      → ℤ
      → RequestIdentity
      → Reason
      → List Label
      → SeriesDetails
      → TopSeriesCollector
  observe c now identity reason labels series =
      let c' = count_finding (reset_expired c now) identity reason labels series in
      if ltb (c'.max_series * 50) (length c'.entries) then prune c' else c'

  -- `Collect`, for `arrange` by `entry_less`: the collector afterwards and the entries that are sent.
  unfoldable pub collect : TopSeriesCollector → ℤ → TopSeriesCollector × List TopSeriesEntry
  collect c now =
      let c1 = reset_expired c now in
      let entries = arrange (entry_values c1.entries) in
      (c1, if ltb c1.max_series (length entries) then take c1.max_series entries else entries)
