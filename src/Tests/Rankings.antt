-- ===== src/Tests/Rankings.antt =====
-- The top-series collector at concrete inputs. The entries stay in the order of the map.
use mathlib.Core.List.Perm
use remote_write_inspector.Prelude.{ℕ, ◌+◌, ◌≤◌, ◌≡◌, refl, List, [], ◌∷◌, arith, length}
use remote_write_inspector.Prelude.Bytes.{Bytes, codes}
use remote_write_inspector.Prelude.Sorting.{IsSorted}
use remote_write_inspector.Prelude.Int.{pos, ◌-ℤ◌}
use remote_write_inspector.Validate.Reasons.{stale_sample}
use remote_write_inspector.Identity.Types.{RequestIdentity}
use remote_write_inspector.Config.Types.{TopSeriesLabel}
use remote_write_inspector.TopSeries.Types.{SeriesDetails, TopSeriesEntry, TopSeriesCollector}
use remote_write_inspector.TopSeries.Counting.{
  Finding, key_of, count_of, findings_with, WithinWindow, observe_all, observe_all-findings_with,
  observe_all_bounded,
}
use remote_write_inspector.TopSeries.Top.{Reported, collect-Reported}
use remote_write_inspector.TopSeries.{entry_less, entry_values, reset_expired, collect, new_entry}

abbrev someone : RequestIdentity
someone = record {
  names = codes "tenant" ∷ [];
  values = codes "t" ∷ [];
  by_name = (codes "tenant", codes "t") ∷ [];
}

abbrev two_values : List Bytes
two_values = codes "t" ∷ codes "p" ∷ []

abbrev up : SeriesDetails
up = record { name = codes "up"; host = codes "h"; hash = 9 }

abbrev projections : List TopSeriesLabel
projections = record { source = codes "job"; output = codes "source_job" } ∷ []

abbrev finding_at : ℕ → Finding
finding_at n = record {
  now = pos n;
  identity = someone;
  reason = stale_sample;
  labels = [];
  series = up;
}

abbrev findings : List Finding
findings = finding_at 1 ∷ finding_at 2 ∷ []

abbrev collector : TopSeriesCollector
collector = record {
  projections = projections;
  max_series = 1;
  window = pos 10;
  window_start = pos 0;
  entries = [];
}

abbrev as_they_are : List TopSeriesEntry → List TopSeriesEntry
as_they_are l = l

findings-WithinWindow : WithinWindow (pos 0) (pos 10) findings
unfolding ◌-ℤ◌
findings-WithinWindow = (refl, (refl, tt))

observe_all-findings_with_example :
    count_of (key_of (finding_at 1)) (observe_all as_they_are collector findings).entries
    ≡ count_of (key_of (finding_at 1)) [] + findings_with (key_of (finding_at 1)) findings
observe_all-findings_with_example =
    observe_all-findings_with as_they_are collector findings (key_of (finding_at 1))
      findings-WithinWindow (omega arith)

observe_all_bounded_example : length (observe_all as_they_are collector findings).entries ≤ 50
observe_all_bounded_example =
    observe_all_bounded as_they_are (λ l. refl) collector findings (omega arith)

-- Two entries, the one counted twice first.
abbrev counted_twice : TopSeriesEntry
counted_twice = record (new_entry projections someone stale_sample [] up) { count = 2 }

abbrev counted_once : TopSeriesEntry
counted_once = record (new_entry projections someone stale_sample [] up) { count = 1 }

abbrev two_entries : TopSeriesCollector
two_entries = record collector {
  entries = (key_of (finding_at 1), counted_twice) ∷ (key_of (finding_at 2), counted_once) ∷ [];
}

in_order : IsSorted entry_less (entry_values (reset_expired two_entries (pos 3)).entries)
unfolding entry_less reset_expired ◌-ℤ◌
in_order = (refl, tt)

collect-Reported_example :
    Reported
      (reset_expired two_entries (pos 3)).max_series
      (entry_values (reset_expired two_entries (pos 3)).entries)
      (collect as_they_are two_entries (pos 3)).1
collect-Reported_example =
    collect-Reported as_they_are two_entries (pos 3)
      (Perm.refl (entry_values (reset_expired two_entries (pos 3)).entries)) in_order
