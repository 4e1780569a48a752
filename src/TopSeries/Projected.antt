-- ===== src/TopSeries/Projected.antt =====
-- How many label values an entry has.
use remote_write_inspector.Prelude.{
  ◌+◌, ◌≡◌, refl, List, [], ◌∷◌, ◌++◌, length, length-append, arith,
}
use remote_write_inspector.Hash.{series_fingerprint}
use remote_write_inspector.Hash.Types.{Label}
use remote_write_inspector.Validate.Reasons.{Reason, reason_text}
use remote_write_inspector.Identity.Types.{RequestIdentity}
use remote_write_inspector.Identity.{label_values}
use remote_write_inspector.Config.Types.{TopSeriesLabel}
use remote_write_inspector.TopSeries.Types.{SeriesDetails}
use remote_write_inspector.TopSeries.{new_entry, projected_label_values}

length-projected_label_values :
    (labels : List Label) (ps : List TopSeriesLabel)
    → length (projected_label_values labels ps) ≡ length ps
unfolding projected_label_values
length-projected_label_values labels [] = refl
length-projected_label_values labels (p ∷ ps) =
    omega (arith, length-projected_label_values labels ps)

-- An entry has a value for each identity name, for the reason, name, host and fingerprint, and for
-- each projection.
pub new_entry-length :
    (ps : List TopSeriesLabel) (i : RequestIdentity) (r : Reason) (labels : List Label)
    (series : SeriesDetails)
    → length (new_entry ps i r labels series).values ≡ length i.values + 4 + length ps
unfolding new_entry label_values
new_entry-length ps i r labels series =
    let four = reason_text r ∷ series.name ∷ series.host ∷ series_fingerprint series.hash ∷ [] in
    omega (
      arith,
      length-append (i.values ++ four) (projected_label_values labels ps),
      length-append i.values four,
      length-projected_label_values labels ps,
    )
