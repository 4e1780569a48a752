-- ===== src/TopSeries/Counting.antt =====
-- `Observe`: the counts within a window, and the bound on the number of entries.
use remote_write_inspector.Prelude.{
  ℕ, ◌+◌, ◌*◌, ◌≤◌, ◌≡◌, refl, inl, inr, true, false, List, [], ◌∷◌, none, some, arith, length,
  take, length-take, max, ◌∙◌, sym, subst, ap, ltb, if◌then◌else◌, ite, map_get, map_put,
  map_get-map_put, length-map_put_new, length-map_put_old, Option-cases,
}
use remote_write_inspector.Prelude.Int.{ℤ, ◌-ℤ◌, ltb_ℤ}
use remote_write_inspector.Hash.Types.{Label}
use remote_write_inspector.Validate.Reasons.{Reason}
use remote_write_inspector.Identity.Types.{RequestIdentity}
use remote_write_inspector.TopSeries.Types.{
  SeriesDetails, TopSeriesKey, TopSeriesKey-discrete, TopSeriesEntry, TopSeriesCollector,
}
use remote_write_inspector.TopSeries.{
  reset_expired, entry_or, count_finding, top_series_key, new_entry, entry_values, put_entries,
  prune, observe,
}

length-map_put :
    (k : TopSeriesKey) (e : TopSeriesEntry) (m : List (TopSeriesKey × TopSeriesEntry))
    → length (map_put TopSeriesKey-discrete k e m) ≤ length m + 1
length-map_put k e m = elim (Option-cases (map_get TopSeriesKey-discrete k m)) [
  | inl new ↦ omega (arith, length-map_put_new TopSeriesKey-discrete k e m new)
  | inr (w, old) ↦ omega (arith, length-map_put_old TopSeriesKey-discrete k e w m old)
]

length-put_entries :
    (es : List TopSeriesEntry) (m : List (TopSeriesKey × TopSeriesEntry))
    → length (put_entries es m) ≤ length es + length m
unfolding put_entries
length-put_entries [] m = omega arith
length-put_entries (e ∷ es) m = omega (
  arith,
  length-put_entries es (map_put TopSeriesKey-discrete e.key e m),
  length-map_put e.key e m,
)

length-entry_values :
    (m : List (TopSeriesKey × TopSeriesEntry)) → length (entry_values m) ≡ length m
length-entry_values [] = refl
length-entry_values ((k, e) ∷ m) = omega (arith, length-entry_values m)

-- One call of `Observe`.
pub record Finding : Type 0 where
  pub now : ℤ
  pub identity : RequestIdentity
  pub reason : Reason
  pub labels : List Label
  pub series : SeriesDetails

abbrev pub key_of : Finding → TopSeriesKey
key_of f = top_series_key f.identity f.reason f.series

-- The count under a key, 0 where there is no entry.
unfoldable pub count_of : TopSeriesKey → List (TopSeriesKey × TopSeriesEntry) → ℕ
count_of k m = elim (map_get TopSeriesKey-discrete k m) [ none ↦ 0 | some e ↦ e.count ]

-- How many findings have the key.
unfoldable pub findings_with : TopSeriesKey → List Finding → ℕ
findings_with k [] = 0
findings_with k (f ∷ fs) = ite (TopSeriesKey-discrete (key_of f) k) 1 0 + findings_with k fs

-- The findings come while the window that began at `start` lasts.
abbrev pub WithinWindow : ℤ → ℤ → List Finding → Type 0
WithinWindow start window [] = Unit {0}
WithinWindow start window (f ∷ fs) =
    (ltb_ℤ (f.now -ℤ start) window ≡ true) × WithinWindow start window fs

-- The collector before `Observe` may prune it.
abbrev counted : TopSeriesCollector → Finding → TopSeriesCollector
counted c f = count_finding (reset_expired c f.now) f.identity f.reason f.labels f.series

count_finding_size :
    (c : TopSeriesCollector) (f : Finding)
    → (length (count_finding c f.identity f.reason f.labels f.series).entries
        ≤ length c.entries + 1)
      × ((count_finding c f.identity f.reason f.labels f.series).max_series ≡ c.max_series)
unfolding count_finding
count_finding_size c f = (length-map_put (key_of f) _ c.entries, refl)

reset_expired_size :
    (c : TopSeriesCollector) (now : ℤ)
    → (length (reset_expired c now).entries ≤ length c.entries)
      × ((reset_expired c now).max_series ≡ c.max_series)
unfolding reset_expired
reset_expired_size c now = ground arith

counted_size :
    (c : TopSeriesCollector) (f : Finding)
    → (length (counted c f).entries ≤ length c.entries + 1)
      × ((counted c f).max_series ≡ c.max_series)
counted_size c f =
    let (a, b) = count_finding_size (reset_expired c f.now) f in
    let (d, e) = reset_expired_size c f.now in (omega (arith, a, d), b ∙ e)

count_of-put :
    (k j : TopSeriesKey) (e : TopSeriesEntry) (m : List (TopSeriesKey × TopSeriesEntry))
    → count_of k (map_put TopSeriesKey-discrete j e m)
      ≡ ite (TopSeriesKey-discrete j k) e.count (count_of k m)
unfolding count_of
count_of-put k j e m = rw (map_get-map_put TopSeriesKey-discrete k j e m, count_of) (ground arith)

entry_or_count :
    (k : TopSeriesKey) (m : List (TopSeriesKey × TopSeriesEntry)) (new : TopSeriesEntry)
    → new.count ≡ 0
    → (entry_or (map_get TopSeriesKey-discrete k m) new).count ≡ count_of k m
unfolding entry_or count_of
entry_or_count k m new h = ground arith

count_of-count_finding :
    (c : TopSeriesCollector) (f : Finding) (k : TopSeriesKey)
    → count_of k (count_finding c f.identity f.reason f.labels f.series).entries
      ≡ count_of k c.entries + ite (TopSeriesKey-discrete (key_of f) k) 1 0
unfolding count_finding
count_of-count_finding c f k =
    let new = new_entry c.projections f.identity f.reason f.labels f.series in
    let entry = entry_or (map_get TopSeriesKey-discrete (key_of f) c.entries) new in
    let before = entry_or_count (key_of f) c.entries new (unfold new_entry in refl) in
    count_of-put k (key_of f) (record entry { count = entry.count + 1 }) c.entries
    ∙ (elim (TopSeriesKey-discrete (key_of f) k) [
      | yes p ↦ ground (arith, before, ap (λ j. count_of j c.entries) p)
      | no n ↦ ground arith
    ])

in_window :
    (c : TopSeriesCollector) (now : ℤ)
    → ltb_ℤ (now -ℤ c.window_start) c.window ≡ true
    → reset_expired c now ≡ c
unfolding reset_expired
in_window c now h = rw h refl

later_in_window :
    (c : TopSeriesCollector) (f : Finding) (fs : List Finding)
    → WithinWindow c.window_start c.window fs
    → WithinWindow
        (count_finding c f.identity f.reason f.labels f.series).window_start
        (count_finding c f.identity f.reason f.labels f.series).window
        fs
unfolding count_finding
later_in_window c f fs w = w

module _ (arrange : List TopSeriesEntry → List TopSeriesEntry) where
  abbrev pub observe_one : TopSeriesCollector → Finding → TopSeriesCollector
  observe_one c f = observe arrange c f.now f.identity f.reason f.labels f.series

  unfoldable pub observe_all : TopSeriesCollector → List Finding → TopSeriesCollector
  observe_all c [] = c
  observe_all c (f ∷ fs) = observe_all (observe_one c f) fs

  observe_lem :
      (c : TopSeriesCollector) (f : Finding)
      → observe_one c f ≡ (
          if ltb ((counted c f).max_series * 50) (length (counted c f).entries)
          then prune arrange (counted c f)
          else counted c f)
  unfolding observe
  observe_lem c f = refl

  -- Within a window and with room for an entry for each finding, the count under a key is the number
  -- of findings with that key, added to the count before.
  pub observe_all-findings_with :
      (c : TopSeriesCollector) (fs : List Finding) (k : TopSeriesKey)
      → WithinWindow c.window_start c.window fs
      → length c.entries + length fs ≤ c.max_series * 50
      → count_of k (observe_all c fs).entries ≡ count_of k c.entries + findings_with k fs
  unfolding observe_all findings_with
  observe_all-findings_with c [] k w room = omega arith
  observe_all-findings_with c (f ∷ fs) k w room =
      let c' = count_finding c f.identity f.reason f.labels f.series in
      let (size, most) = count_finding_size c f in
      let fits : ltb (c'.max_series * 50) (length c'.entries) ≡ false =
        ground (arith, size, most) in
      let kept : observe_one c f ≡ c' =
        observe_lem c f ∙ rw (in_window c f.now w.0) (rw fits refl) in
      let rest =
        observe_all-findings_with c' fs k (later_in_window c f fs w.1)
          (omega (arith, size, most)) in
      subst
        (λ d.
          count_of k (observe_all d fs).entries
          ≡ count_of k c.entries
            + (ite (TopSeriesKey-discrete (key_of f) k) 1 0 + findings_with k fs))
        (sym kept) (omega (arith, rest, count_of-count_finding c f k))

  module _ (same_length : (l : List TopSeriesEntry) → length (arrange l) ≡ length l) where
    prune-length :
        (c : TopSeriesCollector)
        → (length (prune arrange c).entries ≤ max c.max_series (c.max_series * 25))
          × ((prune arrange c).max_series ≡ c.max_series)
    unfolding prune
    prune-length c = ground (
      arith,
      same_length (entry_values c.entries),
      length-entry_values c.entries,
      length-take (c.max_series * 25) (arrange (entry_values c.entries)),
      length-take c.max_series (arrange (entry_values c.entries)),
      length-put_entries (take (c.max_series * 25) (arrange (entry_values c.entries))) [],
      length-put_entries (take c.max_series (arrange (entry_values c.entries))) [],
    )

    -- Where the sort keeps the number of entries, and the collector holds no more at first: however
    -- many findings there are, it never holds more entries than fifty times the
    -- number of series it reports.
    pub observe_all_bounded :
        (c : TopSeriesCollector) (fs : List Finding)
        → length c.entries ≤ c.max_series * 50
        → length (observe_all c fs).entries ≤ c.max_series * 50
    unfolding observe_all
    observe_all_bounded c [] h = h
    observe_all_bounded c (f ∷ fs) h =
        let (size, most) = counted_size c f in
        let (fewer, same) = prune-length (counted c f) in
        let room : (length (observe_one c f).entries ≤ c.max_series * 50)
            × ((observe_one c f).max_series ≡ c.max_series) =
          rw (observe_lem c f) (ground (arith, size, most, fewer, same)) in
        ground (arith, room, observe_all_bounded (observe_one c f) fs)
