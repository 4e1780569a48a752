-- ===== src/Config/Normal.antt =====
-- What `normalize` guarantees of a configuration, and how a memory budget becomes a cache size.
use remote_write_inspector.Prelude.{
  ℕ, zero, suc, ◌+◌, ◌*◌, ◌≤◌, ◌<◌, ◌≢◌, ◌≡◌, ◌⊎◌, inl, inr, Bool, true, false, List, [], ◌∷◌,
  arith, if◌then◌else◌, subst,
}
use remote_write_inspector.Prelude.Bytes.{Bytes, codes, bytes_eq}
use remote_write_inspector.Prelude.Int.{ℤ, pos, pos_part, ltb_ℤ}
use remote_write_inspector.Config.Types.{TopSeriesLabel, Config}
use remote_write_inspector.Config.Projections.{sum-cases, normalize_top_series_labels_again}
use remote_write_inspector.Config.{
  active_stateful_detectors, max_int, cache_size_from_memory_budget, normalize_top_series_labels,
  positive_or, with_defaults, normalize,
}

two_detectors : {F : Type 0} (c : Config F) → active_stateful_detectors c ≤ 2
unfolding active_stateful_detectors
two_detectors c = ground arith

-- For one or two caches of a 64-bit budget, the caches together stay within the budget at 160 bytes
-- for an entry, or hold one entry each; and one entry more in each would exceed it.
pub cache_size_from_memory_budget_bounds :
    (bytes : ℤ) (active : ℕ)
    → 0 < active
    → active ≤ 2
    → pos_part bytes ≤ max_int
    → let size = cache_size_from_memory_budget bytes active in
      (0 < size)
      × ((active * size * 160 ≤ pos_part bytes) ⊎ (size ≡ 1))
      × (pos_part bytes < active * (size + 1) * 160)
unfolding cache_size_from_memory_budget
cache_size_from_memory_budget_bounds bytes (suc zero) p q r = ground arith
cache_size_from_memory_budget_bounds bytes (suc (suc zero)) p q r = ground arith
cache_size_from_memory_budget_bounds bytes _ p q r = absurd (omega arith)

positive_or_lem : (d : ℕ) (n : ℤ) → 0 < d → ltb_ℤ (pos 0) (positive_or (pos d) n) ≡ true
unfolding positive_or
positive_or_lem d n h = ground arith

-- The number is greater than 0.
abbrev pub Positive : ℤ → Type 0
Positive n = ltb_ℤ (pos 0) n ≡ true

module _ {F : Type 0} (rate_out_of_range : F → Bool) where
  -- What the code after `normalize` relies on.
  pub record Normal (c : Config F) : Type 0 where
    pub listen_address : c.listen_address ≢ []
    pub max_body_bytes : Positive c.max_body_bytes
    pub max_in_flight_requests : Positive c.max_in_flight_requests
    pub max_identity_length : Positive c.max_identity_length
    pub stale_cutoff : Positive c.stale_cutoff
    pub future_skew : Positive c.future_skew
    pub max_labels : Positive c.max_labels
    pub max_label_value_length : Positive c.max_label_value_length
    pub cache_size : Positive c.cache_size ⊎ (active_stateful_detectors c ≡ 0)
    pub cache_ttl : Positive c.cache_ttl
    pub top_series_size : Positive c.top_series_size
    pub top_series_window : Positive c.top_series_window
    pub top_series_labels :
        normalize_top_series_labels c.identity_names c.top_series_labels ≡ inr c.top_series_labels
    pub log_sample_rate : rate_out_of_range c.log_sample_rate ≡ false
    pub log_first_examples : ltb_ℤ c.log_first_examples_per_window (pos 0) ≡ false
    pub log_label_bytes : Positive c.log_label_bytes
    pub diagnostic_metric_prefixes : c.diagnostic_metric_prefixes ≢ []

  some_address : (a : Bytes) → (if bytes_eq a [] then codes ":8080" else a) ≢ []
  some_address [] e = absurd (unfold bytes_eq in ground arith)
  some_address (x ∷ a) e = absurd (unfold bytes_eq in ground arith)

  some_prefix :
      (ps : List Bytes)
      → (elim ps [
        | [] ↦ codes "remote_write_inspector_" ∷ codes "obspipeline_" ∷ []
        | p ∷ qs ↦ p ∷ qs
      ])
        ≢ []
  some_prefix [] e = absurd (ground arith)
  some_prefix (p ∷ ps) e = absurd (ground arith)

  some_room :
      (c : Config F)
      → Positive (with_defaults c).cache_size ⊎ (active_stateful_detectors (with_defaults c) ≡ 0)
  unfolding with_defaults cache_size_from_memory_budget active_stateful_detectors positive_or
  some_room c = ground arith

  normalize_cases :
      (c c' : Config F)
      → normalize rate_out_of_range c ≡ inr c'
      → (ps : List TopSeriesLabel) × (normalize_top_series_labels c.identity_names
            c.top_series_labels
          ≡ inr ps)
        × (rate_out_of_range c.log_sample_rate ≡ false)
        × (ltb_ℤ c.log_first_examples_per_window (pos 0) ≡ false)
        × (record (with_defaults c) { top_series_labels = ps } ≡ c')
  unfolding normalize
  normalize_cases c c' h =
      elim (sum-cases (normalize_top_series_labels c.identity_names c.top_series_labels)) [
        | inl (e, bad) ↦ absurd (ground arith)
        | inr (ps, good) ↦ (ps, good, ground arith, ground arith, ground arith)
      ]

  -- A configuration that `normalize` returns has a listen address, positive limits, times and sizes
  -- (the cache size where a detector with a cache is active), accepted projections, a log sample rate
  -- in range, a number of first examples that is not negative, and a diagnostic prefix.
  pub normalize-Normal : (c c' : Config F) → normalize rate_out_of_range c ≡ inr c' → Normal c'
  normalize-Normal c c' h =
      let (ps, accepted, rate, examples, same) = normalize_cases c c' h in
      let d = with_defaults c in
      subst Normal same (
        unfold with_defaults active_stateful_detectors in
        record {
          listen_address = some_address c.listen_address;
          max_body_bytes = positive_or_lem _ c.max_body_bytes (omega arith);
          max_in_flight_requests = positive_or_lem _ c.max_in_flight_requests (omega arith);
          max_identity_length = positive_or_lem _ c.max_identity_length (omega arith);
          stale_cutoff = positive_or_lem _ c.stale_cutoff (omega arith);
          future_skew = positive_or_lem _ c.future_skew (omega arith);
          max_labels = positive_or_lem _ c.max_labels (omega arith);
          max_label_value_length = positive_or_lem _ c.max_label_value_length (omega arith);
          cache_size = some_room c;
          cache_ttl = positive_or_lem _ c.cache_ttl (omega arith);
          top_series_size = positive_or_lem _ c.top_series_size (omega arith);
          top_series_window = positive_or_lem _ c.top_series_window (omega arith);
          top_series_labels =
              normalize_top_series_labels_again c.identity_names c.top_series_labels ps accepted;
          log_sample_rate = rate;
          log_first_examples = examples;
          log_label_bytes = positive_or_lem _ c.log_label_bytes (omega arith);
          diagnostic_metric_prefixes = some_prefix c.diagnostic_metric_prefixes;
        })
