-- ===== src/Metrics/Valid.antt =====
-- The collectors of the program have metric names and label names of their own.
use remote_write_inspector.Prelude.{◌≡◌, refl, ◌∙◌, true, false, List, [], ◌∷◌, ◌++◌, arith}
use remote_write_inspector.Prelude.Bytes.{Bytes, codes, bytes_eq}
use remote_write_inspector.Identity.Fields.{Distinct, AllSupported}
use remote_write_inspector.Identity.{identity_definition, contains_string}
use remote_write_inspector.Config.Types.{TopSeriesLabel}
use remote_write_inspector.Config.Projections.{Accepted}
use remote_write_inspector.Config.{reserved_names}
use remote_write_inspector.Validate.{
  label_name_match, metric_name_match, name_match, name_rest, is_letter, is_digit,
}
use remote_write_inspector.Metrics.{
  append_labels, outputs, registered, top_series_label_names, new_metrics, capture_collectors,
}
use remote_write_inspector.Metrics.Labels.{append-Distinct, absent, one_more, top_series-Distinct}
use remote_write_inspector.Metrics.Registry.{
  ValidCollector, starts_with, some_reserved, label_names_match,
}
use remote_write_inspector.Metrics.Registered.{
  AllValid, any_reserved, label_names_match-append, some_reserved-append, supported_labels,
}

outputs-match :
    (reserved sources before : List Bytes) (ps : List TopSeriesLabel)
    → Accepted reserved sources before ps
    → label_names_match (outputs ps) ≡ true
unfolding label_names_match
outputs-match reserved sources before [] a = refl
outputs-match reserved sources before (p ∷ ps) ((_, match, _, _, _), a) =
    ground (arith, outputs-match reserved (p.source ∷ sources) (p.output ∷ before) ps a)

fixed_collector :
    (suffix : Bytes) (labels : List Bytes)
    → metric_name_match (registered suffix labels).name ≡ true
    → Distinct [] labels
    → label_names_match labels ≡ true
    → some_reserved labels ≡ false
    → ValidCollector (registered suffix labels)
fixed_collector suffix labels n d m f = record { name = n; distinct = d; labels = m; free = f }

module _ (names : List Bytes) (d : Distinct [] names) (s : AllSupported names) where
  -- A collector with the identity labels and others.
  with_labels :
      (suffix : Bytes) (extra : List Bytes)
      → metric_name_match (registered suffix (append_labels names extra)).name ≡ true
      → Distinct [] (append_labels names extra)
      → label_names_match extra ≡ true
      → some_reserved extra ≡ false
      → ValidCollector (registered suffix (append_labels names extra))
  unfolding append_labels
  with_labels suffix extra n e m f =
      let (a, b) = supported_labels names s in
      record {
        name = n;
        distinct = e;
        labels = ground (arith, label_names_match-append names extra);
        free = ground (arith, some_reserved-append names extra);
      }

  identities :
      (suffix : Bytes)
      → metric_name_match (registered suffix names).name ≡ true
      → ValidCollector (registered suffix names)
  identities suffix n =
      let (a, b) = supported_labels names s in fixed_collector suffix names n d a b

  two_more : Distinct [] (append_labels names (codes "sample_type" ∷ codes "reason" ∷ []))
  unfolding append_labels contains_string identity_definition bytes_eq
  two_more =
      append-Distinct [] names (codes "sample_type" ∷ codes "reason" ∷ []) d
        (absent names d s (codes "sample_type") refl, (absent names d s (codes "reason") refl, tt))

  top_series_match :
      (ps : List TopSeriesLabel)
      → Accepted (names ++ reserved_names) [] [] ps
      → (label_names_match (top_series_label_names names ps) ≡ true)
        × (some_reserved (top_series_label_names names ps) ≡ some_reserved (outputs ps))
  unfolding top_series_label_names append_labels label_names_match some_reserved label_name_match
      name_match name_rest is_letter is_digit starts_with
  top_series_match ps a =
      let (m, f) = supported_labels names s in
      let fixed : List Bytes =
        codes "reason"
        ∷ codes "series_name"
        ∷ codes "host_name"
        ∷ codes "series_fingerprint"
        ∷ [] in
      (
        ground (
          arith,
          label_names_match-append (names ++ fixed) (outputs ps),
          label_names_match-append names fixed,
          outputs-match (names ++ reserved_names) [] [] ps a,
        ),
        ground (
          arith,
          some_reserved-append (names ++ fixed) (outputs ps),
          some_reserved-append names fixed,
        ),
      )

  module _ (ps : List TopSeriesLabel) (a : Accepted (names ++ reserved_names) [] [] ps) where
    top_series_collector :
        some_reserved (outputs ps) ≡ false
        → ValidCollector (registered (codes "top_series") (top_series_label_names names ps))
    unfolding metric_name_match name_match name_rest is_letter is_digit
    top_series_collector free =
        let (m, f) = top_series_match ps a in
        fixed_collector (codes "top_series") (top_series_label_names names ps) refl
          (top_series-Distinct names d s ps a) m (f ∙ free)

    pub new_metrics-AllValid : some_reserved (outputs ps) ≡ false → AllValid (new_metrics names ps)
    unfolding new_metrics metric_name_match name_match name_rest is_letter is_digit
        label_names_match some_reserved label_name_match starts_with contains_string bytes_eq
        identity_definition
    new_metrics-AllValid free = (
      with_labels (codes "requests_total") (codes "result" ∷ []) refl
          (one_more names d s (codes "result") refl) refl refl,
      (
        identities (codes "samples_total") refl,
        (
          with_labels (codes "bad_series_total") (codes "reason" ∷ []) refl
              (one_more names d s (codes "reason") refl) refl refl,
          (
            with_labels (codes "bad_samples_total") (codes "reason" ∷ []) refl
                (one_more names d s (codes "reason") refl) refl refl,
            (
              fixed_collector (codes "decode_errors_total") (codes "reason" ∷ []) refl (refl, tt)
                  refl refl,
              (
                fixed_collector (codes "cache_entries") (codes "cache" ∷ []) refl (refl, tt) refl
                    refl,
                (
                  fixed_collector (codes "cache_capacity_entries") (codes "cache" ∷ []) refl
                      (refl, tt) refl refl,
                  (
                    fixed_collector (codes "cache_evictions_total") (codes "cache" ∷ []) refl
                        (refl, tt) refl refl,
                    (
                      fixed_collector (codes "cache_operations_total")
                          (codes "cache" ∷ codes "result" ∷ []) refl (refl, (refl, tt)) refl refl,
                      (
                        fixed_collector (codes "in_flight_requests") ([]) refl tt refl refl,
                        (
                          fixed_collector (codes "max_in_flight_requests") ([]) refl tt refl refl,
                          (
                            fixed_collector (codes "request_bytes") ([]) refl tt refl refl,
                            (
                              fixed_collector (codes "request_duration_seconds") ([]) refl tt refl
                                  refl,
                              (
                                fixed_collector (codes "decode_duration_seconds") ([]) refl tt refl
                                    refl,
                                (
                                  fixed_collector (codes "validation_duration_seconds") ([]) refl tt
                                      refl refl,
                                  (top_series_collector free, tt),
                                ),
                              ),
                            ),
                          ),
                        ),
                      ),
                    ),
                  ),
                ),
              ),
            ),
          ),
        ),
      ),
    )

    pub new_metrics-reserved :
        some_reserved (outputs ps) ≡ true → any_reserved (new_metrics names ps) ≡ true
    unfolding new_metrics any_reserved
    new_metrics-reserved taken = ground (arith, (top_series_match ps a).1)

  pub capture_collectors-AllValid : AllValid (capture_collectors names)
  unfolding capture_collectors metric_name_match name_match name_rest is_letter is_digit
      label_names_match some_reserved label_name_match starts_with identity_definition bytes_eq
  capture_collectors-AllValid = (
    with_labels (codes "capture_matched_samples_total") (codes "sample_type" ∷ []) refl
        (one_more names d s (codes "sample_type") refl) refl refl,
    (
      with_labels (codes "capture_captured_samples_total") (codes "sample_type" ∷ []) refl
          (one_more names d s (codes "sample_type") refl) refl refl,
      (
        with_labels (codes "capture_skipped_samples_total")
            (codes "sample_type" ∷ codes "reason" ∷ []) refl (two_more) refl refl,
        (
          identities (codes "capture_truncated_samples_total") refl,
          (fixed_collector (codes "capture_deadline_timestamp_seconds") ([]) refl tt refl refl, tt),
        ),
      ),
    ),
  )
