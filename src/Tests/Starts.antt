-- ===== src/Tests/Starts.antt =====
-- The metrics and the command line at concrete inputs.
use remote_write_inspector.Main.{Options, default_options, set_flags}
use remote_write_inspector.Prelude.{ℕ, Bool, ltb, ◌≡◌, refl, inr, List, [], ◌∷◌}
use remote_write_inspector.Prelude.Bytes.{Bytes, codes, bytes_eq}
use remote_write_inspector.Prelude.Int.{pos}
use remote_write_inspector.Identity.Types.{IdentitySet, ok}
use remote_write_inspector.Identity.Fields.{Distinct}
use remote_write_inspector.Identity.{
  new_identity_set, collect_definitions, identity_definition, contains_string,
}
use remote_write_inspector.Config.Types.{TopSeriesLabel}
use remote_write_inspector.Config.{
  normalize_top_series_labels, normalize_projections, check_projection, default_output,
}
use remote_write_inspector.Validate.{label_name_match, name_match, name_rest, is_letter, is_digit}
use remote_write_inspector.Metrics.{new_metrics}
use remote_write_inspector.Metrics.Labels.{DistinctLabels, names_of, new_metrics-Distinct}

abbrev one_name : List Bytes
one_name = codes "tenant" ∷ []

abbrev tenant_headers : List Bytes
tenant_headers =
    codes "X-Scope-OrgID" ∷ codes "X-Remote-Write-Inspector-Tenant" ∷ codes "X-RWI-Tenant" ∷ []

abbrev tenant_only : IdentitySet
tenant_only = record {
  defs = record { name = codes "tenant"; headers = tenant_headers } ∷ [];
  max_identity_length = pos 128;
}

tenant_accepted : new_identity_set one_name (pos 128) ≡ ok tenant_only
unfolding new_identity_set collect_definitions identity_definition contains_string bytes_eq
tenant_accepted = refl

abbrev job_label : List TopSeriesLabel
job_label = record { source = codes "job"; output = codes "source_job" } ∷ []

job_accepted : normalize_top_series_labels one_name job_label ≡ inr job_label
unfolding normalize_top_series_labels normalize_projections check_projection default_output
    contains_string bytes_eq label_name_match name_match name_rest is_letter is_digit
job_accepted = refl

new_metrics-Distinct_example :
    Distinct [] (names_of (new_metrics one_name job_label))
    × DistinctLabels (new_metrics one_name job_label)
new_metrics-Distinct_example =
    new_metrics-Distinct one_name (pos 128) tenant_only job_label job_label tenant_accepted
      job_accepted

abbrev in_percent : ℕ → Bool
in_percent n = ltb 100 n

abbrev as_it_is : Bytes → Bytes
as_it_is s = s

abbrev defaults : Options ℕ
defaults = default_options 1

no_flags : set_flags as_it_is [] defaults ≡ inr defaults
unfolding set_flags
no_flags = refl
