-- ===== src/Main/Defaults.antt =====
-- What the command line makes of the flags.
use remote_write_inspector.Prelude.{◌≡◌, refl, subst, Bool, false, [], inr, arith}
use remote_write_inspector.Prelude.Bytes.{Bytes, bytes_eq}
use remote_write_inspector.Config.{
  normalize, with_defaults, positive_or, normalize_top_series_labels, normalize_projections,
}
use remote_write_inspector.Main.{Options, default_options, set_flags, configured}

-- Without flags, the configuration is normalized as it is, where the default sample rate is in range: the
-- defaults that the flags have are those that `normalize` sets, and it accepts them.
pub configured-normalize :
    {F : Type 0} (out_of_range : F → Bool) (trim_space : Bytes → Bytes) (rate : F) (o : Options F)
    → out_of_range rate ≡ false
    → set_flags trim_space [] (default_options rate) ≡ inr o
    → normalize out_of_range (configured o) ≡ inr (configured o)
unfolding normalize configured with_defaults positive_or normalize_top_series_labels
    normalize_projections bytes_eq set_flags
configured-normalize out_of_range trim_space rate o h parsed =
    let same : default_options rate ≡ o = ground arith in
    subst (λ p. normalize out_of_range (configured p) ≡ inr (configured p)) same (rw h refl)
