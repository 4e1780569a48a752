-- ===== src/Loadgen/Accepted.antt =====
-- Which configurations the load generator accepts.
use remote_write_inspector.Prelude.{
  ◌≡◌, ◌≢◌, refl, Bool, true, false, [], Option, none, some, ◌↔◌, ◌⊎◌, arith, ap, sym, ◌∙◌,
}
use remote_write_inspector.Prelude.Bytes.{Bytes, codes, bytes_eq_iff}
use remote_write_inspector.Prelude.Int.{ℤ, pos, ltb_ℤ}
use remote_write_inspector.Loadgen.{
  LoadConfig, Url, ValidateError, check, validate_numbers, validate_ratios, validate_parsed,
  validate,
}

-- An http or https URL with a host.
abbrev pub GoodUrl : Url → Type 0
GoodUrl url = ((url.scheme ≡ codes "http") ⊎ (url.scheme ≡ codes "https")) × (url.host ≢ [])

-- A positive and a non-negative integer.
abbrev pub Positive : ℤ → Type 0
Positive n = ltb_ℤ (pos 0) n ≡ true

abbrev pub NonNegative : ℤ → Type 0
NonNegative n = ltb_ℤ n (pos 0) ≡ false

pub record Numbers {F : Type 0} (cfg : LoadConfig F) : Type 0 where
  pub duration : NonNegative cfg.duration
  pub workers : Positive cfg.workers
  pub rate : NonNegative cfg.rate
  pub timeout : Positive cfg.timeout
  pub series_per_request : Positive cfg.series_per_request
  pub samples_per_series : Positive cfg.samples_per_series
  pub active_series : Positive cfg.active_series
  pub tenant_count : Positive cfg.tenant_count
  pub sink_count : Positive cfg.sink_count
  pub path_count : Positive cfg.path_count
  pub writer_count : Positive cfg.writer_count

pub record Ratios {F : Type 0} (out? : F → Bool) (exceed? : F → F → Bool) (cfg : LoadConfig F)
    : Type 0 where
  pub stale : out? cfg.stale_ratio ≡ false
  pub future : out? cfg.future_ratio ≡ false
  pub invalid_series : out? cfg.invalid_series_ratio ≡ false
  pub conflict : out? cfg.conflict_ratio ≡ false
  pub together : exceed? cfg.stale_ratio cfg.future_ratio ≡ false
  pub progress_interval : NonNegative cfg.progress_interval

check_iff :
    (bad : Bool) (e : ValidateError) (rest : Option ValidateError)
    → (check bad e rest ≡ none) ↔ ((bad ≡ false) × (rest ≡ none))
unfolding check
check_iff bad e rest = ground arith

module _ {F : Type 0} (out? : F → Bool) (exceed? : F → F → Bool) (cfg : LoadConfig F) where
  validate_numbers_iff : (validate_numbers out? exceed? cfg ≡ none) ↔ Numbers cfg
  unfolding validate_numbers check
  validate_numbers_iff = ground (arith)

  validate_ratios_iff : (validate_ratios out? exceed? cfg ≡ none) ↔ Ratios out? exceed? cfg
  unfolding validate_ratios check
  validate_ratios_iff = ground arith

  validate_parsed_iff :
      (url : Url)
      → (validate_parsed out? exceed? (some url) cfg ≡ none)
        ↔ (GoodUrl url × Numbers cfg × Ratios out? exceed? cfg)
  unfolding validate_parsed
  validate_parsed_iff url = ground (
    arith,
    bytes_eq_iff url.scheme (codes "http"),
    bytes_eq_iff url.scheme (codes "https"),
    bytes_eq_iff url.host [],
    validate_numbers_iff,
    validate_ratios_iff,
  )

  validate_parsed-some :
      (url : Option Url) → validate_parsed out? exceed? url cfg ≡ none → (u : Url) × (url ≡ some u)
  unfolding validate_parsed
  validate_parsed-some none h = ground arith
  validate_parsed-some (some u) h = (u, refl)

  -- A configuration is accepted exactly when its URL is parsed as an http or https URL with a host, its
  -- times and its rate are not negative, its timeout and its counts are positive, and its ratios are in
  -- range, those of stale and future samples also together.
  pub validate_iff :
      (url_of : Bytes → Option Url)
      → (validate out? exceed? url_of cfg ≡ none) ↔ (
          ((url : Url) × (url_of cfg.target_url ≡ some url) × GoodUrl url)
          × Numbers cfg
          × Ratios out? exceed? cfg)
  unfolding validate
  validate_iff url_of = (
    (λ h.
        let (url, parsed) = validate_parsed-some (url_of cfg.target_url) h in
        let (good, numbers, ratios) =
          (validate_parsed_iff url).0
            (ap (λ u. validate_parsed out? exceed? u cfg) (sym parsed) ∙ h) in
        ((url, parsed, good), numbers, ratios)),
    λ ((url, parsed, good), numbers, ratios).
        ap (λ u. validate_parsed out? exceed? u cfg) parsed
        ∙ (validate_parsed_iff url).1 (good, numbers, ratios),
  )
