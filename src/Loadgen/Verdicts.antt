-- ===== src/Loadgen/Verdicts.antt =====
-- What the inspector's detectors say of the samples and the labels that the load generator sends.
use remote_write_inspector.Prelude.{
  ℕ, zero, suc, ◌+◌, ◌*◌, ◌/◌, ◌%◌, ◌^◌, ◌≤◌, ◌<◌, ◌≡◌, refl, Bool, true, false, ◌&&◌, not, [], ◌∷◌,
  length, arith, ap, if◌then◌else◌,
}
use remote_write_inspector.Prelude.Bytes.{Bytes, bytes_eq, bytes_lt}
use remote_write_inspector.Prelude.Int.{ℤ, pos, pos_part, ◌+ℤ◌, ◌-ℤ◌}
use remote_write_inspector.Config.Types.{Config}
use remote_write_inspector.Inspector.{milliseconds, is_stale, is_future}
use remote_write_inspector.Validate.Reasons.{
  add_reason, add_reason_if, has_reason, invalid_metric_name,
}
use remote_write_inspector.Validate.{
  is_letter, is_digit, name_rest, name_match, metric_name_match, label_name_match, scan_labels,
  scan_label, scan_named, scan_metric_value, scan_order, validate_series,
}
use remote_write_inspector.Loadgen.{LoadConfig}
use remote_write_inspector.Loadgen.Requests.{
  itoa, itoa_digits, SampleDraw, generated_sample, sample_time, metric_name, generated_labels,
}

-- With the default limits of the inspector, for a request that it inspects less than a minute after it
-- was generated, and with fewer than 22 hours' milliseconds of samples in a series, a sample is found
-- stale, or in the future, exactly when it was drawn so and was not drawn as a conflict.
pub generated_sample-is_stale :
    {F G : Type 0} (load : LoadConfig F) (cfg : Config G) (deterministic_value : ℕ → ℤ → ℕ → ℕ)
    (now_ms received_ms id sample_idx : ℕ) (draw : SampleDraw)
    → cfg.stale_cutoff ≡ pos 82_800_000_000_000
    → cfg.future_skew ≡ pos 600_000_000_000
    → now_ms ≤ received_ms
    → received_ms < now_ms + 60_000
    → sample_idx < pos_part load.samples_per_series
    → pos_part load.samples_per_series < 22 * 3_600_000
    → let ts = (generated_sample load deterministic_value now_ms id sample_idx draw).timestamp in
      (is_stale cfg ts (pos received_ms) ≡ (not draw.conflict && draw.stale))
      × (is_future cfg ts (pos received_ms)
          ≡ (not draw.conflict && (not draw.stale && draw.future)))
unfolding is_stale is_future generated_sample sample_time milliseconds ◌+ℤ◌ ◌-ℤ◌
generated_sample-is_stale load cfg value now_ms received_ms id sample_idx draw cutoff skew sent soon
      idx few =
    let old : milliseconds cfg.stale_cutoff ≡ pos 82_800_000 = ap milliseconds cutoff in
    let ahead : milliseconds cfg.future_skew ≡ pos 600_000 = ap milliseconds skew in ground arith

-- The least number with more digits than `k + 1`.
abbrev power_of_ten : ℕ → ℕ
power_of_ten zero = 10
power_of_ten (suc k) = 10 * power_of_ten k

itoa_digits-short :
    (fuel k n : ℕ) (out : Bytes)
    → n < power_of_ten k
    → length (itoa_digits fuel n out) ≤ length out + k + 1
unfolding itoa_digits
itoa_digits-short zero k n out h = omega arith
itoa_digits-short (suc fuel) zero n out h = ground arith
itoa_digits-short (suc fuel) (suc k) n out h =
    ground (arith, itoa_digits-short fuel k (n / 10) ((b'0' + n % 10) ∷ out) (omega arith))

pub itoa-short : (n : ℕ) → n < 2 ^ 63 → length (itoa n) ≤ 19
unfolding itoa
itoa-short n h = itoa_digits-short (n + 1) 18 n [] (omega arith)

itoa_digits-name_rest :
    (fuel n : ℕ) (out : Bytes)
    → name_rest true out ≡ true
    → name_rest true (itoa_digits fuel n out) ≡ true
unfolding itoa_digits name_rest is_digit
itoa_digits-name_rest zero n out h = h
itoa_digits-name_rest (suc fuel) n out h =
    ground (arith, itoa_digits-name_rest fuel (n / 10) ((b'0' + n % 10) ∷ out))

itoa-name_rest : (n : ℕ) → name_rest true (itoa n) ≡ true
unfolding itoa name_rest
itoa-name_rest n = itoa_digits-name_rest (n + 1) n [] refl

itoa_digits-long : (fuel n : ℕ) (out : Bytes) → length out ≤ length (itoa_digits fuel n out)
unfolding itoa_digits
itoa_digits-long zero n out = omega arith
itoa_digits-long (suc fuel) n out =
    ground (arith, itoa_digits-long fuel (n / 10) ((b'0' + n % 10) ∷ out))

itoa_digits-nonempty : (fuel n : ℕ) → 0 < fuel → 0 < length (itoa_digits fuel n [])
unfolding itoa_digits
itoa_digits-nonempty zero n h = absurd (omega arith)
itoa_digits-nonempty (suc fuel) n h =
    ground (arith, itoa_digits-long fuel (n / 10) ((b'0' + n % 10) ∷ []))

itoa-nonempty : (n : ℕ) → 0 < length (itoa n)
unfolding itoa
itoa-nonempty n = itoa_digits-nonempty (n + 1) n (omega arith)

bytes_eq-nonempty : (s : Bytes) → 0 < length s → bytes_eq s [] ≡ false
unfolding bytes_eq
bytes_eq-nonempty [] h = absurd (omega arith)
bytes_eq-nonempty (c ∷ s) h = refl

-- The metric name is right exactly where it is not drawn as an invalid one.
metric_name-match :
    (invalid : Bool) (id : ℕ) → metric_name_match (metric_name invalid id) ≡ not invalid
unfolding metric_name_match metric_name name_match name_rest is_letter is_digit
metric_name-match true id = refl
metric_name-match false id = itoa-name_rest (id % 128)

-- A value of at most 40 bytes is no excessive value.
metric_name-short : (invalid : Bool) (id : ℕ) → id < 2 ^ 63 → length (metric_name invalid id) ≤ 40
unfolding metric_name
metric_name-short true id h = omega (arith, itoa-short id h)
metric_name-short false id h = omega (arith, itoa-short (id % 128) (omega arith))

metric_name-nonempty : (invalid : Bool) (id : ℕ) → bytes_eq (metric_name invalid id) [] ≡ false
unfolding metric_name bytes_eq
metric_name-nonempty true id = refl
metric_name-nonempty false id = refl

-- Where the inspector allows four labels and values of 40 bytes, which the defaults do, the labels of a
-- generated series are found without fault, except for the metric name of a series that is drawn as an
-- invalid one.
pub generated_labels-validate_series :
    (max_labels max_length : ℕ) (invalid : Bool) (id : ℕ)
    → 4 ≤ max_labels
    → 40 ≤ max_length
    → id < 2 ^ 63
    → validate_series (pos max_labels) (pos max_length) (generated_labels invalid id)
      ≡ (if invalid then invalid_metric_name ∷ [] else [])
unfolding validate_series generated_labels scan_labels scan_label scan_named scan_order
    scan_metric_value label_name_match name_match name_rest is_letter is_digit bytes_eq bytes_lt
    add_reason_if add_reason has_reason
generated_labels-validate_series max_labels max_length invalid id few short small = ground (
  arith,
  metric_name-match invalid id,
  metric_name-short invalid id small,
  metric_name-nonempty invalid id,
  itoa-short id small,
  bytes_eq-nonempty (itoa id) (itoa-nonempty id),
)
