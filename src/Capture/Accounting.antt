-- ===== src/Capture/Accounting.antt =====
-- The counters of a capture session account for every matched sample.
use remote_write_inspector.Prelude.{
  ℕ, suc, ◌+◌, ◌≤◌, ◌≡◌, refl, Bool, List, [], ◌∷◌, Option, arith, length, Bool-cases, inl, inr,
}
use remote_write_inspector.Prelude.Bytes.{Bytes}
use remote_write_inspector.Hash.Types.{Label}
use remote_write_inspector.Diagnostics.{bounded_log_labels}
use remote_write_inspector.Capture.{
  SampleCapture, SkipReason, duration_limit, sample_limit, rate_limit, log_disabled, log_error,
  Counters, Attempt, same_reason, add_skipped, log_attempt, capture_samples, reserve, inspect,
  matches,
}

abbrev pub skipped_total : Counters → ℕ
skipped_total k =
    k.skipped duration_limit
    + k.skipped sample_limit
    + k.skipped rate_limit
    + k.skipped log_disabled
    + k.skipped log_error

add_skipped_total :
    (r : SkipReason) (n : ℕ) (k : Counters)
    → skipped_total (add_skipped r n k) ≡ skipped_total k + n
unfolding add_skipped same_reason
add_skipped_total duration_limit n k = omega arith
add_skipped_total sample_limit n k = omega arith
add_skipped_total rate_limit n k = omega arith
add_skipped_total log_disabled n k = omega arith
add_skipped_total log_error n k = omega arith

-- From `k` to `k'`, `n` float samples were captured or skipped and nothing else was counted, but for
-- the truncated ones among those captured.
pub record Accounted (n : ℕ) (k k' : Counters) : Type 0 where
  pub outcome : k'.captured + skipped_total k' ≡ k.captured + skipped_total k + n
  pub matched_float : k'.matched_float ≡ k.matched_float
  pub matched_histogram : k'.matched_histogram ≡ k.matched_histogram
  pub unsupported : k'.skipped_unsupported ≡ k.skipped_unsupported
  pub truncated : k'.truncated + k.captured ≤ k.truncated + k'.captured

add_skipped-Accounted : (r : SkipReason) (n : ℕ) (k : Counters) → Accounted n k (add_skipped r n k)
unfolding add_skipped
add_skipped-Accounted r n k = record {
  outcome = omega (arith, add_skipped_total r n k);
  matched_float = refl;
  matched_histogram = refl;
  unsupported = refl;
  truncated = omega arith;
}

log_attempt-Accounted :
    (cut : Bool) (a : Attempt) (k : Counters) → Accounted 1 k (log_attempt cut a k)
unfolding log_attempt
log_attempt-Accounted cut a k =
    ground (arith, add_skipped-Accounted log_disabled 1 k, add_skipped-Accounted log_error 1 k)

then_Accounted :
    (n : ℕ) {k k1 k2 : Counters} → Accounted 1 k k1 → Accounted n k1 k2 → Accounted (suc n) k k2
then_Accounted n a b = record {
  outcome = omega (arith, a.outcome, b.outcome);
  matched_float = omega (arith, a.matched_float, b.matched_float);
  matched_histogram = omega (arith, a.matched_histogram, b.matched_histogram);
  unsupported = omega (arith, a.unsupported, b.unsupported);
  truncated = omega (arith, a.truncated, b.truncated);
}

capture_samples-Accounted :
    (cut : Bool) (c : SampleCapture) (k : Counters) (samples : List Attempt)
    → Accounted (length samples) k (capture_samples cut c k samples).1
unfolding capture_samples
capture_samples-Accounted cut c k [] = record {
  outcome = omega arith;
  matched_float = refl;
  matched_histogram = refl;
  unsupported = refl;
  truncated = omega arith;
}
capture_samples-Accounted cut c k (a ∷ rest) =
    let c' = (reserve c a.now).0 in
    let skip = λ (r : SkipReason).
      then_Accounted (length rest) (add_skipped-Accounted r 1 k)
        (capture_samples-Accounted cut c' (add_skipped r 1 k) rest) in
    ground (
      arith,
      add_skipped-Accounted duration_limit (length (a ∷ rest)) k,
      add_skipped-Accounted sample_limit (length (a ∷ rest)) k,
      skip rate_limit,
      skip log_disabled,
      skip log_error,
      then_Accounted (length rest) (log_attempt-Accounted cut a k)
          (capture_samples-Accounted cut c' (log_attempt cut a k) rest),
    )

-- Every matched float sample is captured or skipped for one reason, every matched histogram is
-- skipped as unsupported, and no more samples are truncated than captured.
pub record Balanced (k : Counters) : Type 0 where
  pub floats : k.matched_float ≡ k.captured + skipped_total k
  pub histograms : k.matched_histogram ≡ k.skipped_unsupported
  pub cuts : k.truncated ≤ k.captured

-- `inspect` keeps balanced counters balanced, whatever the budgets and the log handler do: no matched
-- sample goes uncounted and none is counted twice.
pub inspect-Balanced :
    (encode : Label → Option Bytes) (c : SampleCapture) (k : Counters) (labels : List Label)
    (histograms : ℕ) (samples : List Attempt)
    → Balanced k
    → Balanced (inspect encode c k labels histograms samples).1
unfolding inspect
inspect-Balanced encode c k labels histograms [] b = ground arith
inspect-Balanced encode c k labels histograms (a ∷ rest) b =
    let k1 : Counters = record k {
      matched_float = k.matched_float + length (a ∷ rest);
      matched_histogram = k.matched_histogram + histograms;
      skipped_unsupported = k.skipped_unsupported + histograms;
    } in
    let cut = (bounded_log_labels encode c.cfg.label_bytes labels).1 in
    let r = capture_samples-Accounted cut c k1 (a ∷ rest) in
    let after : Balanced (capture_samples cut c k1 (a ∷ rest)).1 = record {
      floats = omega (arith, r.outcome, r.matched_float, b.floats);
      histograms = omega (arith, r.matched_histogram, r.unsupported, b.histograms);
      cuts = omega (arith, r.truncated, b.cuts);
    } in
    elim (Bool-cases (matches c.matchers labels)) [
      | inl selected ↦ rw selected after
      | inr other ↦ rw other b
    ]
