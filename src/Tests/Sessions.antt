-- ===== src/Tests/Sessions.antt =====
-- Findings, log records and capture sessions at concrete inputs.
use remote_write_inspector.Prelude.{
  ℕ, ◌+◌, ◌≡◌, refl, List, [], ◌∷◌, Option, some, arith, true, false,
}
use remote_write_inspector.Prelude.Bytes.{Bytes, codes, bytes_eq}
use remote_write_inspector.Prelude.Int.{ℤ, pos, ◌≤ℤ◌, ◌-ℤ◌}
use remote_write_inspector.Hash.Types.{Label}
use remote_write_inspector.Validate.Reasons.{stale_sample}
use remote_write_inspector.Diagnostics.{FindingLogKey, FindingLogSampler, bounded_log_labels}
use remote_write_inspector.Diagnostics.Sampling.{run_log, Logged, InWindow, run_log-Logged}
use remote_write_inspector.Diagnostics.Bounded.{Bounded, bounded_log_labels-Bounded}
use remote_write_inspector.Capture.{
  CaptureConfig, Matcher, SampleCapture, duration_limit, reserve, inspect, Counters, Attempt,
}
use remote_write_inspector.Capture.Budget.{
  InBudget, InSecond, reserve_all, reserve_all-le-max_samples, reserve_all-le-rate,
}
use remote_write_inspector.Capture.Accounting.{Balanced, inspect-Balanced}

abbrev finding : ℕ → FindingLogKey
finding h = record {
  identity_values = codes "t";
  kind = codes "bad_sample";
  reason = stale_sample;
  series_hash = h;
}

-- One finding for ten nanoseconds.
abbrev sampler : FindingLogSampler
sampler = record { window = pos 10; first_limit = pos 1; window_start = pos 0; seen = [] }

abbrev findings : List (ℤ × FindingLogKey)
findings = (pos 1, finding 5) ∷ (pos 2, finding 5) ∷ (pos 3, finding 6) ∷ []

findings-InWindow : InWindow (pos 0) (pos 10) findings
unfolding ◌-ℤ◌
findings-InWindow = (refl, (refl, (refl, tt)))

run_log-Logged_example :
    Logged sampler (run_log sampler findings).0 findings (run_log sampler findings).1
run_log-Logged_example = run_log-Logged sampler findings findings-InWindow

abbrev name_only : Label → Option Bytes
name_only l = some l.name

abbrev two_labels : List Label
two_labels =
    record { name = codes "__name__"; value = codes "up" }
    ∷ record { name = codes "job"; value = codes "a" }
    ∷ []

bounded_log_labels-Bounded_example :
    Bounded name_only
      (pos 11)
      2
      false
      two_labels
      (bounded_log_labels name_only (pos 11) two_labels).0
      (bounded_log_labels name_only (pos 11) two_labels).1
bounded_log_labels-Bounded_example = bounded_log_labels-Bounded name_only (pos 11) two_labels

abbrev limits : CaptureConfig
limits = record { duration = pos 100; max_samples = pos 2; rate = pos 1; label_bytes = pos 11 }

abbrev up_only : Matcher
up_only = record { name = codes "__name__"; accepts = λ v. bytes_eq v (codes "up") }

-- A session that is open until the time 100 and has granted nothing.
abbrev session : SampleCapture
session = record {
  cfg = limits;
  matchers = up_only ∷ [];
  deadline = pos 100;
  attempts = 0;
  window_start = pos 0;
  window_count = 0;
}

session-InBudget : InBudget session
session-InBudget = record { total = omega arith; rate = omega arith }

abbrev times : List ℤ
times = pos 1 ∷ pos 2 ∷ []

times-InSecond : InSecond (pos 0) times
unfolding ◌-ℤ◌
times-InSecond = (refl, (refl, tt))

reserve_all-le-max_samples_example :
    InBudget (reserve_all session times).0
    × ((reserve_all session times).0.attempts ≡ 0 + (reserve_all session times).1)
    × (pos (0 + (reserve_all session times).1) ≤ℤ pos 2)
reserve_all-le-max_samples_example = reserve_all-le-max_samples session times session-InBudget

reserve_all-le-rate_example : pos (0 + (reserve_all session times).1) ≤ℤ pos 1
reserve_all-le-rate_example = reserve_all-le-rate session times session-InBudget times-InSecond

over_at_100 : (reserve session (pos 100)).1 ≡ some duration_limit
unfolding reserve
over_at_100 = refl

abbrev no_counts : Counters
no_counts = record {
  matched_float = 0;
  matched_histogram = 0;
  captured = 0;
  skipped = λ r. 0;
  skipped_unsupported = 0;
  truncated = 0;
}

no_counts-Balanced : Balanced no_counts
no_counts-Balanced = record { floats = refl; histograms = refl; cuts = omega arith }

abbrev attempts : List Attempt
attempts =
    record { now = pos 1; enabled = true; handled = true }
    ∷ record { now = pos 2; enabled = true; handled = false }
    ∷ []

inspect-Balanced_example : Balanced (inspect name_only session no_counts two_labels 1 attempts).1
inspect-Balanced_example =
    inspect-Balanced name_only session no_counts two_labels 1 attempts no_counts-Balanced
