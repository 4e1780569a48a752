-- ===== src/Capture.antt =====
-- internal/inspector/capture.go: the bounded capture session. A matcher of the selector parser is a
-- label name with a test of values. The log handler is a parameter: whether it is enabled, and whether
-- it takes a record, as functions of the sample. The counters of one identity are a record.
use remote_write_inspector.Prelude.{
  ℕ, zero, suc, ◌+◌, Bool, true, false, ◌&&◌, ◌||◌, not, List, [], ◌∷◌, Option, none, some, ltb,
  if◌then◌else◌, length,
}
use remote_write_inspector.Prelude.Bytes.{Bytes, bytes_eq}
use remote_write_inspector.Prelude.Int.{ℤ, pos, ◌+ℤ◌, ◌-ℤ◌, ltb_ℤ}
use remote_write_inspector.Hash.Types.{Label}
use remote_write_inspector.Diagnostics.{bounded_log_labels}
pub mod Budget
pub mod Selector
pub mod Accounting

pub record CaptureConfig : Type 0 where
  pub duration : ℤ
  pub max_samples : ℤ
  pub rate : ℤ
  pub label_bytes : ℤ

-- `DefaultCaptureConfig`, its duration in nanoseconds.
abbrev pub default_capture_config : CaptureConfig
default_capture_config = record {
  duration = pos 300_000_000_000;
  max_samples = pos 1000;
  rate = pos 10;
  label_bytes = pos 4096;
}

pub record Matcher : Type 0 where
  pub name : Bytes
  pub accepts : Bytes → Bool

-- The mutable state of `sampleCapture`, with its limits. `attempts` and `window_count` start at 0 and
-- are only counted up or set to 0.
pub record SampleCapture : Type 0 where
  pub cfg : CaptureConfig
  pub matchers : List Matcher
  pub deadline : ℤ
  pub attempts : ℕ
  pub window_start : ℤ
  pub window_count : ℕ

pub data SkipReason : Type 0 where
  duration_limit sample_limit rate_limit log_disabled log_error : SkipReason

abbrev pub second : ℤ
second = pos 1_000_000_000

-- Some matcher does not accept the empty text.
unfoldable pub constrained : List Matcher → Bool
constrained [] = false
constrained (m ∷ ms) = not (m.accepts []) || constrained ms

-- The checks of `newSampleCapture` and its initial state; `none` is an error. The selector is parsed
-- already, and the counters are registered where the session is made, in Inspector/Start.antt.
unfoldable pub new_sample_capture : CaptureConfig → List Matcher → ℤ → Option SampleCapture
new_sample_capture cfg matchers now =
    if not (ltb_ℤ (pos 0) cfg.duration)
      || (not (ltb_ℤ (pos 0) cfg.max_samples)
          || (not (ltb_ℤ (pos 0) cfg.rate) || ltb_ℤ cfg.label_bytes (pos 2)))
    then none
    else if not (constrained matchers)
    then none
    else some (record {
      cfg = cfg;
      matchers = matchers;
      deadline = now +ℤ cfg.duration;
      attempts = 0;
      window_start = now;
      window_count = 0;
    })

-- The inner loop of `matches`: `none` where an occurrence is refused, else whether one was found.
unfoldable pub occurrences : Matcher → Bool → List Label → Option Bool
occurrences m found [] = some found
occurrences m found (l ∷ ls) =
    let on = occurrences m true ls in
    let past = occurrences m found ls in
    if bytes_eq l.name m.name then (if not (m.accepts l.value) then none else on) else past

unfoldable pub matches : List Matcher → List Label → Bool
matches [] ls = true
matches (m ∷ ms) ls = elim (occurrences m false ls) [
  | none ↦ false
  | some found ↦ if not found && not (m.accepts []) then false else matches ms ls
]

-- The window of one second that `reserve` counts in.
unfoldable pub roll_second : SampleCapture → ℤ → SampleCapture
roll_second c now =
    if not (ltb_ℤ (now -ℤ c.window_start) second)
    then record c { window_start = now; window_count = 0 }
    else c

-- `reserve`; `none` is the empty reason, a reservation.
unfoldable pub reserve : SampleCapture → ℤ → SampleCapture × Option SkipReason
reserve c now =
    if not (ltb_ℤ now c.deadline)
    then (c, some duration_limit)
    else if not (ltb_ℤ (pos c.attempts) c.cfg.max_samples)
    then (c, some sample_limit)
    else (let c' = roll_second c now in
        if not (ltb_ℤ (pos c'.window_count) c'.cfg.rate)
        then (c', some rate_limit)
        else (record c' { window_count = c'.window_count + 1; attempts = c'.attempts + 1 }, none))

-- The counters of `inspect` for one identity: skipped samples of each reason, `float` samples first.
pub record Counters : Type 0 where
  pub matched_float : ℕ
  pub matched_histogram : ℕ
  pub captured : ℕ
  pub skipped : SkipReason → ℕ
  pub skipped_unsupported : ℕ
  pub truncated : ℕ

unfoldable pub same_reason : SkipReason → SkipReason → Bool
same_reason duration_limit duration_limit = true
same_reason sample_limit sample_limit = true
same_reason rate_limit rate_limit = true
same_reason log_disabled log_disabled = true
same_reason log_error log_error = true
same_reason _ _ = false

-- `skipped` of a reason goes up by `n`.
unfoldable pub add_skipped : SkipReason → ℕ → Counters → Counters
add_skipped r n k = record k {
  skipped = λ q. if same_reason r q then k.skipped q + n else k.skipped q;
}

-- One sample: the time at which the loop reads the clock, whether the handler is enabled then, and
-- whether it takes the record without an error.
pub record Attempt : Type 0 where
  pub now : ℤ
  pub enabled : Bool
  pub handled : Bool

-- What becomes of a sample that has a reservation; `cut` says that its label array is truncated.
unfoldable pub log_attempt : Bool → Attempt → Counters → Counters
log_attempt cut a k =
    if not a.enabled
    then add_skipped log_disabled 1 k
    else if not a.handled
    then add_skipped log_error 1 k
    else record k {
      captured = k.captured + 1;
      truncated = if cut then k.truncated + 1 else k.truncated;
    }

-- The loop of `inspect` over the float samples.
unfoldable pub capture_samples :
    Bool → SampleCapture → Counters → List Attempt → SampleCapture × Counters
capture_samples cut c k [] = (c, k)
capture_samples cut c k (a ∷ rest) =
    let (c', reason) = reserve c a.now in
    elim reason [
      | some duration_limit ↦ (c', add_skipped duration_limit (length (a ∷ rest)) k)
      | some sample_limit ↦ (c', add_skipped sample_limit (length (a ∷ rest)) k)
      | some r ↦ capture_samples cut c' (add_skipped r 1 k) rest
      | none ↦ capture_samples cut c' (log_attempt cut a k) rest
    ]

-- `inspect` of one series with `histograms` histograms.
unfoldable pub inspect :
    (Label → Option Bytes)
    → SampleCapture
    → Counters
    → List Label
    → ℕ
    → List Attempt
    → SampleCapture × Counters
inspect encode c k labels histograms samples =
    if not (matches c.matchers labels)
    then (c, k)
    else (let k1 = record k {
      matched_histogram = k.matched_histogram + histograms;
      skipped_unsupported = k.skipped_unsupported + histograms;
    } in
        elim samples [
          | [] ↦ (c, k1)
          | a ∷ rest ↦
              capture_samples (bounded_log_labels encode c.cfg.label_bytes labels).1 c
                (record k1 { matched_float = k1.matched_float + length (a ∷ rest) }) (a ∷ rest)
        ])
