-- ===== src/Loadgen/Report.antt =====
-- cmd/rwi-loadgen/main.go: the snapshot of the statistics, and what is printed of it. `%.1f` of a float,
-- the text of a duration, and its rounding are the libraries'.
use remote_write_inspector.Prelude.{
  ℕ, zero, suc, ◌+◌, ◌-◌, ◌/◌, ◌^◌, List, [], ◌∷◌, ◌++◌, if◌then◌else◌, ltb, drop, ◌==◌,
}
use remote_write_inspector.Prelude.Bytes.{Bytes, codes}
use remote_write_inspector.Prelude.Int.{ℤ, pos, negsuc, ltb_ℤ}
use remote_write_inspector.Loadgen.Stats.{LoadStats}
use remote_write_inspector.Loadgen.Requests.{itoa}
use remote_write_inspector.Loadgen.Pacer.{Floats}

-- The counters at one time.
pub record Snapshot : Type 0 where
  pub requests : ℕ
  pub successes : ℕ
  pub transport_errors : ℕ
  pub marshal_errors : ℕ
  pub series : ℕ
  pub samples : ℕ
  pub body_bytes : ℕ
  pub decoded_bytes : ℕ
  pub latency_ns : ℕ
  pub status_codes : List ℕ
  pub latency_counts : List ℕ

-- `loadStats.snapshot` and `latencyHistogram.snapshot`, while no worker counts.
unfoldable pub snapshot_of : LoadStats → Snapshot
snapshot_of s = record {
  requests = s.requests;
  successes = s.successes;
  transport_errors = s.transport_errors;
  marshal_errors = s.marshal_errors;
  series = s.series;
  samples = s.samples;
  body_bytes = s.body_bytes;
  decoded_bytes = s.decoded_bytes;
  latency_ns = s.latency_ns;
  status_codes = s.status_codes;
  latency_counts = s.latency_counts;
}

-- `strings.Join(parts, ",")`.
unfoldable pub join_commas : List Bytes → Bytes
join_commas [] = []
join_commas (p ∷ []) = p
join_commas (p ∷ q ∷ ps) = p ++ (codes "," ++ join_commas (q ∷ ps))

-- The loop over the status codes, from a code on.
unfoldable pub status_parts : ℕ → List ℕ → List Bytes
status_parts code [] = []
status_parts code (n ∷ counts) =
    let later = status_parts (code + 1) counts in
    if ltb 0 n then (itoa code ++ (codes "=" ++ itoa n)) ∷ later else later

-- A counter of errors, where it is positive.
unfoldable pub error_part : Bytes → ℕ → List Bytes
error_part name n = if ltb 0 n then (name ++ (codes "=" ++ itoa n)) ∷ [] else []

unfoldable pub summary_parts : Snapshot → List Bytes
summary_parts snap =
    status_parts 100 (drop 100 snap.status_codes)
    ++ (error_part (codes "transport_error") snap.transport_errors
        ++ error_part (codes "marshal_error") snap.marshal_errors)

unfoldable pub or_none : List Bytes → Bytes
or_none [] = codes "none"
or_none (p ∷ ps) = join_commas (p ∷ ps)

-- `statusSummary`.
unfoldable pub status_summary : Snapshot → Bytes
status_summary snap = or_none (summary_parts snap)

-- A uint64 as an int64.
unfoldable pub int64_of : ℕ → ℤ
int64_of n = if ltb n (2 ^ 63) then pos n else negsuc (2 ^ 64 - 1 - n)

-- `averageLatency`.
unfoldable pub average_latency : Snapshot → ℤ
average_latency snap =
    if snap.requests == 0 then pos 0 else int64_of (snap.latency_ns / snap.requests)

-- `rateLabel`.
unfoldable pub rate_label : ℤ → Bytes
rate_label (pos zero) = codes "unlimited"
rate_label (pos (suc n)) = itoa (suc n) ++ codes "/s"
rate_label (negsuc n) = codes "-" ++ (itoa (suc n) ++ codes "/s")

-- `durationOrSignal`.
unfoldable pub duration_or_signal : (ℤ → Bytes) → ℤ → Bytes
duration_or_signal text (pos zero) = codes "until-signal"
duration_or_signal text (pos (suc n)) = text (pos (suc n))
duration_or_signal text (negsuc n) = text (negsuc n)

module _ {F : Type 0} (floats : Floats F) (seconds_of : ℤ → F) where
  open floats use {of_int, div}

  -- `perSecond` and `mibPerSecond`.
  unfoldable pub per_second : ℕ → ℤ → F
  per_second value elapsed =
      if ltb_ℤ (pos 0) elapsed
      then div (of_int (pos value)) (seconds_of elapsed)
      else of_int (pos 0)

  unfoldable pub mib_per_second : ℕ → ℤ → F
  mib_per_second value elapsed =
      if ltb_ℤ (pos 0) elapsed
      then div (div (div (of_int (pos value)) (of_int (pos 1024))) (of_int (pos 1024)))
          (seconds_of elapsed)
      else of_int (pos 0)

  module _ (fixed_one : F → Bytes) (text rounded_text : ℤ → Bytes) (percentile : ℕ → Bytes) where
    -- `printSummary`, by its lines; `percentile` is `percentileLabel` of the latencies.
    unfoldable pub summary_lines : Snapshot → ℤ → List Bytes
    summary_lines snap elapsed =
        let rate = λ (n : ℕ). fixed_one (per_second n elapsed) in
        let mib = λ (n : ℕ). fixed_one (mib_per_second n elapsed) in
        let line = λ (name : Bytes) (n : ℕ). name ++ (codes ": " ++ itoa n) in
        let with_rate =
          λ (name : Bytes) (n : ℕ). line name n ++ (codes " (" ++ (rate n ++ codes "/s)")) in
        let with_mib =
          λ (name : Bytes) (n : ℕ). line name n ++ (codes " (" ++ (mib n ++ codes " MiB/s)")) in
        (codes "duration: " ++ rounded_text elapsed)
        ∷ with_rate (codes "requests") snap.requests
        ∷ line (codes "successes") snap.successes
        ∷ with_rate (codes "series") snap.series
        ∷ with_rate (codes "samples") snap.samples
        ∷ with_mib (codes "decoded bytes") snap.decoded_bytes
        ∷ with_mib (codes "compressed bytes") snap.body_bytes
        ∷ (codes "latency: avg="
            ++ (text (average_latency snap)
                ++ (codes " p50~"
                    ++ (percentile 50
                        ++ (codes " p95~"
                            ++ (percentile 95 ++ (codes " p99~" ++ percentile 99)))))))
        ∷ (codes "statuses: " ++ status_summary snap)
        ∷ (if ltb 0 snap.marshal_errors
            then line (codes "marshal errors") snap.marshal_errors ∷ []
            else [])
