-- ===== src/Loadgen/Requests.antt =====
-- cmd/rwi-loadgen/main.go: `generateRequest`. The random numbers are readings, and enter by the
-- comparisons that are made with them; the value of a sample, the protobuf encoding and snappy are
-- parameters. The counts are those of a configuration that `validate` accepts, hence positive, and sums
-- of them stay below 2^63.
use remote_write_inspector.Prelude.{
  ℕ, zero, suc, ◌+◌, ◌-◌, ◌*◌, ◌/◌, ◌%◌, ◌^◌, Bool, List, [], ◌∷◌, ◌++◌, Option, some,
  if◌then◌else◌, ltb, length, ◌>>=◌,
}
use remote_write_inspector.Prelude.Bytes.{Bytes, codes}
use remote_write_inspector.Prelude.Int.{ℤ, pos, pos_part, ◌+ℤ◌, ◌-ℤ◌}
use remote_write_inspector.Hash.Types.{Label}
use remote_write_inspector.Loadgen.{LoadConfig}
use remote_write_inspector.Loadgen.Stats.{Generated}

-- `strconv.Itoa` of a number that is not negative: the digits from the last one on. A number has no
-- more digits than `n + 1`.
unfoldable pub itoa_digits : ℕ → ℕ → Bytes → Bytes
itoa_digits zero n out = out
itoa_digits (suc fuel) n out =
    let out' = (b'0' + n % 10) ∷ out in
    let rest = itoa_digits fuel (n / 10) out' in if ltb n 10 then out' else rest

unfoldable pub itoa : ℕ → Bytes
itoa n = itoa_digits (n + 1) n []

-- What is drawn for a sample: whether it is stale, whether it is else in the future, and whether it is
-- a conflict and with which value.
pub record SampleDraw : Type 0 where
  pub stale : Bool
  pub future : Bool
  pub conflict : Bool
  pub conflict_value : ℕ

-- What is drawn for the series and the samples of a request.
pub record Draws : Type 0 where
  pub invalid : ℕ → Bool
  pub sample : ℕ → ℕ → SampleDraw

pub record GeneratedSample : Type 0 where
  pub timestamp : ℤ
  pub value_bits : ℕ

pub record GeneratedSeries : Type 0 where
  pub labels : List Label
  pub samples : List GeneratedSample

pub record GeneratedRequest : Type 0 where
  pub body : Bytes
  pub tenant : Bytes
  pub sink : Bytes
  pub path : Bytes
  pub writer : Bytes
  pub sizes : Generated

-- 25 hours and 11 minutes, in milliseconds.
abbrev pub stale_age : ℕ
stale_age = 25 * 3_600_000

abbrev pub future_lead : ℕ
future_lead = 11 * 60_000

unfoldable pub metric_name : Bool → ℕ → Bytes
metric_name invalid id =
    if invalid then codes "bad metric " ++ itoa id else codes "loadgen_metric_" ++ itoa (id % 128)

unfoldable pub generated_labels : Bool → ℕ → List Label
generated_labels invalid id =
    record { name = codes "__name__"; value = metric_name invalid id }
    ∷ record { name = codes "host_name"; value = codes "host-" ++ itoa id }
    ∷ record { name = codes "job"; value = codes "rwi-loadgen" }
    ∷ record { name = codes "series_id"; value = itoa id }
    ∷ []

module _ {F : Type 0} (cfg : LoadConfig F) where
  unfoldable pub cycle_len : ℕ
  cycle_len =
      let per_request = pos_part cfg.series_per_request in
      (pos_part cfg.active_series + per_request - 1) / per_request

  unfoldable pub path_index : ℕ → ℕ
  path_index seq = seq / cycle_len % pos_part cfg.path_count

module _ {F : Type 0} (cfg : LoadConfig F) (deterministic_value : ℕ → ℤ → ℕ → ℕ) (now_ms : ℕ) where
  abbrev pub fresh_time : ℕ → ℤ
  fresh_time sample_idx = pos now_ms -ℤ pos (pos_part cfg.samples_per_series) +ℤ pos sample_idx

  -- The time of a sample that is no conflict.
  unfoldable pub sample_time : ℕ → SampleDraw → ℤ
  sample_time sample_idx draw =
      if draw.stale
      then pos now_ms -ℤ pos stale_age -ℤ pos sample_idx
      else if draw.future
      then pos now_ms +ℤ pos future_lead +ℤ pos sample_idx
      else fresh_time sample_idx

  unfoldable pub generated_sample : ℕ → ℕ → SampleDraw → GeneratedSample
  generated_sample id sample_idx draw =
      if draw.conflict
      then record { timestamp = pos (now_ms / 1000 * 1000); value_bits = draw.conflict_value }
      else record {
        timestamp = sample_time sample_idx draw;
        value_bits = deterministic_value id (fresh_time sample_idx) sample_idx;
      }

module _ {F : Type 0} (cfg : LoadConfig F) (deterministic_value : ℕ → ℤ → ℕ → ℕ) (now_ms : ℕ)
    (draws : Draws) where
  -- The samples from an index on.
  unfoldable pub samples_from : ℕ → ℕ → ℕ → ℕ → List GeneratedSample
  samples_from idx id sample_idx zero = []
  samples_from idx id sample_idx (suc n) =
      generated_sample cfg deterministic_value now_ms id sample_idx (draws.sample idx sample_idx)
      ∷ samples_from idx id (sample_idx + 1) n

  unfoldable pub generated_series : ℕ → ℕ → GeneratedSeries
  generated_series idx id = record {
    labels = generated_labels (draws.invalid idx) id;
    samples = samples_from idx id 0 (pos_part cfg.samples_per_series);
  }

  -- The series from an index on.
  unfoldable pub series_from : ℕ → ℕ → ℕ → List GeneratedSeries
  series_from start idx zero = []
  series_from start idx (suc n) =
      generated_series idx ((start + idx) % pos_part cfg.active_series)
      ∷ series_from start (idx + 1) n

  -- `request.Timeseries` of the request number `seq`; the product is of 64-bit words.
  unfoldable pub request_series : ℕ → List GeneratedSeries
  request_series seq =
      let per_request = pos_part cfg.series_per_request in
      series_from (seq * per_request % 2 ^ 64 % pos_part cfg.active_series) 0 per_request

  -- `generateRequest`; `none` is an error of the protobuf encoding.
  unfoldable pub generate_request :
      (List GeneratedSeries → Option Bytes) → (Bytes → Bytes) → ℕ → Option GeneratedRequest
  generate_request marshal encode seq = do
    body ← marshal (request_series seq)
    let compressed = encode body in
        some (record {
          body = compressed;
          tenant = codes "tenant-" ++ itoa (seq % pos_part cfg.tenant_count);
          sink = codes "sink-" ++ itoa (seq % pos_part cfg.sink_count);
          path = codes "path-" ++ itoa (path_index cfg seq);
          writer = codes "writer-" ++ itoa (seq % pos_part cfg.writer_count);
          sizes = record {
            series = pos_part cfg.series_per_request;
            samples = pos_part cfg.series_per_request * pos_part cfg.samples_per_series;
            body_bytes = length compressed;
            decoded_bytes = length body;
          };
        })
