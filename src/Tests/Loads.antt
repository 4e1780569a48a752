-- ===== src/Tests/Loads.antt =====
-- The load generator at concrete inputs. A ratio is a number of percent.
use remote_write_inspector.Prelude.{
  ℕ, ◌+◌, ◌*◌, ◌%◌, ◌≤◌, ◌<◌, ◌≡◌, refl, ◌↔◌, Bool, true, false, ◌&&◌, not, List, [], ◌∷◌, Option,
  none, some, arith, ltb, if◌then◌else◌, get_elem?,
}
use remote_write_inspector.Prelude.Bytes.{Bytes, codes}
use remote_write_inspector.Prelude.Int.{ℤ, pos}
use remote_write_inspector.Config.{with_defaults, positive_or}
use remote_write_inspector.Inspector.{is_stale, is_future}
use remote_write_inspector.Validate.Reasons.{invalid_metric_name}
use remote_write_inspector.Validate.{validate_series}
use remote_write_inspector.Loadgen.{LoadConfig, Url, validate}
use remote_write_inspector.Loadgen.Stats.{
  LoadStats, Round, interrupted, failed, answered, count_rounds,
}
use remote_write_inspector.Loadgen.Tally.{Tallied}
use remote_write_inspector.Loadgen.Rounds.{count_rounds-Tallied}
use remote_write_inspector.Loadgen.Percentile.{percentile_label}
use remote_write_inspector.Loadgen.Ranks.{
  Ranked, rank_or_one, latencies_within, percentile_label-Ranked,
}
use remote_write_inspector.Loadgen.Accepted.{GoodUrl, Numbers, Ratios, validate_iff}
use remote_write_inspector.Loadgen.Requests.{
  SampleDraw, Draws, generated_sample, generated_series, generated_labels, request_series,
  cycle_len, path_index,
}
use remote_write_inspector.Loadgen.Cycles.{series_sent_in_cycle}
use remote_write_inspector.Loadgen.Verdicts.{
  generated_sample-is_stale, generated_labels-validate_series,
}
use remote_write_inspector.Tests.Inspections.{small_config}

abbrev from_three : ℕ → Bool
from_three n = ltb 2 n

abbrev pub three_rounds : List Round
three_rounds =
    failed (pos 7_000_000)
    ∷ interrupted
    ∷ answered (pos 204) (record { series = 2; samples = 2; body_bytes = 30; decoded_bytes = 40 })
        (pos 300_000)
    ∷ []

count_rounds-Tallied_example :
    (s : LoadStats) × (count_rounds three_rounds ≡ some s) × Tallied three_rounds s
count_rounds-Tallied_example = count_rounds-Tallied three_rounds

abbrev all_of : ℕ → ℕ
all_of n = n

percentile_label-Ranked_example :
    (s : LoadStats) × (count_rounds three_rounds ≡ some s)
    × Ranked three_rounds
        (rank_or_one (latencies_within 16 three_rounds))
        (percentile_label all_of s.latency_counts)
percentile_label-Ranked_example =
    percentile_label-Ranked all_of three_rounds (omega arith) (λ n. omega arith)

abbrev pub small_load : LoadConfig ℕ
small_load = record {
  target_url = codes "http://host/receive";
  duration = pos 0;
  workers = pos 2;
  rate = pos 0;
  timeout = pos 1;
  series_per_request = pos 2;
  samples_per_series = pos 1;
  active_series = pos 5;
  tenant_count = pos 1;
  sink_count = pos 1;
  path_count = pos 2;
  writer_count = pos 1;
  stale_ratio = 50;
  future_ratio = 50;
  invalid_series_ratio = 0;
  conflict_ratio = 0;
  progress_interval = pos 0;
}

abbrev over_one : ℕ → Bool
over_one n = ltb 100 n

abbrev sum_over_one : ℕ → ℕ → Bool
sum_over_one a b = ltb 100 (a + b)

abbrev host_url : Bytes → Option Url
host_url s = some (record { scheme = codes "http"; host = codes "host" })

validate_iff_example : (validate over_one sum_over_one host_url small_load ≡ none) ↔ (
    ((url : Url) × (host_url small_load.target_url ≡ some url) × GoodUrl url)
    × Numbers small_load
    × Ratios over_one sum_over_one small_load)
validate_iff_example = validate_iff over_one sum_over_one small_load host_url

abbrev pub stale_draw : SampleDraw
stale_draw = record { stale = true; future = true; conflict = false; conflict_value = 0 }

abbrev pub same_draws : Draws
same_draws = record { invalid = λ n. false; sample = λ i k. stale_draw }

abbrev pub value_one : ℕ → ℤ → ℕ → ℕ
value_one id ts idx = 1

abbrev at_minute : ℕ → ℕ
at_minute seq = 60_000 * seq

abbrev draws_of : ℕ → Draws
draws_of seq = same_draws

series_sent_in_cycle_example :
    (seq : ℕ) × (idx : ℕ) × (1 * cycle_len small_load ≤ seq)
    × (seq < (1 + 1) * cycle_len small_load)
    × (get_elem? (request_series small_load value_one (at_minute seq) (draws_of seq) seq) idx
        ≡ some (generated_series small_load value_one (at_minute seq) (draws_of seq) idx 4))
    × (path_index small_load seq ≡ 1 % 2)
unfolding cycle_len
series_sent_in_cycle_example =
    series_sent_in_cycle small_load value_one at_minute draws_of 1 4 (omega arith) (omega arith)
      (omega arith)

generated_sample-is_stale_example :
    (is_stale small_config
        (generated_sample small_load value_one 5_000_000 3 0 stale_draw).timestamp
        (pos 5_010_000)
      ≡ (not false && true))
    × (is_future small_config
          (generated_sample small_load value_one 5_000_000 3 0 stale_draw).timestamp
          (pos 5_010_000)
        ≡ (not false && (not true && true)))
unfolding with_defaults positive_or
generated_sample-is_stale_example =
    generated_sample-is_stale small_load small_config value_one 5_000_000 5_010_000 3 0 stale_draw
      refl refl (omega arith) (omega arith) (omega arith) (omega arith)

generated_labels-validate_series_example :
    validate_series (pos 128) (pos 4096) (generated_labels true 3)
    ≡ (if true then invalid_metric_name ∷ [] else [])
generated_labels-validate_series_example =
    generated_labels-validate_series 128 4096 true 3 (omega arith) (omega arith) (omega arith)
