-- ===== src/Loadgen/Percentile.antt =====
-- cmd/rwi-loadgen/main.go: `percentileLabel`. The text of a duration is left out.
use remote_write_inspector.Prelude.{
  ℕ, ◌+◌, true, false, List, [], ◌∷◌, if◌then◌else◌, ltb, leb, ite, ℕ_discrete,
}
use remote_write_inspector.Loadgen.Stats.{add_uint64, bound}

-- What `percentileLabel` prints: no latencies, a bound that is not exceeded, or the last bound.
pub data RankLabel : Type 0 where
  no_latencies : RankLabel
  at_most : ℕ → RankLabel
  over : ℕ → RankLabel

-- `total += count`.
unfoldable pub total_count : List ℕ → ℕ → ℕ
total_count [] total = total
total_count (count ∷ counts) total = total_count counts (add_uint64 total count)

-- The loop over the counts, from an index on.
unfoldable pub percentile_loop : ℕ → List ℕ → ℕ → ℕ → RankLabel
percentile_loop target [] idx seen = over (bound 15)
percentile_loop target (count ∷ counts) idx seen =
    let seen' = add_uint64 seen count in
    let rest = percentile_loop target counts (idx + 1) seen' in
    if leb target seen' then (if ltb idx 16 then at_most (bound idx) else over (bound 15)) else rest

-- `percentileLabel`; `rank` is `uint64(math.Ceil(float64(total) * percentile))` of a total.
unfoldable pub percentile_label : (ℕ → ℕ) → List ℕ → RankLabel
percentile_label rank counts =
    let total = total_count counts 0 in
    let target = rank total in
    if ite (ℕ_discrete total 0) true false
    then no_latencies
    else percentile_loop (if ite (ℕ_discrete target 0) true false then 1 else target) counts 0 0
