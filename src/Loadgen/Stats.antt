-- ===== src/Loadgen/Stats.antt =====
-- cmd/rwi-loadgen/main.go: `loadStats` with its latency histogram. An atomic addition is a step of its
-- own, and additions commute, so a call is one step here. `none` is a panic.
use remote_write_inspector.Prelude.{
  ℕ, zero, suc, ◌+◌, ◌*◌, ◌%◌, ◌^◌, ◌&&◌, not, List, [], ◌∷◌, Option, none, some, if◌then◌else◌,
  length, get_or, replicate, ◌>>=◌,
}
use remote_write_inspector.Prelude.Int.{ℤ, pos, pos_part, ltb_ℤ}
use remote_write_inspector.Inspector.Start.{uint64}
use remote_write_inspector.Loadgen.Search.{search}

-- What a generated request counts with.
pub record Generated : Type 0 where
  pub series : ℕ
  pub samples : ℕ
  pub body_bytes : ℕ
  pub decoded_bytes : ℕ

pub record LoadStats : Type 0 where
  pub requests : ℕ
  pub successes : ℕ
  pub transport_errors : ℕ
  pub marshal_errors : ℕ
  pub series : ℕ
  pub samples : ℕ
  pub body_bytes : ℕ
  pub decoded_bytes : ℕ
  pub latency_ns : ℕ
  pub status_codes : List ℕ
  pub latency_counts : List ℕ

-- `atomic.AddUint64`.
unfoldable pub add_uint64 : ℕ → ℕ → ℕ
add_uint64 a b = (a + b) % 2 ^ 64

-- The same for an element; `none` is an index out of range.
unfoldable pub add_at : ℕ → List ℕ → Option (List ℕ)
add_at i [] = none
add_at zero (x ∷ xs) = some (add_uint64 x 1 ∷ xs)
add_at (suc i) (x ∷ xs) = do xs' ← add_at i xs; some (x ∷ xs')

-- The bounds of the buckets, in microseconds.
abbrev pub bounds_us : List ℕ
bounds_us =
    100 ∷ 250 ∷ 500 ∷ 1_000 ∷ 2_000 ∷ 5_000 ∷ 10_000 ∷ 25_000 ∷ 50_000 ∷ 100_000 ∷ 250_000 ∷ 500_000
    ∷ 1_000_000 ∷ 2_000_000 ∷ 5_000_000 ∷ 10_000_000 ∷ []

-- `h.bounds[idx]`, in nanoseconds.
unfoldable pub bound : ℕ → ℕ
bound idx = get_or bounds_us idx 0 * 1_000

-- `newLatencyHistogram` with the other counters at 0.
unfoldable pub new_load_stats : LoadStats
new_load_stats = record {
  requests = 0;
  successes = 0;
  transport_errors = 0;
  marshal_errors = 0;
  series = 0;
  samples = 0;
  body_bytes = 0;
  decoded_bytes = 0;
  latency_ns = 0;
  status_codes = replicate 600 0;
  latency_counts = replicate 17 0;
}

-- `latencyHistogram.observe`. `search` looks at no index of 16 or more.
unfoldable pub observe_latency : ℤ → List ℕ → Option (List ℕ)
observe_latency duration counts = do
  idx ← search 16 (λ idx. not (ltb_ℤ (pos (bound idx)) duration))
  add_at idx counts

-- The status code is an array index where it is in range.
unfoldable pub count_status : ℤ → List ℕ → Option (List ℕ)
count_status status_code codes =
    if not (ltb_ℤ status_code (pos 0)) && ltb_ℤ status_code (pos (length codes))
    then add_at (pos_part status_code) codes
    else some codes

-- `observeResponse`.
unfoldable pub observe_response : ℤ → Generated → ℤ → LoadStats → Option LoadStats
observe_response status_code generated latency s = do
  status_codes ← count_status status_code s.status_codes
  latency_counts ← observe_latency latency s.latency_counts
  some (record s {
    requests = add_uint64 s.requests 1;
    successes =
        if not (ltb_ℤ status_code (pos 200)) && ltb_ℤ status_code (pos 300)
        then add_uint64 s.successes 1
        else s.successes;
    status_codes = status_codes;
    series = add_uint64 s.series generated.series;
    samples = add_uint64 s.samples generated.samples;
    body_bytes = add_uint64 s.body_bytes generated.body_bytes;
    decoded_bytes = add_uint64 s.decoded_bytes generated.decoded_bytes;
    latency_ns = add_uint64 s.latency_ns (uint64 latency);
    latency_counts = latency_counts;
  })

-- `observeTransportError`.
unfoldable pub observe_transport_error : ℤ → LoadStats → Option LoadStats
observe_transport_error latency s = do
  latency_counts ← observe_latency latency s.latency_counts
  some (record s {
    requests = add_uint64 s.requests 1;
    transport_errors = add_uint64 s.transport_errors 1;
    latency_ns = add_uint64 s.latency_ns (uint64 latency);
    latency_counts = latency_counts;
  })

-- How a round of `runWorker` ends: a request that is not marshalled or not built, an error of the
-- client, after the end of the context or before, and a response.
pub data Round : Type 0 where
  not_marshalled not_built interrupted : Round
  failed : ℤ → Round
  answered : ℤ → Generated → ℤ → Round

unfoldable pub count_round : Round → LoadStats → Option LoadStats
count_round not_marshalled s = some (record s { marshal_errors = add_uint64 s.marshal_errors 1 })
count_round not_built s = some (record s { transport_errors = add_uint64 s.transport_errors 1 })
count_round interrupted s = some s
count_round (failed latency) s = observe_transport_error latency s
count_round (answered status_code generated latency) s =
    observe_response status_code generated latency s

-- The rounds of all workers, the last of which stands first.
unfoldable pub count_rounds : List Round → Option LoadStats
count_rounds [] = some new_load_stats
count_rounds (r ∷ rs) = do s ← count_rounds rs; count_round r s
