-- ===== src/Loadgen/Rounds.antt =====
-- The statistics of the load generator (cmd/rwi-loadgen/main.go) are sums over the rounds.
use remote_write_inspector.Prelude.{
  ℕ, ◌≡◌, refl, ◌&&◌, not, List, [], ◌∷◌, some, if◌then◌else◌, length-replicate, ◌∙◌,
}
use remote_write_inspector.Prelude.Int.{ℤ, pos, ltb_ℤ}
use remote_write_inspector.Inspector.Start.{uint64}
use remote_write_inspector.Loadgen.Stats.{
  Generated, LoadStats, add_uint64, new_load_stats, observe_response, observe_transport_error,
  Round, not_marshalled, not_built, interrupted, failed, answered, count_round, count_rounds,
}
use remote_write_inspector.Loadgen.Buckets.{in_bucket, observe_latency_total}
use remote_write_inspector.Loadgen.Tally.{
  tally, is_request, is_success, is_transport_error, is_marshal_error, answered_size, nanoseconds,
  has_status, has_latency, Tallied, same-Counts, more-Counts, if-Counts, get_or-replicate,
  count_status_total,
}

module _ (rs : List Round) (s : LoadStats) (t : Tallied rs s) where
  interrupted-Tallied :
      (s' : LoadStats) × (count_round (interrupted) s ≡ some s') × Tallied (interrupted ∷ rs) s'
  unfolding count_round is_request is_success is_transport_error is_marshal_error answered_size
      nanoseconds has_status has_latency
  interrupted-Tallied = (
    s,
    refl,
    record {
      requests = same-Counts is_request (interrupted) rs _ refl t.requests;
      successes = same-Counts is_success (interrupted) rs _ refl t.successes;
      transport_errors = same-Counts is_transport_error (interrupted) rs _ refl t.transport_errors;
      marshal_errors = same-Counts is_marshal_error (interrupted) rs _ refl t.marshal_errors;
      series = same-Counts (answered_size (λ g. g.series)) (interrupted) rs _ refl t.series;
      samples = same-Counts (answered_size (λ g. g.samples)) (interrupted) rs _ refl t.samples;
      body_bytes =
          same-Counts (answered_size (λ g. g.body_bytes)) (interrupted) rs _ refl t.body_bytes;
      decoded_bytes =
          same-Counts (answered_size (λ g. g.decoded_bytes)) (interrupted) rs _ refl
            t.decoded_bytes;
      latency_ns = same-Counts nanoseconds (interrupted) rs _ refl t.latency_ns;
      status_codes =
          λ code lt. same-Counts (has_status code) (interrupted) rs _ refl (t.status_codes code lt);
      latency_counts =
          λ k le. same-Counts (has_latency k) (interrupted) rs _ refl (t.latency_counts k le);
      sizes = t.sizes;
    },
  )

  not_built-Tallied :
      (s' : LoadStats) × (count_round (not_built) s ≡ some s') × Tallied (not_built ∷ rs) s'
  unfolding count_round is_request is_success is_transport_error is_marshal_error answered_size
      nanoseconds has_status has_latency
  not_built-Tallied = (
    record s { transport_errors = add_uint64 s.transport_errors 1 },
    refl,
    record {
      requests = same-Counts is_request (not_built) rs _ refl t.requests;
      successes = same-Counts is_success (not_built) rs _ refl t.successes;
      transport_errors = more-Counts is_transport_error (not_built) rs _ 1 refl t.transport_errors;
      marshal_errors = same-Counts is_marshal_error (not_built) rs _ refl t.marshal_errors;
      series = same-Counts (answered_size (λ g. g.series)) (not_built) rs _ refl t.series;
      samples = same-Counts (answered_size (λ g. g.samples)) (not_built) rs _ refl t.samples;
      body_bytes =
          same-Counts (answered_size (λ g. g.body_bytes)) (not_built) rs _ refl t.body_bytes;
      decoded_bytes =
          same-Counts (answered_size (λ g. g.decoded_bytes)) (not_built) rs _ refl t.decoded_bytes;
      latency_ns = same-Counts nanoseconds (not_built) rs _ refl t.latency_ns;
      status_codes =
          λ code lt. same-Counts (has_status code) (not_built) rs _ refl (t.status_codes code lt);
      latency_counts =
          λ k le. same-Counts (has_latency k) (not_built) rs _ refl (t.latency_counts k le);
      sizes = t.sizes;
    },
  )

  not_marshalled-Tallied :
      (s' : LoadStats) × (count_round (not_marshalled) s ≡ some s')
      × Tallied (not_marshalled ∷ rs) s'
  unfolding count_round is_request is_success is_transport_error is_marshal_error answered_size
      nanoseconds has_status has_latency
  not_marshalled-Tallied = (
    record s { marshal_errors = add_uint64 s.marshal_errors 1 },
    refl,
    record {
      requests = same-Counts is_request (not_marshalled) rs _ refl t.requests;
      successes = same-Counts is_success (not_marshalled) rs _ refl t.successes;
      transport_errors =
          same-Counts is_transport_error (not_marshalled) rs _ refl t.transport_errors;
      marshal_errors = more-Counts is_marshal_error (not_marshalled) rs _ 1 refl t.marshal_errors;
      series = same-Counts (answered_size (λ g. g.series)) (not_marshalled) rs _ refl t.series;
      samples = same-Counts (answered_size (λ g. g.samples)) (not_marshalled) rs _ refl t.samples;
      body_bytes =
          same-Counts (answered_size (λ g. g.body_bytes)) (not_marshalled) rs _ refl t.body_bytes;
      decoded_bytes =
          same-Counts (answered_size (λ g. g.decoded_bytes)) (not_marshalled) rs _ refl
            t.decoded_bytes;
      latency_ns = same-Counts nanoseconds (not_marshalled) rs _ refl t.latency_ns;
      status_codes = λ code lt.
          same-Counts (has_status code) (not_marshalled) rs _ refl (t.status_codes code lt);
      latency_counts =
          λ k le. same-Counts (has_latency k) (not_marshalled) rs _ refl (t.latency_counts k le);
      sizes = t.sizes;
    },
  )

  failed-Tallied :
      (latency : ℤ)
      → (s' : LoadStats) × (count_round (failed latency) s ≡ some s')
        × Tallied (failed latency ∷ rs) s'
  unfolding count_round is_request is_success is_transport_error is_marshal_error answered_size
      nanoseconds has_status has_latency observe_transport_error
  failed-Tallied latency =
      let (counts, run, size, at) = observe_latency_total latency s.latency_counts t.sizes.1 in
      (
        record s {
          requests = add_uint64 s.requests 1;
          transport_errors = add_uint64 s.transport_errors 1;
          latency_ns = add_uint64 s.latency_ns (uint64 latency);
          latency_counts = counts;
        },
        rw run refl,
        record {
          requests = more-Counts is_request (failed latency) rs _ 1 refl t.requests;
          successes = same-Counts is_success (failed latency) rs _ refl t.successes;
          transport_errors =
              more-Counts is_transport_error (failed latency) rs _ 1 refl t.transport_errors;
          marshal_errors = same-Counts is_marshal_error (failed latency) rs _ refl t.marshal_errors;
          series = same-Counts (answered_size (λ g. g.series)) (failed latency) rs _ refl t.series;
          samples =
              same-Counts (answered_size (λ g. g.samples)) (failed latency) rs _ refl t.samples;
          body_bytes =
              same-Counts (answered_size (λ g. g.body_bytes)) (failed latency) rs _ refl
                t.body_bytes;
          decoded_bytes =
              same-Counts (answered_size (λ g. g.decoded_bytes)) (failed latency) rs _ refl
                t.decoded_bytes;
          latency_ns =
              more-Counts nanoseconds (failed latency) rs _ (uint64 latency) refl t.latency_ns;
          status_codes = λ code lt.
              same-Counts (has_status code) (failed latency) rs _ refl (t.status_codes code lt);
          latency_counts = λ k le.
              at k le
              ∙ if-Counts (has_latency k) (failed latency) rs _ (in_bucket k latency) refl
                  (t.latency_counts k le);
          sizes = (t.sizes.0, size);
        },
      )

  answered-Tallied :
      (status_code : ℤ) (generated : Generated) (latency : ℤ)
      → (s' : LoadStats) × (count_round (answered status_code generated latency) s ≡ some s')
        × Tallied (answered status_code generated latency ∷ rs) s'
  unfolding count_round is_request is_success is_transport_error is_marshal_error answered_size
      nanoseconds has_status has_latency observe_response
  answered-Tallied status_code generated latency =
      let (counts, run, size, at) = observe_latency_total latency s.latency_counts t.sizes.1 in
      let (codes, found, length', status) =
        count_status_total status_code s.status_codes t.sizes.0 in
      (
        record {
          requests = add_uint64 s.requests 1;
          successes =
              if not (ltb_ℤ status_code (pos 200)) && ltb_ℤ status_code (pos 300)
              then add_uint64 s.successes 1
              else s.successes;
          transport_errors = s.transport_errors;
          marshal_errors = s.marshal_errors;
          series = add_uint64 s.series generated.series;
          samples = add_uint64 s.samples generated.samples;
          body_bytes = add_uint64 s.body_bytes generated.body_bytes;
          decoded_bytes = add_uint64 s.decoded_bytes generated.decoded_bytes;
          latency_ns = add_uint64 s.latency_ns (uint64 latency);
          status_codes = codes;
          latency_counts = counts;
        },
        rw found (rw run refl),
        record {
          requests =
              more-Counts is_request (answered status_code generated latency) rs _ 1 refl
                t.requests;
          successes =
              if-Counts is_success (answered status_code generated latency) rs _ _ refl t.successes;
          transport_errors =
              same-Counts is_transport_error (answered status_code generated latency) rs _ refl
                t.transport_errors;
          marshal_errors =
              same-Counts is_marshal_error (answered status_code generated latency) rs _ refl
                t.marshal_errors;
          series =
              more-Counts (answered_size (λ g. g.series)) (answered status_code generated latency)
                rs _ generated.series refl t.series;
          samples =
              more-Counts (answered_size (λ g. g.samples)) (answered status_code generated latency)
                rs _ generated.samples refl t.samples;
          body_bytes =
              more-Counts (answered_size (λ g. g.body_bytes))
                (answered status_code generated latency) rs _ generated.body_bytes refl
                t.body_bytes;
          decoded_bytes =
              more-Counts (answered_size (λ g. g.decoded_bytes))
                (answered status_code generated latency) rs _ generated.decoded_bytes refl
                t.decoded_bytes;
          latency_ns =
              more-Counts nanoseconds (answered status_code generated latency) rs _ (uint64 latency)
                refl t.latency_ns;
          status_codes = λ code lt. status code lt rs generated latency (t.status_codes code lt);
          latency_counts = λ k le.
              at k le
              ∙ if-Counts (has_latency k) (answered status_code generated latency) rs _
                  (in_bucket k latency) refl (t.latency_counts k le);
          sizes = (length', size);
        },
      )

  count_round-Tallied :
      (r : Round) → (s' : LoadStats) × (count_round r s ≡ some s') × Tallied (r ∷ rs) s'
  count_round-Tallied interrupted = interrupted-Tallied
  count_round-Tallied not_built = not_built-Tallied
  count_round-Tallied not_marshalled = not_marshalled-Tallied
  count_round-Tallied (failed latency) = failed-Tallied latency
  count_round-Tallied (answered status_code generated latency) =
      answered-Tallied status_code generated latency

new_load_stats-Tallied : Tallied [] new_load_stats
unfolding new_load_stats tally
new_load_stats-Tallied = record {
  requests = refl;
  successes = refl;
  transport_errors = refl;
  marshal_errors = refl;
  series = refl;
  samples = refl;
  body_bytes = refl;
  decoded_bytes = refl;
  latency_ns = refl;
  status_codes = λ code lt. get_or-replicate 600 code;
  latency_counts = λ k le. get_or-replicate 17 k;
  sizes = (length-replicate {A = ℕ} 600 0, length-replicate {A = ℕ} 17 0);
}

-- Whatever the rounds of the workers bring, and in whatever order they are counted, no index is out of
-- range, and each counter is the sum, modulo 2^64, of what the rounds count in it: the requests, the
-- answers with each status code, and the latencies in each bucket.
pub count_rounds-Tallied :
    (rs : List Round) → (s : LoadStats) × (count_rounds rs ≡ some s) × Tallied rs s
unfolding count_rounds
count_rounds-Tallied [] = (new_load_stats, refl, new_load_stats-Tallied)
count_rounds-Tallied (r ∷ rs) =
    let (s, run, t) = count_rounds-Tallied rs in
    let (s', more, t') = count_round-Tallied rs s t r in (s', rw run more, t')
