-- ===== src/Loadgen/Ranks.antt =====
-- What the percentile label of the load generator says of the latencies of its rounds.
use remote_write_inspector.Prelude.{
  ℕ, zero, suc, ◌+◌, ◌%◌, ◌^◌, ◌≤◌, ◌<◌, ◌≡◌, refl, true, false, List, [], ◌∷◌, some, if◌then◌else◌,
  length, get_or, ltb, leb, ite, ℕ_discrete, arith, ap, ◌∙◌, inl, inr, Bool-cases, dec_lt, if_neg,
  if_pos,
}
use remote_write_inspector.Prelude.Int.{ℤ}
use remote_write_inspector.Loadgen.Buckets.{one_if, in_bucket, within_bound, within_bound_mono}
use remote_write_inspector.Loadgen.Tally.{tally, has_latency}
use remote_write_inspector.Loadgen.Stats.{
  add_uint64, bound, LoadStats, Round, not_marshalled, not_built, interrupted, failed, answered,
  count_rounds,
}
use remote_write_inspector.Loadgen.Rounds.{count_rounds-Tallied}
use remote_write_inspector.Loadgen.Percentile.{
  RankLabel, no_latencies, at_most, over, total_count, percentile_loop, percentile_label,
}

-- 1 for a request with a latency within a bound; all are within bound 16.
unfoldable pub is_within : ℕ → Round → ℕ
is_within k (failed latency) = one_if (within_bound k latency)
is_within k (answered status_code generated latency) = one_if (within_bound k latency)
is_within k _ = 0

-- How many latencies are within a bound.
abbrev pub latencies_within : ℕ → List Round → ℕ
latencies_within k rs = tally (is_within k) rs

-- What a label for a rank says: of all latencies, that there are none, or which is the first bound with
-- as many latencies within it.
unfoldable pub Ranked : List Round → ℕ → RankLabel → Type 0
Ranked rs target no_latencies = latencies_within 16 rs ≡ 0
Ranked rs target (at_most b) =
    (k : ℕ) × (k < 16)
    × (b ≡ bound k)
    × (target ≤ latencies_within k rs)
    × ((j : ℕ) → j < k → latencies_within j rs < target)
Ranked rs target (over b) =
    (b ≡ bound 15)
    × ((j : ℕ) → j < 16 → latencies_within j rs < target)
    × (target ≤ latencies_within 16 rs)

one_bucket :
    (k : ℕ) (latency : ℤ)
    → one_if (within_bound k latency) + one_if (in_bucket (suc k) latency)
      ≡ one_if (within_bound (suc k) latency)
unfolding in_bucket
one_bucket k latency = ground (arith, within_bound_mono k (suc k) latency (omega arith))

round_bucket : (k : ℕ) (r : Round) → is_within k r + has_latency (suc k) r ≡ is_within (suc k) r
unfolding is_within has_latency
round_bucket k not_marshalled = refl
round_bucket k not_built = refl
round_bucket k interrupted = refl
round_bucket k (failed latency) = one_bucket k latency
round_bucket k (answered status_code generated latency) = one_bucket k latency

-- How many latencies are in the buckets before the `k`th.
unfoldable pub before_bucket : ℕ → List Round → ℕ
before_bucket zero rs = 0
before_bucket (suc k) rs = latencies_within k rs

first_bucket : (r : Round) → has_latency 0 r ≡ is_within 0 r
unfolding has_latency is_within in_bucket
first_bucket not_marshalled = refl
first_bucket not_built = refl
first_bucket interrupted = refl
first_bucket (failed latency) = refl
first_bucket (answered status_code generated latency) = refl

before_bucket-suc :
    (k : ℕ) (rs : List Round)
    → before_bucket k rs + tally (has_latency k) rs ≡ before_bucket (suc k) rs
unfolding before_bucket tally
before_bucket-suc zero [] = refl
before_bucket-suc (suc k) [] = refl
before_bucket-suc zero (r ∷ rs) = omega (arith, first_bucket r, before_bucket-suc zero rs)
before_bucket-suc (suc k) (r ∷ rs) = omega (arith, round_bucket k r, before_bucket-suc (suc k) rs)

is_within_small : (k : ℕ) (r : Round) → is_within k r ≤ 1
unfolding is_within
is_within_small k not_marshalled = omega arith
is_within_small k not_built = omega arith
is_within_small k interrupted = omega arith
is_within_small k (failed latency) = ground arith
is_within_small k (answered status_code generated latency) = ground arith

latencies_within_bounded : (k : ℕ) (rs : List Round) → latencies_within k rs ≤ length rs
unfolding tally
latencies_within_bounded k [] = omega arith
latencies_within_bounded k (r ∷ rs) =
    omega (arith, is_within_small k r, latencies_within_bounded k rs)

before_bucket_bounded : (k : ℕ) (rs : List Round) → before_bucket k rs ≤ length rs
unfolding before_bucket
before_bucket_bounded zero rs = omega arith
before_bucket_bounded (suc k) rs = latencies_within_bounded k rs

module _ (rs : List Round) (fits : length rs < 2 ^ 64) where
  -- The counts from index `idx` on.
  abbrev Buckets : ℕ → List ℕ → Type 0
  Buckets idx counts =
      (i : ℕ) → i < length counts → get_or counts i 0 ≡ tally (has_latency (idx + i)) rs % 2 ^ 64

  next_seen :
      (idx count : ℕ) (counts : List ℕ)
      → Buckets idx (count ∷ counts)
      → add_uint64 (before_bucket idx rs) count ≡ before_bucket (idx + 1) rs
  unfolding add_uint64
  next_seen idx count counts at =
      let here : tally (has_latency (idx + 0)) rs ≡ tally (has_latency idx) rs =
        ap (λ k. tally (has_latency k) rs) (omega arith) in
      let after : before_bucket (idx + 1) rs ≡ before_bucket (suc idx) rs =
        ap (λ k. before_bucket k rs) (omega arith) in
      omega (
        arith,
        at 0 (omega arith),
        here,
        after,
        before_bucket-suc idx rs,
        before_bucket_bounded (suc idx) rs,
        fits,
      )

  next_Buckets :
      (idx count : ℕ) (counts : List ℕ) → Buckets idx (count ∷ counts) → Buckets (idx + 1) counts
  next_Buckets idx count counts at i h =
      at (suc i) (omega arith) ∙ ap (λ k. tally (has_latency k) rs % 2 ^ 64) (omega arith)

  total_count_lem :
      (idx : ℕ) (counts : List ℕ)
      → Buckets idx counts
      → total_count counts (before_bucket idx rs) ≡ before_bucket (idx + length counts) rs
  unfolding total_count
  total_count_lem idx [] at = ap (λ k. before_bucket k rs) (omega arith)
  total_count_lem idx (count ∷ counts) at = rw (next_seen idx count counts at) (
      total_count_lem (idx + 1) counts (next_Buckets idx count counts at)
      ∙ ap (λ k. before_bucket k rs) (omega arith))

  before_next : (idx : ℕ) → before_bucket (idx + 1) rs ≡ latencies_within idx rs
  unfolding before_bucket
  before_next idx = ap (λ k. before_bucket k rs) {x = idx + 1} {y = suc idx} (omega arith)

  percentile_loop_lem :
      (target idx : ℕ) (counts : List ℕ)
      → Buckets idx counts
      → idx + length counts ≡ 17
      → target ≤ latencies_within 16 rs
      → before_bucket idx rs < target
      → ((j : ℕ) → j < idx → latencies_within j rs < target)
      → Ranked rs target (percentile_loop target counts idx (before_bucket idx rs))
  unfolding percentile_loop Ranked
  percentile_loop_lem target idx [] at h some_left less lower =
      let all : before_bucket idx rs ≡ before_bucket 17 rs =
        ap (λ k. before_bucket k rs) (omega arith) in
      absurd (omega (arith, all, before_next 16))
  percentile_loop_lem target idx (count ∷ counts) at h some_left less lower =
      rw (next_seen idx count counts at)
        (elim (Bool-cases (leb target (before_bucket (idx + 1) rs))) [
          | inl t ↦ elim (Bool-cases (ltb idx 16)) [
            | inl first ↦
                rw t (rw first (idx, ground arith, refl, ground (arith, before_next idx), lower))
            | inr last ↦ rw t (rw last (refl, (λ j lt. lower j (ground arith)), some_left))
          ]
          | inr f ↦ rw f (
              percentile_loop_lem target (idx + 1) counts (next_Buckets idx count counts at)
                (omega arith) some_left (ground arith)
                (λ j lt. elim (dec_lt j idx) [
                  | yes earlier ↦ lower j earlier
                  | no q ↦ ground (
                    arith,
                    before_next j,
                    ap (λ k. before_bucket k rs) {x = j + 1} {y = idx + 1} (ground arith),
                  )
                ]))
        ])

abbrev pub rank_or_one : ℕ → ℕ
rank_or_one n = if ite (ℕ_discrete n 0) true false then 1 else n

label-Ranked :
    (rank : ℕ → ℕ) (rs : List Round) (fits : length rs < 2 ^ 64) (counts : List ℕ)
    → ((n : ℕ) → rank n ≤ n)
    → Buckets rs fits 0 counts
    → length counts ≡ 17
    → Ranked rs (rank_or_one (rank (latencies_within 16 rs))) (percentile_label rank counts)
unfolding percentile_label before_bucket Ranked
label-Ranked rank rs fits counts low at size =
    let all = latencies_within 16 rs in
    let total : total_count counts 0 ≡ all =
      total_count_lem rs fits 0 counts at
      ∙ ap (λ k. before_bucket k rs) {x = 0 + length counts} {y = suc 16} (omega arith) in
    rw total (elim (ℕ_discrete all 0) [
      | yes e ↦ rw (if_pos (ℕ_discrete all 0) e true false) e
      | no q ↦ rw (if_neg (ℕ_discrete all 0) q true false) (
          percentile_loop_lem rs fits (rank_or_one (rank all)) 0 counts at (omega (arith))
            (ground (arith, low all)) (ground arith) (λ j lt. absurd (omega arith)))
    ])

-- For fewer than 2^64 rounds, and a rank that is at most the number of latencies, the label of the
-- statistics is right for the rank, or for 1 where it is 0: there are no latencies, or it is the first
-- bound with as many of the latencies within it, or the last bound where no bound has.
pub percentile_label-Ranked :
    (rank : ℕ → ℕ) (rs : List Round)
    → length rs < 2 ^ 64
    → ((n : ℕ) → rank n ≤ n)
    → (s : LoadStats) × (count_rounds rs ≡ some s)
      × Ranked rs
          (rank_or_one (rank (latencies_within 16 rs)))
          (percentile_label rank s.latency_counts)
percentile_label-Ranked rank rs fits low =
    let (s, run, t) = count_rounds-Tallied rs in
    let at : Buckets rs fits 0 s.latency_counts = λ i h.
      t.latency_counts i (omega (arith, t.sizes.1))
      ∙ ap (λ k. tally (has_latency k) rs % 2 ^ 64) (omega arith) in
    (s, run, label-Ranked rank rs fits s.latency_counts low at t.sizes.1)
