-- ===== src/Loadgen/Tally.antt =====
-- What the statistics of the load generator are to say of the rounds of its workers.
use remote_write_inspector.Prelude.{
  ℕ, zero, suc, ◌+◌, ◌%◌, ◌^◌, ◌≤◌, ◌<◌, ◌≡◌, refl, Bool, true, false, ◌&&◌, not, List, [], ◌∷◌,
  some, if◌then◌else◌, length, get_or, replicate, ltb, arith, ◌∙◌, inl, inr, Bool-cases, ite,
  ℕ_discrete,
}
use remote_write_inspector.Prelude.Int.{ℤ, pos, negsuc, ltb_ℤ}
use remote_write_inspector.Inspector.Start.{uint64}
use remote_write_inspector.Loadgen.Stats.{
  Generated, LoadStats, add_uint64, count_status, Round, not_marshalled, not_built, failed,
  answered,
}
use remote_write_inspector.Loadgen.Buckets.{one_if, in_bucket, add_at_total}

-- The sum of what the rounds count.
unfoldable pub tally : (Round → ℕ) → List Round → ℕ
tally f [] = 0
tally f (r ∷ rs) = f r + tally f rs

unfoldable pub is_request : Round → ℕ
is_request (failed latency) = 1
is_request (answered status_code generated latency) = 1
is_request _ = 0

unfoldable pub is_success : Round → ℕ
is_success (answered status_code generated latency) =
    one_if (not (ltb_ℤ status_code (pos 200)) && ltb_ℤ status_code (pos 300))
is_success _ = 0

unfoldable pub is_transport_error : Round → ℕ
is_transport_error not_built = 1
is_transport_error (failed latency) = 1
is_transport_error _ = 0

unfoldable pub is_marshal_error : Round → ℕ
is_marshal_error not_marshalled = 1
is_marshal_error _ = 0

-- A size of the generated request, where there is an answer.
unfoldable pub answered_size : (Generated → ℕ) → Round → ℕ
answered_size size (answered status_code generated latency) = size generated
answered_size size _ = 0

unfoldable pub nanoseconds : Round → ℕ
nanoseconds (failed latency) = uint64 latency
nanoseconds (answered status_code generated latency) = uint64 latency
nanoseconds _ = 0

unfoldable pub has_status : ℕ → Round → ℕ
has_status code (answered (pos n) generated latency) = ite (ℕ_discrete n code) 1 0
has_status code _ = 0

unfoldable pub has_latency : ℕ → Round → ℕ
has_latency k (failed latency) = one_if (in_bucket k latency)
has_latency k (answered status_code generated latency) = one_if (in_bucket k latency)
has_latency k _ = 0

-- A counter is a sum over the rounds, modulo 2^64.
abbrev pub Counts : (Round → ℕ) → List Round → ℕ → Type 0
Counts f rs n = n ≡ tally f rs % 2 ^ 64

pub record Tallied (rs : List Round) (s : LoadStats) : Type 0 where
  pub requests : Counts is_request rs s.requests
  pub successes : Counts is_success rs s.successes
  pub transport_errors : Counts is_transport_error rs s.transport_errors
  pub marshal_errors : Counts is_marshal_error rs s.marshal_errors
  pub series : Counts (answered_size (λ g. g.series)) rs s.series
  pub samples : Counts (answered_size (λ g. g.samples)) rs s.samples
  pub body_bytes : Counts (answered_size (λ g. g.body_bytes)) rs s.body_bytes
  pub decoded_bytes : Counts (answered_size (λ g. g.decoded_bytes)) rs s.decoded_bytes
  pub latency_ns : Counts nanoseconds rs s.latency_ns
  pub status_codes :
      (code : ℕ) → code < 600 → Counts (has_status code) rs (get_or s.status_codes code 0)
  pub latency_counts : (k : ℕ) → k ≤ 16 → Counts (has_latency k) rs (get_or s.latency_counts k 0)
  pub sizes : (length s.status_codes ≡ 600) × (length s.latency_counts ≡ 17)

pub get_or-replicate : (n i : ℕ) → ◌≡◌ {A = ℕ} (get_or (replicate n 0) i 0) 0
get_or-replicate zero i = refl
get_or-replicate (suc n) zero = refl
get_or-replicate (suc n) (suc i) = get_or-replicate n i

pub same-Counts :
    (f : Round → ℕ) (r : Round) (rs : List Round) (n : ℕ)
    → f r ≡ 0
    → Counts f rs n
    → Counts f (r ∷ rs) n
unfolding tally
same-Counts f r rs n h c = ground (arith)

pub more-Counts :
    (f : Round → ℕ) (r : Round) (rs : List Round) (n k : ℕ)
    → f r ≡ k
    → Counts f rs n
    → Counts f (r ∷ rs) (add_uint64 n k)
unfolding tally add_uint64
more-Counts f r rs n k h c = ground arith

pub if-Counts :
    (f : Round → ℕ) (r : Round) (rs : List Round) (n : ℕ) (b : Bool)
    → f r ≡ one_if b
    → Counts f rs n
    → Counts f (r ∷ rs) (if b then add_uint64 n 1 else n)
if-Counts f r rs n true h c = more-Counts f r rs n 1 h c
if-Counts f r rs n false h c = same-Counts f r rs n h c

pub dec-Counts :
    {P : Type 0} (f : Round → ℕ) (r : Round) (rs : List Round) (n : ℕ) (d : Dec P)
    → f r ≡ ite d 1 0
    → Counts f rs n
    → Counts f (r ∷ rs) (ite d (add_uint64 n 1) n)
dec-Counts f r rs n (yes p) h c = more-Counts f r rs n 1 h c
dec-Counts f r rs n (no q) h c = same-Counts f r rs n h c

pub count_status_total :
    (status_code : ℤ) (codes : List ℕ)
    → length codes ≡ 600
    → (codes' : List ℕ) × (count_status status_code codes ≡ some codes')
      × (length codes' ≡ 600)
      × ((code : ℕ)
          → code < 600
          → (rs : List Round) (generated : Generated) (latency : ℤ)
          → Counts (has_status code) rs (get_or codes code 0)
          → Counts
              (has_status code)
              (answered status_code generated latency ∷ rs)
              (get_or codes' code 0))
unfolding count_status has_status
count_status_total (negsuc n) codes h =
    (codes, ground arith, h, λ code lt rs g l c. same-Counts (has_status code) _ rs _ refl c)
count_status_total (pos n) codes h = elim (Bool-cases (ltb n (length codes))) [
  | inr out ↦ (
    codes,
    ground arith,
    h,
    λ code lt rs g l c. same-Counts (has_status code) _ rs _ (ground arith) c,
  )
  | inl into ↦
      let (codes', added, same, at) = add_at_total n codes (ground arith) in
      (
        codes',
        ground arith,
        same ∙ h,
        λ code lt rs g l c.
            at code ∙ dec-Counts (has_status code) _ rs _ (ℕ_discrete n code) refl c,
      )
]
