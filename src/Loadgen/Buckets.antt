-- ===== src/Loadgen/Buckets.antt =====
-- cmd/rwi-loadgen/main.go: the bucket in which `latencyHistogram.observe` counts a latency.
use remote_write_inspector.Prelude.{
  ℕ, zero, suc, ◌≤◌, ◌<◌, ◌≡◌, refl, Bool, true, false, ◌&&◌, not, ◌||◌, List, [], ◌∷◌, some,
  if◌then◌else◌, length, get_or, ltb, leb, arith, ap, ◌∙◌, inl, inr, Bool-cases, ite, ℕ_discrete,
}
use remote_write_inspector.Prelude.Int.{ℤ, pos, ltb_ℤ}
use remote_write_inspector.Loadgen.Search.{Least, search-Least}
use remote_write_inspector.Loadgen.Stats.{add_uint64, add_at, bounds_us, bound, observe_latency}

-- 1 where the test holds.
abbrev pub one_if : Bool → ℕ
one_if b = if b then 1 else 0

-- Whether a latency is in the bucket, among those that end at `bound 0`, …, `bound 15` and the last.
unfoldable pub within_bound : ℕ → ℤ → Bool
within_bound k latency = if ltb k 16 then not (ltb_ℤ (pos (bound k)) latency) else true

unfoldable pub in_bucket : ℕ → ℤ → Bool
in_bucket zero latency = within_bound zero latency
in_bucket (suc k) latency = within_bound (suc k) latency && not (within_bound k latency)

abbrev at_least : ℕ → List ℕ → Bool
at_least n [] = true
at_least n (x ∷ xs) = leb n x && at_least n xs

abbrev ascending : List ℕ → Bool
ascending [] = true
ascending (x ∷ xs) = at_least x xs && ascending xs

at_least_lem :
    (n : ℕ) (xs : List ℕ) (i : ℕ) → at_least n xs ≡ true → i < length xs → n ≤ get_or xs i 0
at_least_lem n [] i h lt = absurd (omega arith)
at_least_lem n (x ∷ xs) zero h lt = ground arith
at_least_lem n (x ∷ xs) (suc i) h lt = at_least_lem n xs i (ground arith) (omega arith)

ascending_lem :
    (xs : List ℕ) (a b : ℕ)
    → ascending xs ≡ true
    → a ≤ b
    → b < length xs
    → get_or xs a 0 ≤ get_or xs b 0
ascending_lem [] a b h le lt = absurd (omega arith)
ascending_lem (x ∷ xs) zero zero h le lt = omega arith
ascending_lem (x ∷ xs) zero (suc b) h le lt = at_least_lem x xs b (ground arith) (omega arith)
ascending_lem (x ∷ xs) (suc a) zero h le lt = absurd (omega arith)
ascending_lem (x ∷ xs) (suc a) (suc b) h le lt =
    ascending_lem xs a b (ground arith) (omega arith) (omega arith)

pub bound_mono : (a b : ℕ) → a ≤ b → b < 16 → bound a ≤ bound b
unfolding bound
bound_mono a b h lt = omega (arith, ascending_lem bounds_us a b refl h lt)

pub within_bound_mono :
    (a b : ℕ) (latency : ℤ) → a ≤ b → within_bound a latency ≡ true → within_bound b latency ≡ true
unfolding within_bound
within_bound_mono a b latency h t = ground (arith, bound_mono a b h)

pub within_bound_lem :
    (latency : ℤ) (r k : ℕ)
    → Least 16 (λ idx. not (ltb_ℤ (pos (bound idx)) latency)) r
    → within_bound k latency ≡ leb r k || not (ltb k 16)
unfolding within_bound
within_bound_lem latency r k least = elim (Bool-cases (ltb k 16)) [
  | inr f ↦ ground arith
  | inl t ↦ elim (Bool-cases (leb r k)) [
    | inl up ↦ ground (arith, least.above k (ground arith) (ground arith))
    | inr down ↦ ground (arith, least.below k (ground arith))
  ]
]

pub in_bucket_lem :
    (latency : ℤ) (r k : ℕ)
    → Least 16 (λ idx. not (ltb_ℤ (pos (bound idx)) latency)) r
    → k ≤ 16
    → in_bucket k latency ≡ ite (ℕ_discrete r k) true false
unfolding in_bucket
in_bucket_lem latency r zero least h =
    within_bound_lem latency r 0 least ∙ ground (arith, least.inside)
in_bucket_lem latency r (suc k) least h =
    rw (within_bound_lem latency r (suc k) least, within_bound_lem latency r k least)
      (ground (arith, least.inside))

-- An element is incremented.
abbrev pub Incremented : ℕ → List ℕ → List ℕ → ℕ → Type 0
Incremented i xs xs' k =
    get_or xs' k 0 ≡ ite (ℕ_discrete i k) (add_uint64 (get_or xs k 0) 1) (get_or xs k 0)

at_head : (x : ℕ) (xs : List ℕ) (k : ℕ) → Incremented 0 (x ∷ xs) (add_uint64 x 1 ∷ xs) k
at_head x xs zero = ground arith
at_head x xs (suc k) = ground arith

at_tail :
    (x : ℕ) (xs xs' : List ℕ) (i k : ℕ)
    → ((k : ℕ) → Incremented i xs xs' k)
    → Incremented (suc i) (x ∷ xs) (x ∷ xs') k
at_tail x xs xs' i zero at = ground arith
at_tail x xs xs' i (suc k) at = ground (arith, at k)

pub add_at_total :
    (i : ℕ) (xs : List ℕ)
    → i < length xs
    → (xs' : List ℕ) × (add_at i xs ≡ some xs')
      × (length xs' ≡ length xs)
      × ((k : ℕ) → Incremented i xs xs' k)
unfolding add_at
add_at_total i [] h = absurd (omega arith)
add_at_total zero (x ∷ xs) h = (_, refl, refl, λ k. at_head x xs k)
add_at_total (suc i) (x ∷ xs) h =
    let (xs', run, same, at) = add_at_total i xs (omega arith) in
    (x ∷ xs', rw run refl, ap suc same, λ k. at_tail x xs xs' i k at)

-- A latency is counted in its bucket.
pub observe_latency_total :
    (latency : ℤ) (counts : List ℕ)
    → length counts ≡ 17
    → (counts' : List ℕ) × (observe_latency latency counts ≡ some counts')
      × (length counts' ≡ 17)
      × ((k : ℕ)
          → k ≤ 16
          → get_or counts' k 0
            ≡ (if in_bucket k latency then add_uint64 (get_or counts k 0) 1 else get_or counts k 0))
unfolding observe_latency
observe_latency_total latency counts h =
    let (r, run, least) =
      search-Least 16 (λ idx. not (ltb_ℤ (pos (bound idx)) latency))
        (λ a b le lt t. ground (arith, bound_mono a b le lt)) in
    let (counts', added, same, at) = add_at_total r counts (omega (arith, least.inside)) in
    (
      counts',
      rw run added,
      same ∙ h,
      λ k le. ground (arith, at k, in_bucket_lem latency r k least le),
    )
