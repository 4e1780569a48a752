-- ===== src/Loadgen/Sound.antt =====
-- The state of the load generator in which each number was taken once and each request is counted once.
use remote_write_inspector.Prelude.{
  ℕ, zero, suc, ◌+◌, ◌*◌, ◌%◌, ◌^◌, ◌≡◌, ap, List, [], ◌∷◌, Option, some, get_elem?, set, length,
  replicate, arith, Option-cases, inl, inr,
}
use remote_write_inspector.Loadgen.Stats.{Round, count_round, count_rounds}
use remote_write_inspector.Loadgen.Workers.{Worker, waiting, sending, Load, count_in}

-- A measure of the workers, summed.
unfoldable pub sum_workers : (Worker → ℕ) → List Worker → ℕ
sum_workers f [] = 0
sum_workers f (w ∷ ws) = f w + sum_workers f ws

pub sum_workers-set :
    (f : Worker → ℕ) (ws : List Worker) (i : ℕ) (w w' : Worker)
    → get_elem? ws i ≡ some w
    → sum_workers f (set ws i w') + f w ≡ sum_workers f ws + f w'
unfolding sum_workers
sum_workers-set f [] i w w' h = absurd (ground arith)
sum_workers-set f (v ∷ ws) zero w w' h = let same : v ≡ w = ground arith in omega (arith, ap f same)
sum_workers-set f (v ∷ ws) (suc i) w w' h = omega (arith, sum_workers-set f ws i w w' h)

pub sum_workers-replicate :
    (f : Worker → ℕ) (n : ℕ) → sum_workers f (replicate n waiting) ≡ n * f waiting
unfolding sum_workers
sum_workers-replicate f zero = omega arith
sum_workers-replicate f (suc n) = grind (arith, sum_workers-replicate f n)

-- A worker that has a request under way.
unfoldable pub is_sending : Worker → ℕ
is_sending (sending request) = 1
is_sending _ = 0

-- The first `n` numbers, as words of 64 bits, the last one first.
unfoldable pub numbers_below : ℕ → List ℕ
numbers_below zero = []
numbers_below (suc n) = (n % 2 ^ 64) ∷ numbers_below n

-- The numbers taken are the first ones, each once; the statistics count the rounds; and each number
-- belongs to a round or to a request under way.
pub record Sound (l : Load) : Type 0 where
  pub next : l.next ≡ length l.taken % 2 ^ 64
  pub taken : l.taken ≡ numbers_below (length l.taken)
  pub counted : count_rounds l.rounds ≡ some l.stats
  pub accounted : length l.taken ≡ length l.rounds + sum_workers is_sending l.workers

pub some_injective : {A : Type 0} {x y : A} → some x ≡ some y → x ≡ y
some_injective h = ground arith

-- A part of a sound state, where the acting worker is to have the phase `w`.
pub record Keeps (before : Load) (w : Worker) (after : Load) (w' : Worker) : Type 0 where
  pub workers : after.workers ≡ before.workers
  pub next : after.next ≡ length after.taken % 2 ^ 64
  pub taken : after.taken ≡ numbers_below (length after.taken)
  pub counted : count_rounds after.rounds ≡ some after.stats
  pub accounted :
      length after.taken + length before.rounds + is_sending w
      ≡ length before.taken + length after.rounds + is_sending w'

pub count_in-Keeps :
    (r : Round) (w w' v : Worker) (l0 l l' : Load)
    → l.workers ≡ l0.workers
    → l.next ≡ length l.taken % 2 ^ 64
    → l.taken ≡ numbers_below (length l.taken)
    → count_rounds l.rounds ≡ some l.stats
    → length l.taken + length l0.rounds + is_sending w
      ≡ length l0.taken + length l.rounds + 1 + is_sending w'
    → count_in r w' l ≡ some (l', v)
    → Keeps l0 w l' v
unfolding count_in count_rounds
count_in-Keeps r w w' v l0 l l' a b c d e h = elim (Option-cases (count_round r l.stats)) [
  | inl bad ↦ absurd (ground arith)
  | inr (stats, good) ↦ record {
    workers = ground arith;
    next = ground arith;
    taken = ground arith;
    counted = ground arith;
    accounted = ground arith;
  }
]

pub same-Keeps :
    (w w' v : Worker) (l l' : Load)
    → Sound l
    → is_sending w ≡ is_sending w'
    → ◌≡◌ {A = Option (Load × Worker)} (some (l, w')) (some (l', v))
    → Keeps l w l' v
same-Keeps w w' v l l' s e h = record {
  workers = ground arith;
  next = ground (arith, s.next);
  taken = ground (arith, s.taken);
  counted = ground (arith, s.counted);
  accounted = ground arith;
}
