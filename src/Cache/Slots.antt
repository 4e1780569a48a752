-- ===== src/Cache/Slots.antt =====
-- Facts about a ring of slots: reading after writing, and counting the slots in use.
use remote_write_inspector.Prelude.{
  ℕ, zero, suc, ◌+◌, ◌≤◌, ◌<◌, ◌≡◌, refl, ◌≢◌, List, [], ◌∷◌, Option, none, some, arith, length,
  get_elem?, set, replicate, ite, ℕ_discrete,
}

module _ {ℓ} {A : Type ℓ} where
  pub get_elem?-lt : (xs : List A) (i : ℕ) {a : A} → get_elem? xs i ≡ some a → i < length xs
  get_elem?-lt [] i h = absurd (ground arith)
  get_elem?-lt (x ∷ xs) zero h = omega arith
  get_elem?-lt (x ∷ xs) (suc i) h = omega (arith, get_elem?-lt xs i h)

  pub get_elem?_total : (xs : List A) (i : ℕ) → i < length xs → (a : A) × (get_elem? xs i ≡ some a)
  get_elem?_total [] i h = elim h [ ]
  get_elem?_total (x ∷ xs) zero h = (x, refl)
  get_elem?_total (x ∷ xs) (suc i) h = get_elem?_total xs i (omega arith)

  -- Reading after a write in range.
  pub get_elem?-set :
      (xs : List A) (i j : ℕ) (v : A)
      → i < length xs
      → get_elem? (set xs i v) j ≡ ite (ℕ_discrete i j) (some v) (get_elem? xs j)
  get_elem?-set [] i j v h = elim h [ ]
  get_elem?-set (x ∷ xs) zero zero v h = ground arith
  get_elem?-set (x ∷ xs) zero (suc j) v h = ground arith
  get_elem?-set (x ∷ xs) (suc i) zero v h = ground arith
  get_elem?-set (x ∷ xs) (suc i) (suc j) v h = ground (arith, get_elem?-set xs i j v)

  pub get_elem?-replicate : (n i : ℕ) (a : A) {b : A} → get_elem? (replicate n a) i ≡ some b → b ≡ a
  get_elem?-replicate zero i a h = absurd (ground arith)
  get_elem?-replicate (suc n) zero a h = ground arith
  get_elem?-replicate (suc n) (suc i) a h = get_elem?-replicate n i a h

  -- How many slots are in use.
  abbrev pub occupied : List (Option A) → ℕ
  occupied [] = 0
  occupied (none ∷ xs) = occupied xs
  occupied (some a ∷ xs) = suc (occupied xs)

  pub occupied-le-length : (xs : List (Option A)) → occupied xs ≤ length xs
  occupied-le-length [] = omega arith
  occupied-le-length (none ∷ xs) = omega (arith, occupied-le-length xs)
  occupied-le-length (some a ∷ xs) = omega (arith, occupied-le-length xs)

  -- A slot is in use where all are.
  pub occupied_full :
      (xs : List (Option A)) (i : ℕ)
      → occupied xs ≡ length xs
      → i < length xs
      → (a : A) × (get_elem? xs i ≡ some (some a))
  occupied_full [] i h l = elim l [ ]
  occupied_full (none ∷ xs) i h l = absurd (omega (arith, occupied-le-length xs))
  occupied_full (some a ∷ xs) zero h l = (a, refl)
  occupied_full (some a ∷ xs) (suc i) h l = occupied_full xs i (omega arith) (omega arith)

  pub occupied-set_fill :
      (xs : List (Option A)) (i : ℕ) (a : A)
      → get_elem? xs i ≡ some none
      → occupied (set xs i (some a)) ≡ occupied xs + 1
  occupied-set_fill [] i a h = absurd (ground arith)
  occupied-set_fill (none ∷ xs) zero a h = omega arith
  occupied-set_fill (some b ∷ xs) zero a h = absurd (ground arith)
  occupied-set_fill (none ∷ xs) (suc i) a h = occupied-set_fill xs i a h
  occupied-set_fill (some b ∷ xs) (suc i) a h = omega (arith, occupied-set_fill xs i a h)

  pub occupied-set_keep :
      (xs : List (Option A)) (i : ℕ) (a b : A)
      → get_elem? xs i ≡ some (some b)
      → occupied (set xs i (some a)) ≡ occupied xs
  occupied-set_keep [] i a b h = absurd (ground arith)
  occupied-set_keep (none ∷ xs) zero a b h = absurd (ground arith)
  occupied-set_keep (some c ∷ xs) zero a b h = refl
  occupied-set_keep (none ∷ xs) (suc i) a b h = occupied-set_keep xs i a b h
  occupied-set_keep (some c ∷ xs) (suc i) a b h = omega (arith, occupied-set_keep xs i a b h)

  pub occupied-set_clear :
      (xs : List (Option A)) (i : ℕ) (b : A)
      → get_elem? xs i ≡ some (some b)
      → occupied (set xs i none) + 1 ≡ occupied xs
  occupied-set_clear [] i b h = absurd (ground arith)
  occupied-set_clear (none ∷ xs) zero b h = absurd (ground arith)
  occupied-set_clear (some c ∷ xs) zero b h = omega arith
  occupied-set_clear (none ∷ xs) (suc i) b h = occupied-set_clear xs i b h
  occupied-set_clear (some c ∷ xs) (suc i) b h = omega (arith, occupied-set_clear xs i b h)

pub occupied-replicate {ℓ} : (A : Type ℓ) (n : ℕ) → occupied (replicate {A = Option A} n none) ≡ 0
occupied-replicate A zero = refl
occupied-replicate A (suc n) = occupied-replicate A n

-- The free list holds distinct unused slots below `used`.
abbrev pub NotIn : ℕ → List ℕ → Type 0
NotIn i [] = Unit {0}
NotIn i (j ∷ js) = (i ≢ j) × NotIn i js
