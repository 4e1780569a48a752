-- ===== src/Loadgen/Search.antt =====
-- `sort.Search`, as the latency histogram of cmd/rwi-loadgen/main.go uses it: the loop that halves a
-- range. `none` is a loop that has not ended; one round for each index and one more are enough.
use remote_write_inspector.Prelude.{
  ℕ, zero, suc, ◌+◌, ◌-◌, ◌/◌, ◌≤◌, ◌<◌, ◌≡◌, refl, Bool, true, false, Option, none, some, arith,
  ltb, if◌then◌else◌, inl, inr, Bool-cases,
}

-- The next range.
unfoldable pub narrow : (ℕ → Bool) → ℕ → ℕ → ℕ × ℕ
narrow f i j = let h = (i + j) / 2 in if f h then (i, h) else (h + 1, j)

unfoldable pub search_loop : (ℕ → Bool) → ℕ → ℕ → ℕ → Option ℕ
search_loop f zero i j = none
search_loop f (suc fuel) i j =
    let (i', j') = narrow f i j in
    let rest = search_loop f fuel i' j' in if ltb i j then rest else some i

unfoldable pub search : ℕ → (ℕ → Bool) → Option ℕ
search n f = search_loop f (n + 1) 0 n

-- The least index below `n` at which `f` holds, or `n`.
pub record Least (n : ℕ) (f : ℕ → Bool) (r : ℕ) : Type 0 where
  pub inside : r ≤ n
  pub below : (m : ℕ) → m < r → f m ≡ false
  pub above : (m : ℕ) → r ≤ m → m < n → f m ≡ true

module _ (n : ℕ) (f : ℕ → Bool) (rises : (a b : ℕ) → a ≤ b → b < n → f a ≡ true → f b ≡ true) where
  record Between (i j : ℕ) : Type 0 where
    ordered : i ≤ j
    inside : j ≤ n
    below : (m : ℕ) → m < i → f m ≡ false
    above : (m : ℕ) → j ≤ m → m < n → f m ≡ true

  narrow-Between :
      (i j : ℕ) (b : Bool)
      → f ((i + j) / 2) ≡ b
      → i < j
      → Between i j
      → Between (if b then i else (i + j) / 2 + 1) (if b then (i + j) / 2 else j)
  narrow-Between i j true at h g = record {
    ordered = omega arith;
    inside = omega (arith, g.inside);
    below = g.below;
    above = λ m le lt. rises ((i + j) / 2) m le lt at;
  }
  narrow-Between i j false at h g = record {
    ordered = omega arith;
    inside = g.inside;
    below = λ m lt. ground (arith, g.inside, rises m ((i + j) / 2));
    above = g.above;
  }

  search_loop-Least :
      (fuel i j : ℕ)
      → j - i < fuel
      → Between i j
      → (r : ℕ) × (search_loop f fuel i j ≡ some r) × Least n f r
  unfolding search_loop narrow
  search_loop-Least zero i j h g = absurd (omega arith)
  search_loop-Least (suc fuel) i j h g =
      let m = (i + j) / 2 in
      elim (Bool-cases (ltb i j)) [
        | inr done ↦ rw done (
          i,
          refl,
          record {
            inside = omega (arith, g.ordered, g.inside);
            below = g.below;
            above = λ m le lt. g.above m (ground arith) lt;
          },
        )
        | inl more ↦ elim (Bool-cases (f m)) [
          | inl t ↦ rw more (
              rw t (
                search_loop-Least fuel i m (ground arith)
                  (narrow-Between i j true t (ground arith) g)))
          | inr e ↦ rw more (
              rw e (
                search_loop-Least fuel (m + 1) j (ground arith)
                  (narrow-Between i j false e (ground arith) g)))
        ]
      ]

  -- Where `f`, once true, stays true below `n`, `search` ends with the least index at which it is.
  pub search-Least : (r : ℕ) × (search n f ≡ some r) × Least n f r
  unfolding search
  search-Least = search_loop-Least (n + 1) 0 n (omega arith) (record {
    ordered = omega arith;
    inside = omega arith;
    below = λ m lt. absurd (omega arith);
    above = λ m le lt. absurd (omega arith);
  })
