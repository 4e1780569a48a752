-- ===== src/Cache/Types.antt =====
-- internal/inspector/cache.go: the types `cacheSlot` and `circularCache`.
use remote_write_inspector.Prelude.{ℕ, List, Option}
use remote_write_inspector.Prelude.Int.{ℤ}

-- A used slot. An unused one is Go's zero value, which is `none` in `slots`.
pub record Slot (K V : Type 0) : Type 0 where
  pub key : K
  pub value : V
  pub expires_at : ℤ

-- Indices and counters are never negative. The head of `free` is the end of the Go slice.
pub record CircularCache (K V : Type 0) : Type 0 where
  pub max_entries : ℕ
  pub ttl : ℤ
  pub items : List (K × ℕ)
  pub slots : List (Option (Slot K V))
  pub free : List ℕ
  pub used_slots : ℕ
  pub next_evict : ℕ
  pub len : ℕ
