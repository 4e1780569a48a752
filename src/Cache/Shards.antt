-- ===== src/Cache/Shards.antt =====
-- internal/inspector/cache.go: `stateCache`, which spreads its entries over shards that are locked
-- one by one. A call holds the lock of its key's shard, so calls are steps on the list of shards.
use remote_write_inspector.Prelude.{
  ℕ, zero, suc, ◌+◌, ◌/◌, ◌%◌, List, [], ◌∷◌, Option, some, ltb, if◌then◌else◌, length, get_elem?,
  set, ◌>>=◌,
}
use remote_write_inspector.Prelude.Int.{ℤ, pos}
use remote_write_inspector.Cache.Types.{CircularCache}
use remote_write_inspector.Cache.{at_least_one, new_circular_cache, get_or_put}

pub record StateCache (K V : Type 0) : Type 0 where
  pub shards : List (CircularCache K V)
  pub shard : K → ℕ
  pub size : ℕ

abbrev pub default_cache_shards : ℕ
default_cache_shards = 64

-- The loop of `newStateCache` over the shards from `idx` on: the first `extra` hold one entry more.
unfoldable pub new_shards : {K V : Type 0} → ℕ → ℕ → ℕ → ℕ → ℤ → List (CircularCache K V)
new_shards zero idx base extra ttl = []
new_shards (suc n) idx base extra ttl =
    new_circular_cache (pos (if ltb idx extra then base + 1 else base)) ttl
    ∷ new_shards n (idx + 1) base extra ttl

unfoldable pub new_state_cache : {K V : Type 0} → ℤ → ℤ → (K → ℕ) → StateCache K V
new_state_cache max_entries ttl shard =
    let size = at_least_one max_entries in
    let shard_count = if ltb size default_cache_shards then size else default_cache_shards in
    record {
      shards = new_shards shard_count 0 (size / shard_count) (size % shard_count) ttl;
      shard = shard;
      size = size;
    }

-- `Capacity`.
unfoldable pub capacity : {K V : Type 0} → StateCache K V → ℕ
capacity c = c.size

-- `Len`: the sum over the shards.
unfoldable pub total_len : {K V : Type 0} → List (CircularCache K V) → ℕ
total_len [] = 0
total_len (s ∷ rest) = s.len + total_len rest

-- `shardFor`: the index of the key's shard.
unfoldable pub shard_for : {K V : Type 0} → StateCache K V → K → ℕ
shard_for c key = c.shard key % length c.shards

module _ {K V : Type 0} (dec : Discrete K) where
  -- `GetOrPut`.
  unfoldable pub state_get_or_put :
      StateCache K V → ℤ → ℤ → K → V → Option (StateCache K V × Option V × ℕ)
  state_get_or_put c now later key value = do
    s ← get_elem? c.shards (shard_for c key)
    (s', existing, evicted) ← get_or_put dec s now later key value
    some (record c { shards = set c.shards (shard_for c key) s' }, existing, evicted)
