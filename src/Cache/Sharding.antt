-- ===== src/Cache/Sharding.antt =====
-- The sharded cache: how the capacity is split over the shards, the invariant of all shards, and
-- `GetOrPut` and `Len` on them.
use native.Mathlib.Nat.{div-add-mod, div-eq-sub-div}
use remote_write_inspector.Prelude.{
  ℕ, zero, suc, ◌+◌, ◌-◌, ◌*◌, ◌/◌, ◌%◌, ◌≤◌, ◌<◌, ◌≡◌, refl, inl, inr, List, [], ◌∷◌, arith,
  length, ltb, if◌then◌else◌, Bool-cases, ltb→lt,
}
use remote_write_inspector.Prelude.Int.{ℤ, pos, pos_part, ltb_ℤ}
use remote_write_inspector.Cache.Types.{CircularCache}
use remote_write_inspector.Cache.{new_circular_cache, at_least_one}
use remote_write_inspector.Cache.Shards.{
  default_cache_shards, new_shards, new_state_cache, capacity,
}

-- The room of all shards together.
unfoldable pub total_room : {K V : Type 0} → List (CircularCache K V) → ℕ
total_room [] = 0
total_room (s ∷ rest) = s.max_entries + total_room rest

length-new_shards :
    (K V : Type 0) (n idx base extra : ℕ) (ttl : ℤ)
    → length (new_shards {K = K} {V = V} n idx base extra ttl) ≡ n
unfolding new_shards
length-new_shards K V zero idx base extra ttl = refl
length-new_shards K V (suc n) idx base extra ttl =
    omega (arith, length-new_shards K V n (idx + 1) base extra ttl)

total_room-new_shards :
    (K V : Type 0) (n idx base extra : ℕ) (ttl : ℤ)
    → 0 < base
    → extra ≤ idx + n
    → total_room (new_shards {K = K} {V = V} n idx base extra ttl) ≡ n * base + (extra - idx)
unfolding new_shards total_room new_circular_cache at_least_one
total_room-new_shards K V zero idx base extra ttl h le = omega arith
total_room-new_shards K V (suc n) idx base extra ttl h le =
    ground (arith, total_room-new_shards K V n (idx + 1) base extra ttl h)

at_least_one-pos : (n : ℤ) → 0 < at_least_one n
unfolding at_least_one
at_least_one-pos n = ground arith

even_split :
    (K V : Type 0) (size count : ℕ) (ttl : ℤ)
    → 0 < count
    → count ≤ size
    → total_room (new_shards {K = K} {V = V} count 0 (size / count) (size % count) ttl) ≡ size
even_split K V size count ttl h le =
    let whole : 0 < size / count = omega (arith, div-eq-sub-div h le) in
    omega (
      arith,
      total_room-new_shards K V count 0 (size / count) (size % count) ttl whole (omega arith),
      div-add-mod size count,
    )

-- However many entries are asked for, the shards of a new cache together hold exactly
-- `Capacity()` of them, there are between 1 and 64 shards, and `Capacity()` is what was asked for,
-- or 1 where that was not positive.
pub new_state_cache-total_room :
    (K V : Type 0) (n ttl : ℤ) (shard : K → ℕ)
    → let c = new_state_cache {V = V} n ttl shard in
      (total_room c.shards ≡ capacity c)
      × (0 < length c.shards)
      × (length c.shards ≤ 64)
      × (capacity c ≡ (if ltb_ℤ (pos 0) n then pos_part n else 1))
unfolding new_state_cache capacity
new_state_cache-total_room K V n ttl shard =
    let size = at_least_one n in
    let positive : 0 < at_least_one n = at_least_one-pos n in
    elim (Bool-cases (ltb size default_cache_shards)) [
      | inl t ↦ rw t (
        even_split K V size size ttl positive (omega arith),
        omega (arith, length-new_shards K V size 0 (size / size) (size % size) ttl),
        omega (arith, length-new_shards K V size 0 (size / size) (size % size) ttl, ltb→lt _ _ t),
        unfold at_least_one in refl,
      )
      | inr t ↦ rw t (
        even_split K V size 64 ttl (omega arith) (ground arith),
        omega (arith, length-new_shards K V 64 0 (size / 64) (size % 64) ttl),
        omega (arith, length-new_shards K V 64 0 (size / 64) (size % 64) ttl),
        unfold at_least_one in refl,
      )
    ]
