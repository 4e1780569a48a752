-- ===== src/Tests/Caches.antt =====
-- The caches at concrete inputs: keys and values are numbers, and a key is its own shard hash.
use remote_write_inspector.Prelude.{
  ℕ, ◌≤◌, ◌<◌, ◌≡◌, refl, List, [], ◌∷◌, Option, none, some, arith, length, get_elem?, ite,
  ℕ_discrete, if◌then◌else◌, false, map_get, map_put, subst,
}
use remote_write_inspector.Prelude.Int.{pos, pos_part, ltb_ℤ, ◌+ℤ◌}
use remote_write_inspector.Cache.Types.{CircularCache}
use remote_write_inspector.Cache.Eviction.{evictions, without}
use remote_write_inspector.Cache.Spec.{displaced, live, view}
use remote_write_inspector.Cache.{
  new_circular_cache, at_least_one, get, get_or_put, put, put_new, next_slot,
}
use remote_write_inspector.Cache.Shards.{
  StateCache, new_shards, new_state_cache, capacity, total_len, shard_for, state_get_or_put,
}
use remote_write_inspector.Cache.Sharding.{total_room, new_state_cache-total_room}
use remote_write_inspector.Cache.StateCalls.{AllValid, state_view, state_get_or_put_miss}
use remote_write_inspector.Cache.History.{
  Call, run, run-new_state_cache, new_state_cache-AllValid, get_or_put_again,
}

abbrev same_key : ℕ → ℕ
same_key k = k

-- Two entries for 10 nanoseconds, in two shards.
abbrev two_shards : StateCache ℕ ℕ
two_shards = new_state_cache (pos 2) (pos 10) same_key

abbrev one_slot : CircularCache ℕ ℕ
one_slot = new_circular_cache (pos 1) (pos 10)

abbrev two_shards-AllValid : AllValid ℕ_discrete two_shards.shards
two_shards-AllValid = new_state_cache-AllValid ℕ_discrete (pos 2) (pos 10) same_key

abbrev three_calls : List (Call ℕ ℕ)
three_calls =
    record { now = pos 0; later = pos 0; key = 4; value = 7 }
    ∷ record { now = pos 1; later = pos 1; key = 6; value = 8 }
    ∷ record { now = pos 2; later = pos 2; key = 5; value = 9 }
    ∷ []

run-new_state_cache_example :
    (c : StateCache ℕ ℕ) × (run ℕ_discrete (new_state_cache (pos 2) (pos 10) same_key) three_calls
      ≡ some c)
    × (total_len c.shards ≤ capacity (new_state_cache {V = ℕ} (pos 2) (pos 10) same_key))
run-new_state_cache_example = run-new_state_cache ℕ_discrete (pos 2) (pos 10) same_key three_calls

-- The cache after the key 4 was stored with the value 7 at time 0.
abbrev stored : Option (StateCache ℕ ℕ × Option ℕ × ℕ)
stored = state_get_or_put ℕ_discrete two_shards (pos 0) (pos 0) 4 7

abbrev after_store : StateCache ℕ ℕ
after_store = elim stored [ none ↦ two_shards | some (c, _, _) ↦ c ]

stored_lem : stored ≡ some (after_store, none, 0)
unfolding state_get_or_put shard_for new_state_cache new_shards at_least_one get_or_put get map_get
    new_circular_cache put put_new next_slot
stored_lem = refl

-- The shard of the key 4.
first_shard : get_elem? two_shards.shards (shard_for two_shards 4) ≡ some one_slot
unfolding shard_for new_state_cache new_shards at_least_one
first_shard = refl

not_held : live (pos 0) (state_view ℕ_discrete two_shards 4) ≡ none
unfolding state_view shard_for new_state_cache new_shards at_least_one view map_get
    new_circular_cache
not_held = refl

held : live (pos 5) (state_view ℕ_discrete after_store 4) ≡ some 7
unfolding state_view shard_for new_state_cache new_shards at_least_one view map_get
    new_circular_cache state_get_or_put get_or_put get put put_new next_slot map_put ℕ_discrete ◌+ℤ◌
held = refl

fresh : ltb_ℤ (pos 0 +ℤ one_slot.ttl) (pos 5) ≡ false
unfolding new_circular_cache ◌+ℤ◌
fresh = refl

after_store-AllValid : AllValid ℕ_discrete after_store.shards
after_store-AllValid =
    let (c, e, v, _, _) =
      state_get_or_put_miss ℕ_discrete two_shards two_shards-AllValid (pos 0) (pos 0) 4 7 one_slot
        first_shard not_held in
    let same : c ≡ after_store = ground (arith, stored_lem) in
    subst (λ d. AllValid ℕ_discrete d.shards) same v

get_or_put_again_example :
    state_get_or_put ℕ_discrete after_store (pos 5) (pos 6) 4 9 ≡ some (after_store, some 7, 0)
get_or_put_again_example =
    get_or_put_again ℕ_discrete two_shards after_store (pos 0) (pos 0) (pos 5) (pos 6) 4 7 9 0
      one_slot two_shards-AllValid first_shard stored_lem fresh

state_get_or_put_miss_example :
    (c' : StateCache ℕ ℕ) × (state_get_or_put ℕ_discrete two_shards (pos 0) (pos 0) 4 7
      ≡ some (c', none, evictions (displaced ℕ_discrete one_slot 4)))
    × AllValid ℕ_discrete c'.shards
    × ((j : ℕ)
        → state_view ℕ_discrete c' j
          ≡ ite
              (ℕ_discrete (shard_for two_shards 4) (shard_for two_shards j))
              (ite (ℕ_discrete 4 j) (some (7, pos 0 +ℤ one_slot.ttl)) (
                without ℕ_discrete
                  (displaced ℕ_discrete one_slot 4)
                  j
                  (state_view ℕ_discrete two_shards j)))
              (state_view ℕ_discrete two_shards j))
    × (total_room c'.shards ≡ total_room two_shards.shards)
state_get_or_put_miss_example =
    state_get_or_put_miss ℕ_discrete two_shards two_shards-AllValid (pos 0) (pos 0) 4 7 one_slot
      first_shard not_held

new_state_cache-total_room_example :
    (total_room two_shards.shards ≡ capacity two_shards)
    × (0 < length two_shards.shards)
    × (length two_shards.shards ≤ 64)
    × (capacity two_shards ≡ (if ltb_ℤ (pos 0) (pos 2) then pos_part (pos 2) else 1))
new_state_cache-total_room_example = new_state_cache-total_room ℕ ℕ (pos 2) (pos 10) same_key
