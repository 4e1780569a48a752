-- ===== src/Cache.antt =====
-- internal/inspector/cache.go: the fixed-capacity cache of one shard (`circularCache`) over a
-- ring of slots, and the sharded cache (`stateCache`). Every reading of the clock is an argument.
-- `none` is a run-time panic: an index out of range.
use remote_write_inspector.Prelude.{
  ℕ, ◌+◌, ◌-◌, ◌/◌, ◌%◌, List, [], ◌∷◌, Option, none, some, arith, ltb, if◌then◌else◌, length,
  get_elem?, set, replicate, ◌>>=◌, map_get, map_put, map_delete,
}
use remote_write_inspector.Prelude.Int.{ℤ, pos, pos_part, ◌+ℤ◌, ltb_ℤ}
pub mod Types
pub mod Slots
pub mod Links
pub mod Invariant
pub mod Eviction
pub mod Spec
pub mod Calls
pub mod Shards
pub mod Sharding
pub mod StateCalls
pub mod History
use Types.{Slot, CircularCache}

-- `maxEntries <= 0` becomes 1.
unfoldable pub at_least_one : ℤ → ℕ
at_least_one n = if ltb_ℤ (pos 0) n then pos_part n else 1

unfoldable pub new_circular_cache : {K V : Type 0} → ℤ → ℤ → CircularCache K V
new_circular_cache n ttl = record {
  max_entries = at_least_one n;
  ttl = ttl;
  items = [];
  slots = replicate (at_least_one n) none;
  free = [];
  used_slots = 0;
  next_evict = 0;
  len = 0;
}

module _ {K V : Type 0} (dec : Discrete K) where
  -- `removeSlot`.
  unfoldable pub remove_slot : CircularCache K V → ℕ → Option (CircularCache K V)
  remove_slot c idx = do
    slot ← get_elem? c.slots idx
    elim slot [
      | none ↦ some c
      | some s ↦ some (record c {
        items = map_delete dec s.key c.items;
        slots = set c.slots idx none;
        free = idx ∷ c.free;
        len = c.len - 1;
      })
    ]

  -- `Get`, after the map lookup found `idx`.
  unfoldable pub get_at : CircularCache K V → ℤ → K → ℕ → Option (CircularCache K V × Option V)
  get_at c now key idx = do
    slot ← get_elem? c.slots idx
    elim slot [
      | none ↦ some (record c { items = map_delete dec key c.items }, none)
      | some s ↦
          if ltb_ℤ s.expires_at now
          then (do c' ← remove_slot c idx; some (c', none))
          else some (c, some s.value)
    ]

  -- `Get` at time `now`.
  unfoldable pub get : CircularCache K V → ℤ → K → Option (CircularCache K V × Option V)
  get c now key = elim (map_get dec key c.items) [
    | none ↦ some (c, none)
    | some idx ↦ get_at c now key idx
  ]

  -- `nextSlot`, where no free slot is left and every slot has been used: `nextEvict` moves on.
  unfoldable pub evict_slot : CircularCache K V → Option (CircularCache K V × ℕ × ℕ)
  evict_slot c =
      let idx = c.next_evict in
      let c' = record c { next_evict = (c.next_evict + 1) % c.max_entries } in
      do
        slot ← get_elem? c.slots idx
        elim slot [
          | none ↦ some (c', idx, 0)
          | some s ↦
              some (record c' { items = map_delete dec s.key c.items; len = c.len - 1 }, idx, 1)
        ]

  -- `nextSlot`: the slot to write, and how many entries were evicted for it.
  unfoldable pub next_slot : CircularCache K V → Option (CircularCache K V × ℕ × ℕ)
  next_slot c = elim c.free [
    | idx ∷ rest ↦ some (record c { free = rest }, idx, 0)
    | [] ↦
        if ltb c.used_slots c.max_entries
        then some (record c { used_slots = c.used_slots + 1 }, c.used_slots, 0)
        else evict_slot c
  ]

  -- `Put` of a key that the map does not hold.
  unfoldable pub put_new : CircularCache K V → ℤ → K → V → Option (CircularCache K V × ℕ)
  put_new c now key value = do
    (c', idx, evicted) ← next_slot c
    _ ← get_elem? c'.slots idx
    some (
      record c' {
        slots =
            set c'.slots idx
              (some (record { key = key; value = value; expires_at = now +ℤ c'.ttl }));
        items = map_put dec key idx c'.items;
        len = c'.len + 1;
      },
      evicted,
    )

  -- `Put` of a key that the map holds at `idx`.
  unfoldable pub put_old : CircularCache K V → ℤ → V → ℕ → Option (CircularCache K V × ℕ)
  put_old c now value idx = do
    slot ← get_elem? c.slots idx
    elim slot [
      | none ↦ none
      | some s ↦ some (
        record c {
          slots =
              set c.slots idx
                (some (record { key = s.key; value = value; expires_at = now +ℤ c.ttl }));
        },
        0,
      )
    ]

  -- `Put` at time `now`; the result counts the evicted entries.
  unfoldable pub put : CircularCache K V → ℤ → K → V → Option (CircularCache K V × ℕ)
  put c now key value = elim (map_get dec key c.items) [
    | some idx ↦ put_old c now value idx
    | none ↦ put_new c now key value
  ]

  -- `GetOrPut` under the lock of one shard. The clock is read in `Get` and again in `Put`.
  unfoldable pub get_or_put :
      CircularCache K V → ℤ → ℤ → K → V → Option (CircularCache K V × Option V × ℕ)
  get_or_put c now later key value = do
    (c', existing) ← get c now key
    elim existing [
      | some v ↦ some (c', some v, 0)
      | none ↦ do (c'', evicted) ← put c' later key value; some (c'', none, evicted)
    ]
