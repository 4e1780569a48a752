-- ===== src/Cache/StateCalls.antt =====
-- `GetOrPut` and `Len` of the sharded cache: what a call returns and stores, and that a cache never
-- outgrows its capacity.
use remote_write_inspector.Prelude.{
  ℕ, zero, suc, ◌≤◌, ◌<◌, ◌≡◌, refl, List, [], ◌∷◌, Option, none, some, arith, length, ite,
  ℕ_discrete, get_elem?, set, ◌>>=◌, ap, subst, set_same, length-set,
}
use remote_write_inspector.Prelude.Int.{ℤ, ◌+ℤ◌}
use remote_write_inspector.Cache.Types.{CircularCache}
use remote_write_inspector.Cache.Slots.{get_elem?-lt, get_elem?-set, get_elem?_total}
use remote_write_inspector.Cache.Invariant.{IsValid}
use remote_write_inspector.Cache.Eviction.{evictions, without}
use remote_write_inspector.Cache.Spec.{displaced, live, view}
use remote_write_inspector.Cache.Calls.{get_or_put_hit, get_or_put_miss, len-le-max_entries}
use remote_write_inspector.Cache.Shards.{StateCache, total_len, shard_for, state_get_or_put}
use remote_write_inspector.Cache.Sharding.{total_room}

total_room-set :
    {K V : Type 0} (shards : List (CircularCache K V)) (i : ℕ) (s s' : CircularCache K V)
    → get_elem? shards i ≡ some s
    → s'.max_entries ≡ s.max_entries
    → total_room (set shards i s') ≡ total_room shards
unfolding total_room
total_room-set [] i s s' at e = absurd (ground arith)
total_room-set (t ∷ ts) zero s s' at e =
    let same : t ≡ s = ground arith in omega (arith, ap (λ c. c.max_entries) same)
total_room-set (t ∷ ts) (suc i) s s' at e = omega (arith, total_room-set ts i s s' at e)

shard_for-set :
    {K V : Type 0} (c : StateCache K V) (i : ℕ) (s : CircularCache K V) (j : K)
    → shard_for (record c { shards = set c.shards i s }) j ≡ shard_for c j
unfolding shard_for
shard_for-set c i s j = rw (length-set c.shards i s)

module _ {K V : Type 0} (dec : Discrete K) where
  pub record AllValid (shards : List (CircularCache K V)) : Type 0 where
    pub some_shard : 0 < length shards
    pub each : (i : ℕ) (s : CircularCache K V) → get_elem? shards i ≡ some s → IsValid dec s

  -- The map that a sharded cache stands for.
  unfoldable pub state_view : StateCache K V → K → Option (V × ℤ)
  state_view c k = do s ← get_elem? c.shards (shard_for c k); view dec s k

  module _ (c : StateCache K V) (v : AllValid c.shards) where
    pub shard_at :
        (k : K)
        → (s : CircularCache K V) × (get_elem? c.shards (shard_for c k) ≡ some s) × IsValid dec s
    unfolding shard_for
    shard_at k =
        let (s, at) = get_elem?_total c.shards (shard_for c k) (omega (arith, v.some_shard)) in
        (s, at, v.each (shard_for c k) s at)

    -- On valid shards, a key with an unexpired value keeps it, whatever value is offered, and the
    -- cache is unchanged.
    pub state_get_or_put_hit :
        (now later : ℤ) (k : K) (x y : V)
        → live now (state_view c k) ≡ some y
        → state_get_or_put dec c now later k x ≡ some (c, some y, 0)
    unfolding state_get_or_put state_view
    state_get_or_put_hit now later k x y h =
        let (s, at, valid) = shard_at k in
        ground (
          arith,
          get_or_put_hit dec s valid now later k x y,
          set_same c.shards (shard_for c k) s at,
        )

    AllValid-set :
        (i : ℕ) (s' : CircularCache K V)
        → i < length c.shards
        → IsValid dec s'
        → AllValid (set c.shards i s')
    AllValid-set i s' lt valid = record {
      some_shard = omega (arith, length-set c.shards i s', v.some_shard);
      each = λ j t e. elim (ℕ_discrete i j) [
        | yes p ↦
            subst (IsValid dec) {x = s'} {y = t} (ground (arith, get_elem?-set c.shards i j s' lt))
              valid
        | no n ↦ v.each j t (ground (arith, get_elem?-set c.shards i j s' lt))
      ];
    }

    -- On valid shards, a key without an unexpired value is stored until `later` plus the lifetime
    -- of its shard. The call does not panic, evicts at most one entry, leaves the other shards
    -- alone, and in its own shard only the displaced entry is lost.
    pub state_get_or_put_miss :
        (now later : ℤ) (k : K) (x : V) (s : CircularCache K V)
        → get_elem? c.shards (shard_for c k) ≡ some s
        → live now (state_view c k) ≡ none
        → (c' : StateCache K V) × (state_get_or_put dec c now later k x
            ≡ some (c', none, evictions (displaced dec s k)))
          × AllValid c'.shards
          × ((j : K)
              → state_view c' j
                ≡ ite
                    (ℕ_discrete (shard_for c k) (shard_for c j))
                    (ite
                      (dec k j)
                      (some (x, later +ℤ s.ttl))
                      (without dec (displaced dec s k) j (state_view c j)))
                    (state_view c j))
          × (total_room c'.shards ≡ total_room c.shards)
    unfolding state_get_or_put state_view
    state_get_or_put_miss now later k x s at h =
        let (s', run, valid, sees, room, _) =
          get_or_put_miss dec s (v.each (shard_for c k) s at) now later k x
            (subst (λ o. live now (o >>= λ t. view dec t k) ≡ none) at h) in
        let lt = get_elem?-lt c.shards (shard_for c k) at in
        (
          record c { shards = set c.shards (shard_for c k) s' },
          ground (arith, run),
          AllValid-set (shard_for c k) s' lt valid,
          (λ j. ground (
            arith,
            shard_for-set c (shard_for c k) s' j,
            get_elem?-set c.shards (shard_for c k) (shard_for c j) s' lt,
            sees j,
          )),
          total_room-set c.shards (shard_for c k) s s' at room,
        )

-- A cache never holds more entries than its shards have room for.
pub total_len-le-total_room :
    {K V : Type 0} (dec : Discrete K) (shards : List (CircularCache K V))
    → ((i : ℕ) (s : CircularCache K V) → get_elem? shards i ≡ some s → IsValid dec s)
    → total_len shards ≤ total_room shards
unfolding total_len total_room
total_len-le-total_room dec [] v = omega arith
total_len-le-total_room dec (s ∷ rest) v = omega (
  arith,
  len-le-max_entries dec s (v 0 s refl),
  total_len-le-total_room dec rest (λ i t e. v (suc i) t e),
)
