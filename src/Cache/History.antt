-- ===== src/Cache/History.antt =====
-- Sequences of `GetOrPut` calls on a sharded cache.
use remote_write_inspector.Prelude.{
  ℕ, zero, suc, ◌+◌, ◌≤◌, ◌≡◌, refl, List, [], ◌∷◌, Option, none, some, arith, get_elem?, ltb,
  if◌then◌else◌, ◌>>=◌, Option-cases, subst, false, inl, inr,
}
use remote_write_inspector.Prelude.Int.{ℤ, pos, ltb_ℤ, ◌+ℤ◌}
use remote_write_inspector.Cache.Types.{CircularCache}
use remote_write_inspector.Cache.Invariant.{IsValid}
use remote_write_inspector.Cache.Spec.{live}
use remote_write_inspector.Cache.Calls.{new_circular_cache-IsValid}
use remote_write_inspector.Cache.Shards.{
  StateCache, new_shards, new_state_cache, capacity, total_len, shard_for, state_get_or_put,
}
use remote_write_inspector.Cache.Sharding.{total_room, new_state_cache-total_room}
use remote_write_inspector.Cache.StateCalls.{
  AllValid, state_view, shard_at, state_get_or_put_hit, state_get_or_put_miss,
  total_len-le-total_room,
}

-- One call: the two readings of the clock, the key and the value offered for it.
pub record Call (K V : Type 0) : Type 0 where
  pub now : ℤ
  pub later : ℤ
  pub key : K
  pub value : V

new_shards-IsValid :
    {K V : Type 0} (dec : Discrete K) (n idx base extra : ℕ) (ttl : ℤ) (i : ℕ)
    (s : CircularCache K V)
    → get_elem? (new_shards n idx base extra ttl) i ≡ some s
    → IsValid dec s
unfolding new_shards
new_shards-IsValid dec zero idx base extra ttl i s e = absurd (ground arith)
new_shards-IsValid dec (suc n) idx base extra ttl zero s e =
    subst (IsValid dec) {y = s} (ground arith)
      (new_circular_cache-IsValid dec (pos (if ltb idx extra then base + 1 else base)) ttl)
new_shards-IsValid dec (suc n) idx base extra ttl (suc i) s e =
    new_shards-IsValid dec n (idx + 1) base extra ttl i s e

pub new_state_cache-AllValid :
    {K V : Type 0} (dec : Discrete K) (n ttl : ℤ) (shard : K → ℕ)
    → AllValid dec (new_state_cache {V = V} n ttl shard).shards
unfolding new_state_cache
new_state_cache-AllValid {K} {V} dec n ttl shard = record {
  some_shard = (new_state_cache-total_room K V n ttl shard).1;
  each = new_shards-IsValid dec _ 0 _ _ ttl;
}

module _ {K V : Type 0} (dec : Discrete K) where
  unfoldable pub run : StateCache K V → List (Call K V) → Option (StateCache K V)
  run c [] = some c
  run c (call ∷ calls) = do
    (c', _, _) ← state_get_or_put dec c call.now call.later call.key call.value
    run c' calls

  run_keeps :
      (c : StateCache K V) (calls : List (Call K V))
      → AllValid dec c.shards
      → (c' : StateCache K V) × (run c calls ≡ some c')
        × AllValid dec c'.shards
        × (total_room c'.shards ≡ total_room c.shards)
  unfolding run
  run_keeps c [] v = (c, refl, v, refl)
  run_keeps c (call ∷ calls) v =
      let (s, at, _) = shard_at dec c v call.key in
      elim (Option-cases (live call.now (state_view dec c call.key))) [
        | inl miss ↦
            let (c1, e, v1, _, room) =
              state_get_or_put_miss dec c v call.now call.later call.key call.value s at miss in
            let (c', e', v', room') = run_keeps c1 calls v1 in
            (c', rw e e', v', omega (arith, room, room'))
        | inr (y, hit) ↦
            let (c', e', v', room') = run_keeps c calls v in
            (
              c',
              rw (state_get_or_put_hit dec c v call.now call.later call.key call.value y hit) e',
              v',
              room',
            )
      ]

  -- Whatever calls are made on a new cache, in whatever order and at whatever times, none of them
  -- panics, and the cache never holds more entries than `Capacity()`.
  pub run-new_state_cache :
      (n ttl : ℤ) (shard : K → ℕ) (calls : List (Call K V))
      → (c : StateCache K V) × (run (new_state_cache n ttl shard) calls ≡ some c)
        × (total_len c.shards ≤ capacity (new_state_cache {V = V} n ttl shard))
  run-new_state_cache n ttl shard calls =
      let (c, e, v, room) =
        run_keeps (new_state_cache n ttl shard) calls (new_state_cache-AllValid dec n ttl shard) in
      (
        c,
        e,
        omega (
          arith,
          total_len-le-total_room dec c.shards v.each,
          room,
          (new_state_cache-total_room K V n ttl shard).0,
        ),
      )

  -- On valid shards, a value that a call has stored is what the next call finds, with no other
  -- call in between, where it is for the same key and the lifetime has not passed, whatever value
  -- it offers; and it changes nothing.
  pub get_or_put_again :
      (c c' : StateCache K V) (now later now' later' : ℤ) (k : K) (x y : V) (evicted : ℕ)
      (s : CircularCache K V)
      → AllValid dec c.shards
      → get_elem? c.shards (shard_for c k) ≡ some s
      → state_get_or_put dec c now later k x ≡ some (c', none, evicted)
      → ltb_ℤ (later +ℤ s.ttl) now' ≡ false
      → state_get_or_put dec c' now' later' k y ≡ some (c', some x, 0)
  get_or_put_again c c' now later now' later' k x y evicted s v at e fresh =
      elim (Option-cases (live now (state_view dec c k))) [
        | inl miss ↦
            let (c1, e1, v1, sees, _) = state_get_or_put_miss dec c v now later k x s at miss in
            let same : c1 ≡ c' = ground arith in
            subst (λ d. state_get_or_put dec d now' later' k y ≡ some (d, some x, 0)) same
              (state_get_or_put_hit dec c1 v1 now' later' k y x (ground (arith, sees k)))
        | inr (z, hit) ↦ absurd (ground (arith, state_get_or_put_hit dec c v now later k x z hit))
      ]
