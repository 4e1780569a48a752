-- ===== src/Cache/Calls.antt =====
-- `Get`, `Put` and `GetOrPut` of one shard, on the map that the cache stands for.
use remote_write_inspector.Prelude.{
  ℕ, ◌≤◌, ◌<◌, ◌≡◌, refl, inl, inr, none, some, arith, length, ite, get_elem?, set, map_get,
  map_delete, map_get-map_delete, length-set, Bool-cases, sym, length-replicate,
}
use remote_write_inspector.Prelude.Int.{ℤ, ltb_ℤ, ◌+ℤ◌}
use remote_write_inspector.Cache.Types.{Slot, CircularCache}
use remote_write_inspector.Cache.Slots.{
  get_elem?-lt, get_elem?-set, occupied-set_keep, occupied-le-length, occupied-replicate,
  get_elem?-replicate,
}
use remote_write_inspector.Cache.Links.{Links-keep}
use remote_write_inspector.Cache.Invariant.{
  IsValid, Spare-set, Spare-NotIn, removed, removed-IsValid,
}
use remote_write_inspector.Cache.Eviction.{victim, evictions, without}
use remote_write_inspector.Cache.Spec.{
  displaced, live, unexpired, view, absent, present, find, view-removed, put_new-view,
}
use remote_write_inspector.Cache.{
  get, get_at, remove_slot, put, put_old, get_or_put, new_circular_cache, at_least_one,
}

module _ {K V : Type 0} (dec : Discrete K) (c : CircularCache K V) (v : IsValid dec c) where
  -- `Get` on a valid cache does not panic. It returns the unexpired value of the key, removes the
  -- key's expired entry and changes no other, and the cache stays valid.
  pub get-view :
      (now : ℤ) (k : K)
      → (c' : CircularCache K V) × (get dec c now k ≡ some (c', live now (view dec c k)))
        × IsValid dec c'
        × ((j : K) → view dec c' j ≡ ite (dec k j) (unexpired now (view dec c k)) (view dec c j))
  unfolding get get_at remove_slot
  get-view now k = elim (find dec c v.links k) [
    | absent e n ↦ (c, ground arith, v, λ j. ground arith)
    | present i s e at same w ↦ elim (Bool-cases (ltb_ℤ s.expires_at now)) [
      | inl t ↦ (
        removed dec c i s,
        ground arith,
        removed-IsValid dec c i s v at,
        λ j. ground (arith, view-removed dec c i s v.links at j),
      )
      | inr t ↦ (c, ground arith, v, λ j. ground arith)
    ]
  ]

  put_old-view :
      (now : ℤ) (k : K) (x : V) (i : ℕ) (s : Slot K V)
      → map_get dec k c.items ≡ some i
      → get_elem? c.slots i ≡ some (some s)
      → s.key ≡ k
      → (c' : CircularCache K V) × (put_old dec c now x i ≡ some (c', 0))
        × IsValid dec c'
        × ((j : K) → view dec c' j ≡ ite (dec k j) (some (x, now +ℤ c.ttl)) (view dec c j))
        × (c'.len ≡ c.len)
  unfolding put_old view
  put_old-view now k x i s e at same = (
    record c { slots = set c.slots i (some t) },
    rw at,
    record {
      ring = omega (arith, length-set c.slots i (some t), v.ring);
      links = Links-keep dec c.items c.slots i s t v.links at refl;
      fresh =
          λ j u h. ground (arith, get_elem?-set c.slots i j (some t) lt, v.fresh j u, v.fresh i s);
      spare =
          Spare-set c.slots c.used_slots i (some t) c.free lt
            (Spare-NotIn c.slots c.used_slots i s c.free at v.spare) v.spare;
      within = v.within;
      cursor = v.cursor;
      counted = omega (arith, occupied-set_keep c.slots i t s at, v.counted);
      balance = v.balance;
    },
    (λ j. elim (find dec c v.links j) [
      | absent f n ↦ ground (arith, get_elem?-set c.slots i i (some t) lt)
      | present p u f at' same' w ↦
          ground
            (arith, get_elem?-set c.slots i i (some t) lt, get_elem?-set c.slots i p (some t) lt)
    ]),
    refl,
  )
    where
      t : Slot K V
      t = record { key = s.key; value = x; expires_at = now +ℤ c.ttl }

      lt : i < length c.slots
      lt = get_elem?-lt c.slots i at

  -- Never more entries than the capacity.
  pub len-le-max_entries : c.len ≤ c.max_entries
  len-le-max_entries = omega (arith, v.counted, v.ring, occupied-le-length c.slots)

  -- `GetOrPut` of a key with an unexpired value returns that value and changes nothing.
  pub get_or_put_hit :
      (now later : ℤ) (k : K) (x y : V)
      → live now (view dec c k) ≡ some y
      → get_or_put dec c now later k x ≡ some (c, some y, 0)
  unfolding get_or_put get get_at
  get_or_put_hit now later k x y h = elim (find dec c v.links k) [
    | absent e n ↦ ground arith
    | present i s e at same w ↦ ground arith
  ]

  -- `GetOrPut` of any other key stores the value: no panic, the key is bound until `later + ttl`,
  -- and of the other keys only the displaced one is lost, which is counted as evicted.
  pub get_or_put_miss :
      (now later : ℤ) (k : K) (x : V)
      → live now (view dec c k) ≡ none
      → (c' : CircularCache K V) × (get_or_put dec c now later k x
          ≡ some (c', none, evictions (displaced dec c k)))
        × IsValid dec c'
        × ((j : K)
            → view dec c' j
              ≡ ite
                  (dec k j)
                  (some (x, later +ℤ c.ttl))
                  (without dec (displaced dec c k) j (view dec c j)))
        × (c'.max_entries ≡ c.max_entries)
        × (c'.ttl ≡ c.ttl)
  unfolding get_or_put get get_at remove_slot put displaced victim
  get_or_put_miss now later k x h = elim (find dec c v.links k) [
    | absent e n ↦
        let (c', run, valid, sees, _, t, m) = put_new-view dec c later k x v e in
        (c', ground arith, valid, (λ j. ground (arith, sees j)), m, t)
    | present i s e at same w ↦
        let v' = removed-IsValid dec c i s v at in
        let gone : map_get dec k (map_delete dec s.key c.items) ≡ none =
          ground (arith, map_get-map_delete dec k s.key c.items) in
        let (c', run, valid, sees, _, t, m) =
          put_new-view dec (removed dec c i s) later k x v' gone in
        (
          c',
          ground arith,
          valid,
          (λ j. ground (arith, sees j, view-removed dec c i s v.links at j)),
          m,
          t,
        )
  ]

-- A new cache is valid and empty, with room for at least one entry.
pub new_circular_cache-IsValid :
    {K V : Type 0} (dec : Discrete K) (n ttl : ℤ) → IsValid dec (new_circular_cache {V = V} n ttl)
unfolding new_circular_cache at_least_one map_get
new_circular_cache-IsValid {K} {V} dec n ttl = record {
  ring = length-replicate _ none;
  links = record {
    indexed = λ k i h. absurd (ground (arith, h));
    listed = λ i s h. absurd (ground (arith, get_elem?-replicate _ i none h));
  };
  fresh = λ i s h. absurd (ground (arith, get_elem?-replicate _ i none h));
  spare = tt;
  within = omega arith;
  cursor = ground arith;
  counted = sym (occupied-replicate (Slot K V) (at_least_one n));
  balance = omega arith;
}
