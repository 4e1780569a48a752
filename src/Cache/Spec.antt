-- ===== src/Cache/Spec.antt =====
-- The cache as a finite map from keys to values with an expiry time, and what `Get`, `Put` and
-- `GetOrPut` do to that map. None of them panics on a valid cache.
use remote_write_inspector.Prelude.{
  ℕ, ◌+◌, ◌<◌, ◌≡◌, refl, inl, inr, Option, none, some, arith, length, ite, if◌then◌else◌,
  get_elem?, map_get, map_get-map_delete, map_get-map_put, ◌>>=◌, Option-cases, sym, ◌∙◌,
}
use remote_write_inspector.Prelude.Int.{ℤ, ltb_ℤ, ◌+ℤ◌}
use remote_write_inspector.Cache.Types.{Slot, CircularCache}
use remote_write_inspector.Cache.Slots.{get_elem?-lt, get_elem?-set, get_elem?_total}
use remote_write_inspector.Cache.Links.{Links}
use remote_write_inspector.Cache.Invariant.{IsValid, Ready, removed, filled, filled-IsValid}
use remote_write_inspector.Cache.Eviction.{
  occupant, victim, evictions, without, Chosen, next_slot-Chosen,
}
use remote_write_inspector.Cache.{put_new}

abbrev pub entry : {K V : Type 0} → Option (Slot K V) → Option (V × ℤ)
entry none = none
entry (some s) = some (s.value, s.expires_at)

-- The value of an entry that has not expired at `now`.
abbrev pub live : {V : Type 0} → ℤ → Option (V × ℤ) → Option V
live now none = none
live now (some (v, e)) = if ltb_ℤ e now then none else some v

abbrev pub unexpired : {V : Type 0} → ℤ → Option (V × ℤ) → Option (V × ℤ)
unexpired now none = none
unexpired now (some (v, e)) = if ltb_ℤ e now then none else some (v, e)

module _ {K V : Type 0} (dec : Discrete K) where
  -- The map that a cache stands for.
  unfoldable pub view : CircularCache K V → K → Option (V × ℤ)
  view c k = do i ← map_get dec k c.items; entry (occupant (get_elem? c.slots i))

  -- The entry that a store of `k` displaces: none if `k` holds an entry, expired or not, for its
  -- slot is free then.
  unfoldable pub displaced : CircularCache K V → K → Option (Slot K V)
  displaced c k = elim (view c k) [ some e ↦ none | none ↦ victim c ]

  -- A key is absent, or stands in the slot that `items` names.
  pub data Found (c : CircularCache K V) (k : K) : Type 0 where
    absent : map_get dec k c.items ≡ none → view c k ≡ none → Found c k
    present :
        (i : ℕ) (s : Slot K V)
        → map_get dec k c.items ≡ some i
        → get_elem? c.slots i ≡ some (some s)
        → s.key ≡ k
        → view c k ≡ some (s.value, s.expires_at)
        → Found c k

  pub find : (c : CircularCache K V) → Links dec c.items c.slots → (k : K) → Found c k
  unfolding view
  find c l k = elim (Option-cases (map_get dec k c.items)) [
    | inl e ↦ absent e (rw e)
    | inr (i, e) ↦ let (s, at, same) = l.indexed k i e in present i s e at same (rw e (rw at))
  ]

  pub view-removed :
      (c : CircularCache K V) (idx : ℕ) (s : Slot K V)
      → Links dec c.items c.slots
      → get_elem? c.slots idx ≡ some (some s)
      → (j : K) → view (removed dec c idx s) j ≡ ite (dec s.key j) none (view c j)
  unfolding view
  view-removed c idx s l at j = elim (find c l j) [
    | absent e n ↦ ground (arith, map_get-map_delete dec j s.key c.items)
    | present i t e at' same w ↦ ground (
      arith,
      map_get-map_delete dec j s.key c.items,
      get_elem?-set c.slots idx i none (get_elem?-lt c.slots idx at),
    )
  ]

  without->>= :
      {A B : Type 0} (w : Option (Slot K V)) (k : K) (m : Option A) (f : A → Option B)
      → without dec w k (m >>= f) ≡ (without dec w k m >>= f)
  without->>= none k m f = refl
  without->>= (some s) k m f = ground arith

  -- Choosing a slot takes the victim out of the map, and nothing else.
  view-Chosen :
      (c c' : CircularCache K V) (idx evicted : ℕ)
      → Chosen dec c c' idx evicted
      → (j : K) → view c' j ≡ without dec (victim c) j (view c j)
  unfolding view
  view-Chosen c c' idx evicted ch j =
      rw (ch.lookups j, ch.slots)
        (sym (
          without->>= (victim c) j (map_get dec j c.items)
            (λ i. entry (occupant (get_elem? c.slots i)))))

  view-filled :
      (c : CircularCache K V) (idx : ℕ) (s : Slot K V)
      → Ready dec c idx
      → (j : K)
      → view (filled dec c idx s) j ≡ ite (dec s.key j) (some (s.value, s.expires_at)) (view c j)
  unfolding view
  view-filled c idx s r j = elim (Option-cases (map_get dec j c.items)) [
    | inl e ↦
        ground (
          arith,
          map_get-map_put dec j s.key idx c.items,
          get_elem?-set c.slots idx idx (some s) lt,
        )
    | inr (i, e) ↦
        let (t, at, same) = r.links.indexed j i e in
        ground (
          arith,
          map_get-map_put dec j s.key idx c.items,
          get_elem?-set c.slots idx idx (some s) lt,
          get_elem?-set c.slots idx i (some s) lt,
          get_elem?-set c.slots idx i none lt,
        )
  ]
    where
      lt : idx < length c.slots
      lt = omega (arith, r.ring, r.below, r.within)

  -- `Put` of a key that the map does not hold: no panic, and the victim gives way.
  pub put_new-view :
      (c : CircularCache K V) (now : ℤ) (k : K) (x : V)
      → IsValid dec c
      → map_get dec k c.items ≡ none
      → (c' : CircularCache K V) × (put_new dec c now k x ≡ some (c', evictions (victim c)))
        × IsValid dec c'
        × ((j : K)
            → view c' j
              ≡ ite (dec k j) (some (x, now +ℤ c.ttl)) (without dec (victim c) j (view c j)))
        × (c'.len + evictions (victim c) ≡ c.len + 1)
        × (c'.ttl ≡ c.ttl)
        × (c'.max_entries ≡ c.max_entries)
  unfolding put_new
  put_new-view c now k x v absent_k =
      let (c1, idx, ev, e, ch) = next_slot-Chosen dec c v in
      let s : Slot K V = record { key = k; value = x; expires_at = now +ℤ c1.ttl } in
      let (o, at) =
        get_elem?_total c1.slots idx
          (omega (arith, ch.ready.ring, ch.ready.below, ch.ready.within)) in
      (
        filled dec c1 idx s,
        rw e (rw at (rw ch.count)),
        filled-IsValid dec c1 idx s ch.ready (ground (arith, ch.lookups k)),
        (λ j. view-filled c1 idx s ch.ready j ∙ rw (ch.ttl, view-Chosen c c1 idx ev ch j)),
        omega (arith, ch.size, ch.count),
        ch.ttl,
        ch.max_entries,
      )
