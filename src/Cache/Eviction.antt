-- ===== src/Cache/Eviction.antt =====
-- The slot that `nextSlot` chooses, and the entry that gives way to it.
use remote_write_inspector.Prelude.{
  ℕ, ◌+◌, ◌-◌, ◌%◌, ◌<◌, ◌≡◌, refl, inl, inr, List, [], ◌∷◌, Option, none, some, arith, length, ite,
  ltb, lt→ltb, if◌then◌else◌, get_elem?, map_get, map_delete, map_get-map_delete, Bool-cases,
  ltb→lt, ap, set_same, subst, sym, false,
}
use remote_write_inspector.Cache.Types.{Slot, CircularCache}
use remote_write_inspector.Cache.Slots.{
  get_elem?_total, occupied, occupied_full, occupied-set_clear,
}
use remote_write_inspector.Cache.Links.{Links, Links-clear}
use remote_write_inspector.Cache.Invariant.{
  IsValid, Ready, Spare, Spare-NotIn, Spare-mono, Spare-NotIn_fresh,
}
use remote_write_inspector.Cache.{next_slot, evict_slot}

-- A slot out of range or unused holds nothing.
abbrev pub occupant : {K V : Type 0} → Option (Option (Slot K V)) → Option (Slot K V)
occupant none = none
occupant (some s) = s

-- The entry that gives way to a new key: none while a slot is free or was never used, and then the
-- one under the cursor.
unfoldable pub victim : {K V : Type 0} → CircularCache K V → Option (Slot K V)
victim c = elim c.free [
  | idx ∷ rest ↦ none
  | [] ↦ if ltb c.used_slots c.max_entries then none else occupant (get_elem? c.slots c.next_evict)
]

abbrev pub evictions : {K V : Type 0} → Option (Slot K V) → ℕ
evictions none = 0
evictions (some s) = 1

module _ {K V : Type 0} (dec : Discrete K) where
  -- What a lookup of `k` gives once the victim is gone.
  abbrev pub without : {A : Type 0} → Option (Slot K V) → K → Option A → Option A
  without none k x = x
  without (some s) k x = ite (dec s.key k) none x

  -- What `nextSlot` returns on a valid cache `c`.
  pub record Chosen (c c' : CircularCache K V) (idx evicted : ℕ) : Type 0 where
    pub ready : Ready dec c' idx
    pub slots : c'.slots ≡ c.slots
    pub ttl : c'.ttl ≡ c.ttl
    pub max_entries : c'.max_entries ≡ c.max_entries
    pub lookups : (k : K) → map_get dec k c'.items ≡ without (victim c) k (map_get dec k c.items)
    pub count : evicted ≡ evictions (victim c)
    pub size : c'.len + evicted ≡ c.len

  module _ (c : CircularCache K V) (v : IsValid dec c) where
    reuse_free :
        (idx : ℕ) (rest : List ℕ) → c.free ≡ idx ∷ rest → Chosen c (record c { free = rest }) idx 0
    unfolding victim
    reuse_free idx rest e =
        let sp : Spare c.slots c.used_slots (idx ∷ rest) =
          subst (Spare c.slots c.used_slots) e v.spare in
        let same = set_same c.slots idx none sp.1 in
        record {
          ready = record {
            ring = v.ring;
            links = subst (Links dec c.items) (sym same) v.links;
            below = sp.0;
            fresh = v.fresh;
            spare = sp.3;
            apart = sp.2;
            within = v.within;
            cursor = v.cursor;
            counted = omega (arith, ap occupied same, v.counted);
            balance = omega (arith, v.balance, ap length e);
          };
          slots = refl;
          ttl = refl;
          max_entries = refl;
          lookups = λ k. rw (e, victim);
          count = rw (e, victim);
          size = omega arith;
        }

    take_fresh :
        c.free ≡ []
        → c.used_slots < c.max_entries
        → Chosen c (record c { used_slots = c.used_slots + 1 }) c.used_slots 0
    unfolding victim
    take_fresh e lt =
        let (o, at) = get_elem?_total c.slots c.used_slots (omega (arith, v.ring)) in
        let at' : get_elem? c.slots c.used_slots ≡ some none = unused o at in
        let same = set_same c.slots c.used_slots none at' in
        record {
          ready = record {
            ring = v.ring;
            links = subst (Links dec c.items) (sym same) v.links;
            below = omega arith;
            fresh = λ i s h. omega (arith, v.fresh i s h);
            spare = Spare-mono c.slots c.used_slots (c.used_slots + 1) c.free (omega arith) v.spare;
            apart =
                Spare-NotIn_fresh c.slots c.used_slots c.used_slots c.free (omega arith) v.spare;
            within = omega arith;
            cursor = v.cursor;
            counted = omega (arith, ap occupied same, v.counted);
            balance = omega (arith, v.balance);
          };
          slots = refl;
          ttl = refl;
          max_entries = refl;
          lookups = λ k. rw (e, victim) (rw (lt→ltb _ _ lt));
          count = rw (e, victim) (rw (lt→ltb _ _ lt));
          size = omega arith;
        }
      where
        unused :
            (o : Option (Slot K V))
            → get_elem? c.slots c.used_slots ≡ some o
            → get_elem? c.slots c.used_slots ≡ some none
        unused none h = h
        unused (some s) h = absurd (omega (arith, v.fresh c.used_slots s h))

    -- A full cache has every slot in use, so the cursor's slot holds an entry.
    cursor_used :
        c.free ≡ []
        → ltb c.used_slots c.max_entries ≡ false
        → (s : Slot K V) × (get_elem? c.slots c.next_evict ≡ some (some s))
    cursor_used e full =
        let all : c.used_slots ≡ c.max_entries = ground (arith, v.within) in
        occupied_full c.slots c.next_evict
          (omega (arith, ap length e, v.balance, v.counted, v.ring))
          (omega (arith, v.cursor, v.ring))

    evict_cursor :
        (s : Slot K V)
        → c.free ≡ []
        → ltb c.used_slots c.max_entries ≡ false
        → get_elem? c.slots c.next_evict ≡ some (some s)
        → Chosen c
            (record c {
              next_evict = (c.next_evict + 1) % c.max_entries;
              items = map_delete dec s.key c.items;
              len = c.len - 1;
            })
            c.next_evict
            1
    unfolding victim
    evict_cursor s e full at =
        let cleared = occupied-set_clear c.slots c.next_evict s at in
        record {
          ready = record {
            ring = v.ring;
            links = Links-clear dec c.items c.slots c.next_evict s v.links at;
            below = v.fresh c.next_evict s at;
            fresh = v.fresh;
            spare = v.spare;
            apart = Spare-NotIn c.slots c.used_slots c.next_evict s c.free at v.spare;
            within = v.within;
            cursor = omega (arith, v.cursor);
            counted = omega (arith, cleared, v.counted);
            balance = omega (arith, cleared, v.counted, v.balance);
          };
          slots = refl;
          ttl = refl;
          max_entries = refl;
          lookups = λ k. rw (e, victim) (rw full (rw at (map_get-map_delete dec k s.key c.items)));
          count = rw (e, victim) (rw full (rw at));
          size = omega (arith, cleared, v.counted);
        }

    choose :
        (fr : List ℕ)
        → c.free ≡ fr
        → (c' : CircularCache K V) × (idx : ℕ) × (evicted : ℕ) × (next_slot dec c
            ≡ some (c', idx, evicted))
          × Chosen c c' idx evicted
    unfolding next_slot evict_slot
    choose (idx ∷ rest) e = (_, idx, 0, ground arith, reuse_free idx rest e)
    choose [] e = elim (Bool-cases (ltb c.used_slots c.max_entries)) [
      | inl t ↦ (_, c.used_slots, 0, ground arith, take_fresh e (ltb→lt _ _ t))
      | inr t ↦
          let (s, at) = cursor_used e t in (_, c.next_evict, 1, ground arith, evict_cursor s e t at)
    ]

    -- `nextSlot` never panics, and returns a slot that may be overwritten.
    pub next_slot-Chosen :
        (c' : CircularCache K V) × (idx : ℕ) × (evicted : ℕ) × (next_slot dec c
          ≡ some (c', idx, evicted))
        × Chosen c c' idx evicted
    next_slot-Chosen = choose c.free refl
