-- ===== src/Cache/Invariant.antt =====
-- The invariant of `circularCache`, and that `removeSlot` and the slot choice keep what it needs.
use remote_write_inspector.Prelude.{
  ℕ, ◌+◌, ◌-◌, ◌≤◌, ◌<◌, ◌≡◌, List, [], ◌∷◌, Option, none, some, arith, length, get_elem?, set,
  map_get, map_put, map_delete, length-set, get_elem?-set_self, set-set, subst, ap,
}
use remote_write_inspector.Cache.Types.{Slot, CircularCache}
use remote_write_inspector.Cache.Slots.{
  get_elem?-lt, get_elem?-set, occupied, occupied-set_fill, occupied-set_clear, NotIn,
}
use remote_write_inspector.Cache.Links.{Links, Links-clear, Links-fill}

module _ {K V : Type 0} where
  -- The free list holds distinct unused slots below `used`.
  abbrev pub Spare : List (Option (Slot K V)) → ℕ → List ℕ → Type 0
  Spare slots used [] = Unit {0}
  Spare slots used (i ∷ is) =
      (i < used) × (get_elem? slots i ≡ some none) × NotIn i is × Spare slots used is

  pub Spare-NotIn :
      (slots : List (Option (Slot K V))) (used i : ℕ) (s : Slot K V) (is : List ℕ)
      → get_elem? slots i ≡ some (some s)
      → Spare slots used is
      → NotIn i is
  Spare-NotIn slots used i s [] at sp = tt
  Spare-NotIn slots used i s (j ∷ is) at sp = (ground arith, Spare-NotIn slots used i s is at sp.3)

  pub Spare-set :
      (slots : List (Option (Slot K V))) (used i : ℕ) (x : Option (Slot K V)) (is : List ℕ)
      → i < length slots
      → NotIn i is
      → Spare slots used is
      → Spare (set slots i x) used is
  Spare-set slots used i x [] lt n sp = tt
  Spare-set slots used i x (j ∷ is) lt n sp = (
    sp.0,
    ground (arith, get_elem?-set slots i j x lt),
    sp.2,
    Spare-set slots used i x is lt n.1 sp.3,
  )

  pub Spare-mono :
      (slots : List (Option (Slot K V))) (used more : ℕ) (is : List ℕ)
      → used ≤ more
      → Spare slots used is
      → Spare slots more is
  Spare-mono slots used more [] le sp = tt
  Spare-mono slots used more (j ∷ is) le sp =
      (omega arith, sp.1, sp.2, Spare-mono slots used more is le sp.3)

  -- A slot that was never used is in no free list.
  pub Spare-NotIn_fresh :
      (slots : List (Option (Slot K V))) (used i : ℕ) (is : List ℕ)
      → used ≤ i
      → Spare slots used is
      → NotIn i is
  Spare-NotIn_fresh slots used i [] le sp = tt
  Spare-NotIn_fresh slots used i (j ∷ is) le sp =
      (omega arith, Spare-NotIn_fresh slots used i is le sp.3)

module _ {K V : Type 0} (dec : Discrete K) where
  pub record IsValid (c : CircularCache K V) : Type 0 where
    pub ring : length c.slots ≡ c.max_entries
    pub links : Links dec c.items c.slots
    pub fresh : (i : ℕ) (s : Slot K V) → get_elem? c.slots i ≡ some (some s) → i < c.used_slots
    pub spare : Spare c.slots c.used_slots c.free
    pub within : c.used_slots ≤ c.max_entries
    pub cursor : c.next_evict < c.max_entries
    pub counted : c.len ≡ occupied c.slots
    pub balance : c.len + length c.free ≡ c.used_slots

  -- The cache with the entry in slot `idx` removed.
  abbrev pub removed : CircularCache K V → ℕ → Slot K V → CircularCache K V
  removed c idx s = record c {
    items = map_delete dec s.key c.items;
    slots = set c.slots idx none;
    free = idx ∷ c.free;
    len = c.len - 1;
  }

  pub removed-IsValid :
      (c : CircularCache K V) (idx : ℕ) (s : Slot K V)
      → IsValid c
      → get_elem? c.slots idx ≡ some (some s)
      → IsValid (removed c idx s)
  removed-IsValid c idx s v at = record {
    ring = omega (arith, length-set c.slots idx none, v.ring);
    links = Links-clear dec c.items c.slots idx s v.links at;
    fresh = λ i t h. ground (arith, get_elem?-set c.slots idx i none lt, v.fresh i t);
    spare = (
      v.fresh idx s at,
      ground (arith, get_elem?-set c.slots idx idx none lt),
      Spare-NotIn c.slots c.used_slots idx s c.free at v.spare,
      Spare-set c.slots c.used_slots idx none c.free lt
          (Spare-NotIn c.slots c.used_slots idx s c.free at v.spare) v.spare,
    );
    within = v.within;
    cursor = v.cursor;
    counted = omega (arith, occupied-set_clear c.slots idx s at, v.counted);
    balance = omega (arith, occupied-set_clear c.slots idx s at, v.counted, v.balance);
  }
    where
      lt : idx < length c.slots
      lt = get_elem?-lt c.slots idx at

  -- Slot `idx` of `c` may be overwritten: with that slot cleared, all holds but the balance.
  pub record Ready (c : CircularCache K V) (idx : ℕ) : Type 0 where
    pub ring : length c.slots ≡ c.max_entries
    pub links : Links dec c.items (set c.slots idx none)
    pub below : idx < c.used_slots
    pub fresh : (i : ℕ) (s : Slot K V) → get_elem? c.slots i ≡ some (some s) → i < c.used_slots
    pub spare : Spare c.slots c.used_slots c.free
    pub apart : NotIn idx c.free
    pub within : c.used_slots ≤ c.max_entries
    pub cursor : c.next_evict < c.max_entries
    pub counted : c.len ≡ occupied (set c.slots idx none)
    pub balance : c.len + length c.free + 1 ≡ c.used_slots

  abbrev pub filled : CircularCache K V → ℕ → Slot K V → CircularCache K V
  filled c idx s = record c {
    slots = set c.slots idx (some s);
    items = map_put dec s.key idx c.items;
    len = c.len + 1;
  }

  pub filled-IsValid :
      (c : CircularCache K V) (idx : ℕ) (s : Slot K V)
      → Ready c idx
      → map_get dec s.key c.items ≡ none
      → IsValid (filled c idx s)
  filled-IsValid c idx s r absent = record {
    ring = omega (arith, length-set c.slots idx (some s), r.ring);
    links =
        subst (λ slots. Links dec (map_put dec s.key idx c.items) slots)
          (set-set c.slots idx none (some s))
          (Links-fill dec c.items (set c.slots idx none) idx s r.links emptied absent);
    fresh = λ i t h.
        ground (arith, get_elem?-set c.slots idx i (some s) (omega arith), r.fresh i t, r.below);
    spare = Spare-set c.slots c.used_slots idx (some s) c.free lt r.apart r.spare;
    within = r.within;
    cursor = r.cursor;
    counted = omega (
      arith,
      occupied-set_fill (set c.slots idx none) idx s emptied,
      ap occupied (set-set c.slots idx none (some s)),
      r.counted,
    );
    balance = omega (arith, r.balance);
  }
    where
      lt : idx < length c.slots
      lt = omega (arith, r.ring, r.below, r.within)

      emptied : get_elem? (set c.slots idx none) idx ≡ some none
      emptied = get_elem?-set_self c.slots idx none lt
