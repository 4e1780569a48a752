-- ===== src/Cache/Links.antt =====
-- The agreement of `items` with `slots`: a key is mapped to the slot that holds it, and every used
-- slot is listed under its key.
use remote_write_inspector.Prelude.{
  ℕ, ◌≡◌, List, Option, none, some, arith, ℕ_discrete, get_elem?, set, map_get, map_put, map_delete,
  map_get-map_put, map_get-map_delete,
}
use remote_write_inspector.Cache.Slots.{get_elem?-lt, get_elem?-set}
use remote_write_inspector.Cache.Types.{Slot}

module _ {K V : Type 0} (dec : Discrete K) where
  pub record Links (items : List (K × ℕ)) (slots : List (Option (Slot K V))) : Type 0 where
    pub indexed :
        (k : K) (i : ℕ)
        → map_get dec k items ≡ some i
        → (s : Slot K V) × (get_elem? slots i ≡ some (some s)) × (s.key ≡ k)
    pub listed :
        (i : ℕ) (s : Slot K V)
        → get_elem? slots i ≡ some (some s)
        → map_get dec s.key items ≡ some i

  -- An entry is removed from both.
  pub Links-clear :
      (items : List (K × ℕ)) (slots : List (Option (Slot K V))) (i : ℕ) (s : Slot K V)
      → Links items slots
      → get_elem? slots i ≡ some (some s)
      → Links (map_delete dec s.key items) (set slots i none)
  Links-clear items slots i s l at = record {
    indexed = λ k j h.
        let h' : map_get dec k items ≡ some j =
          ground (arith, map_get-map_delete dec k s.key items) in
        let (s', at', e) = l.indexed k j h' in
        (
          s',
          ground (
            arith,
            get_elem?-set slots i j none (get_elem?-lt slots i at),
            map_get-map_delete dec k s.key items,
          ),
          e,
        );
    listed = λ j s' h. ground (
      arith,
      get_elem?-set slots i j none (get_elem?-lt slots i at),
      map_get-map_delete dec s'.key s.key items,
      l.listed i s,
      l.listed j s',
    );
  }

  -- A new key is stored in an unused slot.
  pub Links-fill :
      (items : List (K × ℕ)) (slots : List (Option (Slot K V))) (i : ℕ) (s : Slot K V)
      → Links items slots
      → get_elem? slots i ≡ some none
      → map_get dec s.key items ≡ none
      → Links (map_put dec s.key i items) (set slots i (some s))
  Links-fill items slots i s l at absent = record {
    indexed = λ k j h. elim (dec s.key k) [
      | yes e ↦ (
        s,
        ground (
          arith,
          get_elem?-set slots i j (some s) (get_elem?-lt slots i at),
          map_get-map_put dec k s.key i items,
        ),
        e,
      )
      | no n ↦
          let h' : map_get dec k items ≡ some j =
            ground (arith, map_get-map_put dec k s.key i items) in
          let (s', at', e) = l.indexed k j h' in
          (s', ground (arith, get_elem?-set slots i j (some s) (get_elem?-lt slots i at)), e)
    ];
    listed = λ j s' h. ground (
      arith,
      get_elem?-set slots i j (some s) (get_elem?-lt slots i at),
      map_get-map_put dec s'.key s.key i items,
      l.listed j s',
    );
  }

  -- The value of a key is replaced in its slot.
  pub Links-keep :
      (items : List (K × ℕ)) (slots : List (Option (Slot K V))) (i : ℕ) (s t : Slot K V)
      → Links items slots
      → get_elem? slots i ≡ some (some s)
      → t.key ≡ s.key
      → Links items (set slots i (some t))
  Links-keep items slots i s t l at e = record {
    indexed = λ k j h.
        let (s', at', e') = l.indexed k j h in
        elim (ℕ_discrete i j) [
          | yes p ↦ (
            t,
            ground (arith, get_elem?-set slots i j (some t) (get_elem?-lt slots i at)),
            ground arith,
          )
          | no n ↦
              (s', ground (arith, get_elem?-set slots i j (some t) (get_elem?-lt slots i at)), e')
        ];
    listed = λ j s' h. ground (
      arith,
      get_elem?-set slots i j (some t) (get_elem?-lt slots i at),
      l.listed j s',
      l.listed i s,
    );
  }
