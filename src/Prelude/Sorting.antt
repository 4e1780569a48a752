-- ===== src/Prelude/Sorting.antt =====
-- `sort.Slice` over a total strict order, as insertion sort. Elements that the order does not tell
-- apart are equal, so every sorting algorithm gives this result.
use mathlib.Core.List.{Perm, Permᴰ}
use mathlib.Core.List.Perm
use mathlib.Core.Logic.{∥∥₁_elim}
use remote_write_inspector.Prelude.{
  ◌≡◌, refl, ◌∙◌, Bool, true, false, List, [], ◌∷◌, arith, if◌then◌else◌, Bool-cases, inl, inr,
}

pub record StrictOrder {A : Type 0} (less : A → A → Bool) : Type 0 where
  pub asymm : (a b : A) → less a b ≡ true → less b a ≡ false
  pub trans : (a b c : A) → less a b ≡ true → less b c ≡ true → less a c ≡ true
  pub total : (a b : A) → less a b ≡ false → less b a ≡ false → a ≡ b

module _ {A : Type 0} (less : A → A → Bool) where
  unfoldable pub insert_sorted : A → List A → List A
  insert_sorted x [] = x ∷ []
  insert_sorted x (y ∷ ys) = if less y x then y ∷ insert_sorted x ys else x ∷ y ∷ ys

  unfoldable pub sort : List A → List A
  sort [] = []
  sort (x ∷ xs) = insert_sorted x (sort xs)

  module _ (o : StrictOrder less) where
    insert_sorted_comm :
        (x y : A) (l : List A)
        → insert_sorted x (insert_sorted y l) ≡ insert_sorted y (insert_sorted x l)
    unfolding insert_sorted
    insert_sorted_comm x y [] = ground (arith, o.asymm x y, o.asymm y x, o.total x y)
    insert_sorted_comm x y (z ∷ l) = ground (
      arith,
      insert_sorted_comm x y l,
      o.asymm x y,
      o.asymm y x,
      o.total x y,
      o.total y z,
      o.total x z,
      o.trans z y x,
      o.trans z x y,
      o.trans y z x,
      o.trans x z y,
    )

    sort-Permᴰ : {xs ys : List A} → Permᴰ xs ys → sort xs ≡ sort ys
    unfolding sort
    sort-Permᴰ Permᴰ.nil = refl
    sort-Permᴰ (Permᴰ.cons e d) = cc (sort-Permᴰ d)
    sort-Permᴰ (Permᴰ.swap {a} {b} {l = l} e f) = cc (insert_sorted_comm a b (sort l))
    sort-Permᴰ (Permᴰ.trans d d') = sort-Permᴰ d ∙ sort-Permᴰ d'

    -- The result depends on which elements there are, and not on their order.
    pub sort-perm : IsSet (List A) → {xs ys : List A} → Perm xs ys → sort xs ≡ sort ys
    sort-perm is_set {xs} {ys} p = ∥∥₁_elim p (is_set (sort xs) (sort ys)) sort-Permᴰ

  insert_sorted-perm : (x : A) (l : List A) → Perm (insert_sorted x l) (x ∷ l)
  unfolding insert_sorted
  insert_sorted-perm x [] = Perm.refl (x ∷ [])
  insert_sorted-perm x (y ∷ l) = elim (Bool-cases (less y x)) [
    | inl t ↦ rw t (Perm.trans (Perm.cons y (insert_sorted-perm x l)) (Perm.swap x y l))
    | inr t ↦ rw t (Perm.refl (x ∷ y ∷ l))
  ]

  pub sort-is_perm : (l : List A) → Perm (sort l) l
  unfolding sort
  sort-is_perm [] = Perm.nil
  sort-is_perm (x ∷ l) = Perm.trans (insert_sorted-perm x (sort l)) (Perm.cons x (sort-is_perm l))

  -- No element is less than the one before it.
  abbrev pub IsSorted : List A → Type 0
  IsSorted [] = Unit {0}
  IsSorted (x ∷ []) = Unit {0}
  IsSorted (x ∷ y ∷ l) = (less y x ≡ false) × IsSorted (y ∷ l)

  -- A sorted list is its own sorting.
  pub sort_of_IsSorted : (l : List A) → IsSorted l → sort l ≡ l
  unfolding sort insert_sorted
  sort_of_IsSorted [] s = refl
  sort_of_IsSorted (x ∷ []) s = refl
  sort_of_IsSorted (x ∷ y ∷ l) s = rw (sort_of_IsSorted (y ∷ l) s.1) (rw s.0)

-- A property of all elements.
abbrev pub All {ℓ κ} : {A : Type ℓ} → (A → Type κ) → List A → Type κ
All P [] = Unit
All P (x ∷ xs) = P x × All P xs

All-insert_sorted :
    {A : Type 0} (less : A → A → Bool) (P : A → Type 0) (x : A) (l : List A)
    → P x
    → All P l
    → All P (insert_sorted less x l)
unfolding insert_sorted
All-insert_sorted less P x [] p h = (p, tt)
All-insert_sorted less P x (y ∷ l) p h = elim (Bool-cases (less y x)) [
  | inl t ↦ rw t (h.0, All-insert_sorted less P x l p h.1)
  | inr t ↦ rw t (p, h)
]

pub All-sort :
    {A : Type 0} (less : A → A → Bool) (P : A → Type 0) (l : List A) → All P l → All P (sort less l)
unfolding sort
All-sort less P [] h = tt
All-sort less P (x ∷ l) h = All-insert_sorted less P x (sort less l) h.0 (All-sort less P l h.1)
