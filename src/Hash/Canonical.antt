-- ===== src/Hash/Canonical.antt =====
-- The canonical hash does not depend on the order of the labels, and its fast path changes nothing.
use mathlib.Core.List.{Perm}
use remote_write_inspector.Prelude.{
  ℕ, ◌≡◌, sym, ap, ◌∙◌, inl, inr, true, false, List, [], ◌∷◌, arith, Bool-cases,
}
use remote_write_inspector.Prelude.Bytes.{
  Bytes, bytes_eq_iff, bytes_lt_trans, bytes_lt_total, bytes_lt_asymm,
}
use remote_write_inspector.Prelude.Sorting.{StrictOrder, sort-perm, IsSorted, sort_of_IsSorted}
use remote_write_inspector.Hash.Types.{Label}
use remote_write_inspector.Hash.{
  labels_in_canonical_order, label_bytes, pair_less, sorted_pairs, hash_labels, canonical_hash,
}

pair_less_asymm : (a b : Label) → pair_less a b ≡ true → pair_less b a ≡ false
unfolding pair_less
pair_less_asymm a b h = ground (
  arith,
  bytes_eq_iff a.name b.name,
  bytes_eq_iff b.name a.name,
  bytes_lt_asymm a.name b.name,
  bytes_lt_asymm a.value b.value,
)

pair_less_trans :
    (a b c : Label) → pair_less a b ≡ true → pair_less b c ≡ true → pair_less a c ≡ true
unfolding pair_less
pair_less_trans a b c h k = ground (
  arith,
  bytes_eq_iff a.name b.name,
  bytes_eq_iff b.name c.name,
  bytes_eq_iff a.name c.name,
  bytes_lt_asymm a.name b.name,
  bytes_lt_trans a.name b.name c.name,
  bytes_lt_trans a.value b.value c.value,
)

pair_less_total : (a b : Label) → pair_less a b ≡ false → pair_less b a ≡ false → a ≡ b
unfolding pair_less
pair_less_total a b h k = ground (
  arith,
  bytes_eq_iff a.name b.name,
  bytes_eq_iff b.name a.name,
  bytes_lt_total a.name b.name,
  bytes_lt_total a.value b.value,
)

pub pair_less-StrictOrder : StrictOrder pair_less
pair_less-StrictOrder = record {
  asymm = pair_less_asymm;
  trans = pair_less_trans;
  total = pair_less_total;
}

canonical_order-IsSorted :
    (labels : List Label) → labels_in_canonical_order labels ≡ true → IsSorted pair_less labels
unfolding labels_in_canonical_order pair_less
canonical_order-IsSorted [] h = tt
canonical_order-IsSorted (a ∷ []) h = tt
canonical_order-IsSorted (a ∷ b ∷ rest) h = (
  ground (arith, bytes_eq_iff b.name a.name, bytes_eq_iff a.name b.name),
  canonical_order-IsSorted (b ∷ rest) (ground arith),
)

module _ (sum64 : Bytes → ℕ) where
  -- On every label set `canonicalHash` is the digest of the sorted pairs: the path that skips the
  -- sort for labels in canonical order gives the same hash.
  pub canonical_hash-sorted_pairs :
      (labels : List Label)
      → canonical_hash sum64 labels ≡ sum64 (label_bytes (sorted_pairs labels))
  unfolding canonical_hash hash_labels sorted_pairs
  canonical_hash-sorted_pairs labels = elim (Bool-cases (labels_in_canonical_order labels)) [
    | inl t ↦ rw t (
        ap (λ l. sum64 (label_bytes l))
          (sym (sort_of_IsSorted pair_less labels (canonical_order-IsSorted labels t))))
    | inr t ↦ rw t
  ]

  -- Label sets with the same labels, as often and in any order, have the same canonical hash.
  pub canonical_hash-perm :
      (xs ys : List Label) → Perm xs ys → canonical_hash sum64 xs ≡ canonical_hash sum64 ys
  unfolding sorted_pairs
  canonical_hash-perm xs ys p =
      canonical_hash-sorted_pairs xs
      ∙ ap (λ l. sum64 (label_bytes l)) (sort-perm pair_less pair_less-StrictOrder (hlevel) p)
      ∙ sym (canonical_hash-sorted_pairs ys)
