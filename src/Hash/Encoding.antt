-- ===== src/Hash/Encoding.antt =====
-- What the bytes behind the canonical hash determine: the label set, up to order, where no name or
-- value holds a NUL byte; with NUL bytes two different label sets share them.
use mathlib.Core.List.{Perm, append_assoc}
use mathlib.Core.List.Perm
use remote_write_inspector.Prelude.{
  ℕ, ◌≡◌, refl, sym, ap, ◌∙◌, ◌≢◌, ◌↔◌, true, List, [], ◌∷◌, ◌++◌, arith, subst,
}
use remote_write_inspector.Prelude.Bytes.{Bytes}
use remote_write_inspector.Prelude.Sorting.{sort, sort-is_perm, All, All-sort}
use remote_write_inspector.Hash.Types.{Label}
use remote_write_inspector.Hash.Canonical.{canonical_hash-sorted_pairs, canonical_hash-perm}
use remote_write_inspector.Hash.{
  labels_in_canonical_order, label_bytes, pair_less, sorted_pairs, hash_labels, canonical_hash,
}

abbrev pub NoNul : Bytes → Type 0
NoNul s = All (λ c. c ≢ 0) s

abbrev pub NulFree : Label → Type 0
NulFree l = NoNul l.name × NoNul l.value

until_nul :
    (s s' t t' : Bytes) → NoNul s → NoNul s' → s ++ (0 ∷ t) ≡ s' ++ (0 ∷ t') → (s ≡ s') × (t ≡ t')
until_nul [] [] t t' n n' e = (refl, ground arith)
until_nul [] (d ∷ s') t t' n n' e = absurd (ground arith)
until_nul (c ∷ s) [] t t' n n' e = absurd (ground arith)
until_nul (c ∷ s) (d ∷ s') t t' n n' e =
    let (p, q) = until_nul s s' t t' n.1 n'.1 (ground arith) in (ground arith, q)

append-ne-nil : (s t : Bytes) → s ++ (0 ∷ t) ≢ []
append-ne-nil [] t e = absurd (ground arith)
append-ne-nil (c ∷ s) t e = absurd (ground arith)

pub label_bytes-injective :
    (xs ys : List Label)
    → All NulFree xs
    → All NulFree ys
    → label_bytes xs ≡ label_bytes ys
    → xs ≡ ys
unfolding label_bytes
label_bytes-injective [] [] n n' e = refl
label_bytes-injective [] (y ∷ ys) n n' e = absurd (append-ne-nil y.name _ (sym e))
label_bytes-injective (x ∷ xs) [] n n' e = absurd (append-ne-nil x.name _ e)
label_bytes-injective (x ∷ xs) (y ∷ ys) n n' e =
    let (p, q) = until_nul x.name y.name _ _ n.0.0 n'.0.0 e in
    let (p', q') = until_nul x.value y.value _ _ n.0.1 n'.0.1 q in
    let r = label_bytes-injective xs ys n.1 n'.1 q' in ground arith

one_label_in_order : (l : Label) → labels_in_canonical_order (l ∷ []) ≡ true
unfolding labels_in_canonical_order
one_label_in_order l = refl

spelled_out :
    (n v n' v' : Bytes)
    → label_bytes (record { name = n; value = v ++ (0 ∷ (n' ++ (0 ∷ v'))) } ∷ [])
      ≡ label_bytes (record { name = n; value = v } ∷ record { name = n'; value = v' } ∷ [])
unfolding label_bytes
spelled_out n v n' v' = simp append_assoc

module _ (sum64 : Bytes → ℕ) where
  -- Of label sets without NUL bytes whose digests do not collide, two have the same canonical hash
  -- exactly when they are the same labels up to order.
  pub canonical_hash-eq_iff_perm :
      (xs ys : List Label)
      → All NulFree xs
      → All NulFree ys
      → (sum64 (label_bytes (sorted_pairs xs)) ≡ sum64 (label_bytes (sorted_pairs ys))
          → label_bytes (sorted_pairs xs) ≡ label_bytes (sorted_pairs ys))
      → (canonical_hash sum64 xs ≡ canonical_hash sum64 ys) ↔ Perm xs ys
  unfolding sorted_pairs
  canonical_hash-eq_iff_perm xs ys n n' distinct = (
    (λ e.
        let same =
          label_bytes-injective (sort pair_less xs) (sort pair_less ys)
            (All-sort pair_less NulFree xs n) (All-sort pair_less NulFree ys n')
            (distinct (
              sym (canonical_hash-sorted_pairs sum64 xs)
              ∙ e
              ∙ canonical_hash-sorted_pairs sum64 ys)) in
        Perm.trans (Perm.symm (sort-is_perm pair_less xs))
          (subst (λ l. Perm l ys) (sym same) (sort-is_perm pair_less ys))),
    canonical_hash-perm sum64 xs ys,
  )

  -- A value with NUL bytes can spell out a second label: the series of one label and the series of
  -- two labels in canonical order then have the same canonical hash, whatever the digest.
  pub canonical_hash_nul_collision :
      (n v n' v' : Bytes)
      → labels_in_canonical_order
          (record { name = n; value = v } ∷ record { name = n'; value = v' } ∷ [])
        ≡ true
      → canonical_hash sum64 (record { name = n; value = v ++ (0 ∷ (n' ++ (0 ∷ v'))) } ∷ [])
        ≡ canonical_hash sum64
            (record { name = n; value = v } ∷ record { name = n'; value = v' } ∷ [])
  unfolding canonical_hash hash_labels
  canonical_hash_nul_collision n v n' v' h =
      rw (h, one_label_in_order) (ap sum64 (spelled_out n v n' v'))
