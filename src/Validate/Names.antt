-- ===== src/Validate/Names.antt =====
-- Label names that descend or repeat: what the neighbours show, and when the second loop is needed.
use remote_write_inspector.Prelude.{◌≡◌, refl, Bool, true, false, ◌||◌, List, [], ◌∷◌, arith}
use remote_write_inspector.Prelude.Bytes.{
  Bytes, bytes_eq, bytes_lt, bytes_eq_iff, bytes_lt_irrefl, bytes_lt_trans, bytes_lt_total,
}
use remote_write_inspector.Hash.Types.{Label}
use remote_write_inspector.Validate.Reasons.{Reason, duplicate_label_name, out_of_order_labels}
use remote_write_inspector.Validate.Collect.{any_label, pair_reason}
use remote_write_inspector.Validate.{repeats, contains_name}

-- Whether two neighbours among the labels after a label named `prev`, it included, give a reason.
unfoldable pub neighbours : Reason → Bytes → List Label → Bool
neighbours r prev [] = false
neighbours r prev (l ∷ ls) = pair_reason r prev l.name || neighbours r l.name ls

abbrev pub named : Bytes → Label → Bool
named name l = bytes_eq l.name name

-- Two labels of the list, wherever they stand, have one name.
unfoldable pub duplicated : List Label → Bool
duplicated [] = false
duplicated (l ∷ ls) = any_label (named l.name) ls || duplicated ls

abbrev seen_before : List Bytes → Label → Bool
seen_before seen l = contains_name l.name seen

any_label-seen :
    (name : Bytes) (seen : List Bytes) (ls : List Label)
    → any_label (seen_before (name ∷ seen)) ls
      ≡ any_label (named name) ls || any_label (seen_before seen) ls
unfolding any_label contains_name
any_label-seen name seen [] = refl
any_label-seen name seen (l ∷ ls) =
    ground (arith, any_label-seen name seen ls, bytes_eq_iff name l.name, bytes_eq_iff l.name name)

any_label-unseen : (ls : List Label) → any_label (seen_before []) ls ≡ false
unfolding any_label contains_name
any_label-unseen [] = refl
any_label-unseen (l ∷ ls) = any_label-unseen ls

repeats-seen :
    (seen : List Bytes) (ls : List Label)
    → repeats seen ls ≡ any_label (seen_before seen) ls || duplicated ls
unfolding repeats duplicated any_label
repeats-seen seen [] = refl
repeats-seen seen (l ∷ ls) =
    ground (arith, repeats-seen (l.name ∷ seen) ls, any_label-seen l.name seen ls)

-- The second loop finds a repeated name exactly where there is one.
pub repeats-duplicated : (ls : List Label) → repeats [] ls ≡ duplicated ls
repeats-duplicated ls = ground (arith, repeats-seen [] ls, any_label-unseen ls)

-- Names that do not descend from `p` on do not come back to a name before `p`.
ascending_past :
    (p q : Bytes) (ls : List Label)
    → neighbours out_of_order_labels p ls ≡ false
    → bytes_lt q p ≡ true
    → any_label (named q) ls ≡ false
unfolding neighbours any_label pair_reason
ascending_past p q [] h lt = refl
ascending_past p q (l ∷ ls) h lt = ground (
  arith,
  ascending_past l.name q ls,
  bytes_lt_total p l.name,
  bytes_lt_trans q p l.name,
  bytes_eq_iff l.name q,
  bytes_lt_irrefl q,
)

-- In ascending names a repeated name stands next to itself.
pub neighbours_ascending :
    (p : Bytes) (ls : List Label)
    → neighbours out_of_order_labels p ls ≡ false
    → neighbours duplicate_label_name p ls ≡ any_label (named p) ls || duplicated ls
unfolding neighbours any_label pair_reason duplicated
neighbours_ascending p [] h = refl
neighbours_ascending p (l ∷ ls) h = ground (
  arith,
  neighbours_ascending l.name ls,
  ascending_past l.name p ls,
  bytes_lt_total p l.name,
  bytes_eq_iff l.name p,
)

-- In any order, neighbours of one name repeat it.
pub neighbours-duplicated :
    (p : Bytes) (ls : List Label)
    → neighbours duplicate_label_name p ls ≡ true
    → (any_label (named p) ls || duplicated ls) ≡ true
unfolding neighbours any_label pair_reason duplicated
neighbours-duplicated p [] h = absurd (ground arith)
neighbours-duplicated p (l ∷ ls) h = ground (arith, neighbours-duplicated l.name ls)
