-- ===== src/Validate/Report.antt =====
-- `validateSeries` against an independent reading of each reason.
use remote_write_inspector.Prelude.{
  ◌≡◌, refl, ◌∙◌, Bool, true, false, ◌&&◌, ◌||◌, not, List, [], ◌∷◌, arith, length,
}
use remote_write_inspector.Prelude.Bytes.{Bytes}
use remote_write_inspector.Prelude.Int.{ℤ, pos, ltb_ℤ}
use remote_write_inspector.Hash.Types.{Label}
use remote_write_inspector.Hash.{metric_name_label}
use remote_write_inspector.Validate.Reasons.{
  Reason, missing_metric_name, duplicate_label_name, out_of_order_labels, excessive_label_count,
  has_reason, add_reason, add_reason_if, is_reason, has_reason-add_reason_if, Reason-discrete,
}
use remote_write_inspector.Validate.Collect.{
  any_label, label_reason, pair_reason, scan_label_reason, metric_name_nonempty,
}
use remote_write_inspector.Validate.Names.{
  neighbours, duplicated, named, repeats-duplicated, neighbours_ascending, neighbours-duplicated,
}
use remote_write_inspector.Validate.{
  Scan, scan_order, scan_named, scan_label, scan_labels, repeats, validate_series,
}

scan_label_state :
    (n : ℤ) (first : Bool) (l : Label) (s : Scan)
    → ((scan_label n first l s).prev_name ≡ l.name)
      × ((scan_label n first l s).metric_seen ≡ named metric_name_label l || s.metric_seen)
      × ((scan_label n first l s).in_name_order
          ≡ not (not first && pair_reason out_of_order_labels s.prev_name l.name)
            && s.in_name_order)
unfolding scan_label scan_order scan_named pair_reason
scan_label_state n first l s =
    (ground arith, ground (arith, metric_name_nonempty l.name), ground arith)

-- The loop from the second label on.
scan_labels_state :
    (n : ℤ) (ls : List Label) (s : Scan) (r : Reason)
    → (has_reason r (scan_labels n false ls s).reasons
        ≡ neighbours r s.prev_name ls
          || (any_label (label_reason n r) ls || has_reason r s.reasons))
      × ((scan_labels n false ls s).metric_seen
          ≡ any_label (named metric_name_label) ls || s.metric_seen)
      × ((scan_labels n false ls s).in_name_order
          ≡ not (neighbours out_of_order_labels s.prev_name ls) && s.in_name_order)
unfolding scan_labels neighbours any_label
scan_labels_state n [] s r = (refl, refl, refl)
scan_labels_state n (l ∷ ls) s r =
    let s' = scan_label n false l s in
    let (a, b, c) = scan_labels_state n ls s' r in
    let (p, m, o) = scan_label_state n false l s in
    (
      ground (arith, a, p, scan_label_reason n false l s r),
      ground (arith, b, m),
      ground (arith, c, p, o),
    )

-- What each reason means for the labels of a series.
unfoldable pub expected : ℤ → ℤ → Reason → List Label → Bool
expected max_labels n missing_metric_name ls = not (any_label (named metric_name_label) ls)
expected max_labels n duplicate_label_name ls = duplicated ls
expected max_labels n out_of_order_labels [] = false
expected max_labels n out_of_order_labels (l ∷ ls) = neighbours out_of_order_labels l.name ls
expected max_labels n excessive_label_count [] = false
expected max_labels n excessive_label_count (l ∷ ls) = ltb_ℤ max_labels (pos (length (l ∷ ls)))
expected max_labels n r ls = any_label (label_reason n r) ls

neighbours_other :
    (r : Reason) (p : Bytes) (ls : List Label)
    → ((q name : Bytes) → pair_reason r q name ≡ false)
    → neighbours r p ls ≡ false
unfolding neighbours
neighbours_other r p [] h = refl
neighbours_other r p (l ∷ ls) h = ground (arith, h p l.name, neighbours_other r l.name ls h)

none_alone :
    (n : ℤ) (r : Reason) (ls : List Label)
    → ((l : Label) → label_reason n r l ≡ false)
    → any_label (label_reason n r) ls ≡ false
unfolding any_label
none_alone n r [] h = refl
none_alone n r (l ∷ ls) h = ground (arith, h l, none_alone n r ls h)

-- `validateSeries` on a non-empty label set, with the loops read off.
report :
    (max_labels n : ℤ) (l : Label) (ls : List Label) (r : Reason)
    → has_reason r (validate_series max_labels n (l ∷ ls)) ≡ (
        (not (any_label (named metric_name_label) (l ∷ ls)) && is_reason missing_metric_name r)
        || (((neighbours out_of_order_labels l.name ls && duplicated (l ∷ ls))
              && is_reason duplicate_label_name r)
            || (neighbours r l.name ls
                || (any_label (label_reason n r) (l ∷ ls)
                    || (ltb_ℤ max_labels (pos (length (l ∷ ls)))
                        && is_reason excessive_label_count r)))))
unfolding validate_series scan_labels any_label has_reason
report max_labels n l ls r =
    let over = ltb_ℤ max_labels (pos (length (l ∷ ls))) in
    let s0 : Scan = record {
      reasons = add_reason_if over excessive_label_count [];
      metric_seen = false;
      in_name_order = true;
      prev_name = [];
    } in
    let s1 = scan_label n true l s0 in
    let s2 = scan_labels n false ls s1 in
    let (p, m, o) = scan_label_state n true l s0 in
    let (a, b, c) = scan_labels_state n ls s1 r in
    let again = not s2.in_name_order && repeats [] (l ∷ ls) in
    has_reason-add_reason_if (not s2.metric_seen) missing_metric_name r
      (add_reason_if again duplicate_label_name s2.reasons)
    ∙ rw
        (
          has_reason-add_reason_if again duplicate_label_name r s2.reasons,
          a,
          b,
          c,
          p,
          m,
          o,
          scan_label_reason n true l s0 r,
          has_reason-add_reason_if over excessive_label_count r [],
          repeats-duplicated (l ∷ ls),
        )
        (ground arith)

duplicated_cons :
    (l : Label) (ls : List Label)
    → duplicated (l ∷ ls) ≡ any_label (named l.name) ls || duplicated ls
unfolding duplicated
duplicated_cons l ls = refl

-- A reason that neither two neighbours nor one label alone can give.
alone_or_paired :
    (max_labels n : ℤ) (l : Label) (ls : List Label) (r : Reason)
    → ((q name : Bytes) → pair_reason r q name ≡ false)
    → is_reason missing_metric_name r ≡ false
    → is_reason duplicate_label_name r ≡ false
    → is_reason excessive_label_count r ≡ false
    → has_reason r (validate_series max_labels n (l ∷ ls)) ≡ any_label (label_reason n r) (l ∷ ls)
alone_or_paired max_labels n l ls r pair a b c =
    ground (arith, report max_labels n l ls r, neighbours_other r l.name ls pair)

-- On every label set and for every reason, `validateSeries` reports the reason exactly when the
-- labels show it: no label named `__name__`; a label whose name or value is at fault; a name less
-- than the one before it; one name twice, next to each other or not; more labels than allowed.
pub validate_series-expected :
    (max_labels n : ℤ) (ls : List Label) (r : Reason)
    → has_reason r (validate_series max_labels n ls) ≡ expected max_labels n r ls
unfolding expected label_reason pair_reason is_reason Reason-discrete
validate_series-expected max_labels n [] missing_metric_name =
    unfold validate_series add_reason has_reason any_label in refl
validate_series-expected max_labels n [] r =
    unfold validate_series add_reason has_reason any_label duplicated in refl
validate_series-expected max_labels n (l ∷ ls) missing_metric_name = ground (
  arith,
  report max_labels n l ls missing_metric_name,
  neighbours_other missing_metric_name l.name ls (λ q name. refl),
  none_alone n missing_metric_name (l ∷ ls) (λ x. refl),
)
validate_series-expected max_labels n (l ∷ ls) excessive_label_count = ground (
  arith,
  report max_labels n l ls excessive_label_count,
  neighbours_other excessive_label_count l.name ls (λ q name. refl),
  none_alone n excessive_label_count (l ∷ ls) (λ x. refl),
)
validate_series-expected max_labels n (l ∷ ls) out_of_order_labels = ground (
  arith,
  report max_labels n l ls out_of_order_labels,
  none_alone n out_of_order_labels (l ∷ ls) (λ x. refl),
)
validate_series-expected max_labels n (l ∷ ls) duplicate_label_name = ground (
  arith,
  report max_labels n l ls duplicate_label_name,
  none_alone n duplicate_label_name (l ∷ ls) (λ x. refl),
  neighbours_ascending l.name ls,
  neighbours-duplicated l.name ls,
  duplicated_cons l ls,
)
validate_series-expected max_labels n (l ∷ ls) r =
    alone_or_paired max_labels n l ls r (λ q name. refl) refl refl refl
