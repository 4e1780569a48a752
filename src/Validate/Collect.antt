-- ===== src/Validate/Collect.antt =====
-- The reasons of `validateSeries`, one by one, against what each of them means.
use remote_write_inspector.Prelude.{
  ◌≡◌, refl, Bool, true, false, ◌&&◌, ◌||◌, not, List, [], ◌∷◌, arith, if◌then◌else◌, length,
}
use remote_write_inspector.Prelude.Bytes.{Bytes, bytes_eq, bytes_lt}
use remote_write_inspector.Prelude.Int.{ℤ, pos, ltb_ℤ}
use remote_write_inspector.Hash.Types.{Label}
use remote_write_inspector.Hash.{metric_name_label}
use remote_write_inspector.Validate.Reasons.{
  Reason, empty_metric_name, invalid_metric_name, empty_label_name, invalid_label_name,
  empty_label_value, duplicate_label_name, out_of_order_labels, excessive_label_value_length,
  stale_sample, has_reason, add_reason_if, is_reason, has_reason-add_reason,
  has_reason-add_reason_if, Reason-discrete,
}
use remote_write_inspector.Validate.{
  label_name_match, metric_name_match, Scan, scan_order, scan_metric_value, scan_named, scan_label,
}

unfoldable pub any_label : (Label → Bool) → List Label → Bool
any_label p [] = false
any_label p (l ∷ ls) = p l || any_label p ls

-- The reasons that one label gives by itself.
unfoldable pub label_reason : ℤ → Reason → Label → Bool
label_reason n empty_label_name l = bytes_eq l.name []
label_reason n invalid_label_name l = not (bytes_eq l.name []) && not (label_name_match l.name)
label_reason n excessive_label_value_length l =
    not (bytes_eq l.name []) && ltb_ℤ n (pos (length l.value))
label_reason n empty_metric_name l = bytes_eq l.name metric_name_label && bytes_eq l.value []
label_reason n invalid_metric_name l =
    bytes_eq l.name metric_name_label
    && (not (bytes_eq l.value []) && not (metric_name_match l.value))
label_reason n empty_label_value l =
    not (bytes_eq l.name []) && (not (bytes_eq l.name metric_name_label) && bytes_eq l.value [])
label_reason n _ l = false

-- The reasons that two neighbouring names give.
unfoldable pub pair_reason : Reason → Bytes → Bytes → Bool
pair_reason out_of_order_labels prev name = bytes_lt name prev
pair_reason duplicate_label_name prev name = bytes_eq name prev
pair_reason _ prev name = false

metric_value_reason :
    (v : Bytes) (rs : List Reason) (r : Reason)
    → has_reason r (scan_metric_value v rs)
      ≡ (if bytes_eq v []
          then is_reason empty_metric_name r
          else not (metric_name_match v) && is_reason invalid_metric_name r)
        || has_reason r rs
unfolding scan_metric_value
metric_value_reason v rs r = ground (
  arith,
  has_reason-add_reason empty_metric_name r rs,
  has_reason-add_reason_if (not (metric_name_match v)) invalid_metric_name r rs,
)

named_reason :
    (n : ℤ) (l : Label) (s : Scan) (r : Reason)
    → has_reason r (scan_named n l s).reasons
      ≡ (if bytes_eq l.name metric_name_label
          then (if bytes_eq l.value []
              then is_reason empty_metric_name r
              else not (metric_name_match l.value) && is_reason invalid_metric_name r)
          else bytes_eq l.value [] && is_reason empty_label_value r)
        || ((ltb_ℤ n (pos (length l.value)) && is_reason excessive_label_value_length r)
            || ((not (label_name_match l.name) && is_reason invalid_label_name r)
                || has_reason r s.reasons))
unfolding scan_named
named_reason n l s r =
    let r1 = add_reason_if (not (label_name_match l.name)) invalid_label_name s.reasons in
    let long = ltb_ℤ n (pos (length l.value)) in
    let r2 = add_reason_if long excessive_label_value_length r1 in
    ground (
      arith,
      has_reason-add_reason_if (not (label_name_match l.name)) invalid_label_name r s.reasons,
      has_reason-add_reason_if long excessive_label_value_length r r1,
      has_reason-add_reason_if (bytes_eq l.value []) empty_label_value r r2,
      metric_value_reason l.value r2 r,
    )

order_reason :
    (first : Bool) (l : Label) (s : Scan) (r : Reason)
    → has_reason r (scan_order first l s).reasons ≡ (
        ((not first && bytes_eq l.name s.prev_name) && is_reason duplicate_label_name r)
        || (((not first && bytes_lt l.name s.prev_name) && is_reason out_of_order_labels r)
            || has_reason r s.reasons))
unfolding scan_order
order_reason first l s r = ground (
  arith,
  has_reason-add_reason_if (not first && bytes_eq l.name s.prev_name) duplicate_label_name r
      (add_reason_if (not first && bytes_lt l.name s.prev_name) out_of_order_labels s.reasons),
  has_reason-add_reason_if (not first && bytes_lt l.name s.prev_name) out_of_order_labels r
      s.reasons,
)

-- The name of the metric label is not the empty one.
pub metric_name_nonempty : (s : Bytes) → bytes_eq s [] ≡ true → bytes_eq s metric_name_label ≡ false
unfolding bytes_eq
metric_name_nonempty [] h = refl
metric_name_nonempty (c ∷ s) h = absurd (ground arith)

-- What the loop body adds for one label.
pub scan_label_reason :
    (n : ℤ) (first : Bool) (l : Label) (s : Scan) (r : Reason)
    → has_reason r (scan_label n first l s).reasons
      ≡ (not first && pair_reason r s.prev_name l.name)
        || (label_reason n r l || has_reason r s.reasons)
unfolding scan_label label_reason pair_reason is_reason Reason-discrete
scan_label_reason n first l s stale_sample = ground (
  arith,
  has_reason-add_reason empty_label_name stale_sample (scan_order first l s).reasons,
  order_reason first l s stale_sample,
  named_reason n l (scan_order first l s) stale_sample,
)
scan_label_reason n first l s r = ground (
  arith,
  has_reason-add_reason empty_label_name r (scan_order first l s).reasons,
  order_reason first l s r,
  named_reason n l (scan_order first l s) r,
  metric_name_nonempty l.name,
)
