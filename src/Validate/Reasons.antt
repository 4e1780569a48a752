-- ===== src/Validate/Reasons.antt =====
-- internal/inspector/inspector.go: the reasons that label and sample checks report, and the set that
-- `validateSeries` collects them in. `series_reasons` is a Go map used as a set.
use remote_write_inspector.Prelude.{
  ◌≡◌, refl, Bool, true, false, ◌||◌, ◌&&◌, List, [], ◌∷◌, arith, if◌then◌else◌, ite,
}
use remote_write_inspector.Prelude.Bytes.{Bytes, codes}

pub data Reason : Type 0 where
  missing_metric_name empty_metric_name invalid_metric_name : Reason
  empty_label_name invalid_label_name empty_label_value : Reason
  duplicate_label_name out_of_order_labels : Reason
  excessive_label_count excessive_label_value_length : Reason
  stale_sample future_sample duplicate_timestamp_different_value : Reason
  cross_path_collision diagnostic_writer_id_missing : Reason

-- The constants: what a metric label or a log record shows for a reason.
unfoldable pub reason_text : Reason → Bytes
reason_text missing_metric_name = codes "missing_metric_name"
reason_text empty_metric_name = codes "empty_metric_name"
reason_text invalid_metric_name = codes "invalid_metric_name"
reason_text empty_label_name = codes "empty_label_name"
reason_text invalid_label_name = codes "invalid_label_name"
reason_text empty_label_value = codes "empty_label_value"
reason_text duplicate_label_name = codes "duplicate_label_name"
reason_text out_of_order_labels = codes "out_of_order_labels"
reason_text excessive_label_count = codes "excessive_label_count"
reason_text excessive_label_value_length = codes "excessive_label_value_length"
reason_text stale_sample = codes "stale_sample"
reason_text future_sample = codes "future_sample"
reason_text duplicate_timestamp_different_value = codes "duplicate_timestamp_different_value"
reason_text cross_path_collision = codes "cross_path_collision"
reason_text diagnostic_writer_id_missing = codes "diagnostic_writer_id_missing"

unfoldable pub Reason-discrete : Discrete Reason
Reason-discrete = hlevel

unfoldable pub has_reason : Reason → List Reason → Bool
has_reason r [] = false
has_reason r (q ∷ qs) = ite (Reason-discrete q r) true (has_reason r qs)

-- `reasons[reason] = struct{}{}`: a reason is stored once.
unfoldable pub add_reason : Reason → List Reason → List Reason
add_reason r rs = if has_reason r rs then rs else r ∷ rs

-- `if b { addReason(r) }`.
unfoldable pub add_reason_if : Bool → Reason → List Reason → List Reason
add_reason_if b r rs = if b then add_reason r rs else rs

unfoldable pub is_reason : Reason → Reason → Bool
is_reason q r = ite (Reason-discrete q r) true false

pub has_reason-add_reason :
    (q r : Reason) (rs : List Reason)
    → has_reason r (add_reason q rs) ≡ is_reason q r || has_reason r rs
unfolding add_reason is_reason has_reason
has_reason-add_reason q r rs = ground arith

pub has_reason-add_reason_if :
    (b : Bool) (q r : Reason) (rs : List Reason)
    → has_reason r (add_reason_if b q rs) ≡ (b && is_reason q r) || has_reason r rs
unfolding add_reason_if
has_reason-add_reason_if true q r rs = has_reason-add_reason q r rs
has_reason-add_reason_if false q r rs = refl
