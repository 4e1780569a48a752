-- ===== src/Validate.antt =====
-- internal/inspector/inspector.go: `validateSeries`, which collects the reasons to reject the labels
-- of a series, and the limits and tests it uses.
use remote_write_inspector.Prelude.{
  ℕ, ◌+◌, Bool, true, false, ◌&&◌, ◌||◌, not, List, [], ◌∷◌, ltb, leb, ◌==◌, if◌then◌else◌, length,
}
use remote_write_inspector.Prelude.Bytes.{Bytes, codes, bytes_eq, bytes_lt}
use remote_write_inspector.Prelude.Int.{ℤ, pos, ltb_ℤ}
use remote_write_inspector.Hash.Types.{Label}
use remote_write_inspector.Hash.{metric_name_label}
pub mod Reasons
pub mod Collect
pub mod Names
pub mod Report
use Reasons.{
  Reason, missing_metric_name, empty_metric_name, invalid_metric_name, empty_label_name,
  invalid_label_name, empty_label_value, duplicate_label_name, out_of_order_labels,
  excessive_label_count, excessive_label_value_length, add_reason, add_reason_if,
}

-- `[a-zA-Z]`, `[0-9]`.
unfoldable pub is_letter : ℕ → Bool
is_letter c = (leb b'a' c && leb c b'z') || (leb b'A' c && leb c b'Z')

unfoldable pub is_digit : ℕ → Bool
is_digit c = leb b'0' c && leb c b'9'

-- `[a-zA-Z0-9_]*$` and `[a-zA-Z0-9_:]*$`; `colon` says whether `:` is allowed.
unfoldable pub name_rest : Bool → Bytes → Bool
name_rest colon [] = true
name_rest colon (c ∷ s) =
    (is_letter c || (is_digit c || (c == b'_' || (colon && c == b':')))) && name_rest colon s

unfoldable pub name_match : Bool → Bytes → Bool
name_match colon [] = false
name_match colon (c ∷ s) = (is_letter c || (c == b'_' || (colon && c == b':'))) && name_rest colon s

-- `metricNameRE.MatchString`.
unfoldable pub metric_name_match : Bytes → Bool
metric_name_match s = name_match true s

-- `labelNameRE.MatchString`.
unfoldable pub label_name_match : Bytes → Bool
label_name_match s = name_match false s

-- The variables of the loop over the labels. `prev_name` is read from the second label on.
pub record Scan : Type 0 where
  pub reasons : List Reason
  pub metric_seen : Bool
  pub in_name_order : Bool
  pub prev_name : Bytes

-- The comparison with the name before, in the first two `if`s of the loop body.
unfoldable pub scan_order : Bool → Label → Scan → Scan
scan_order first label s =
    let after = not first && bytes_lt label.name s.prev_name in
    let same = not first && bytes_eq label.name s.prev_name in
    record s {
      reasons =
          add_reason_if same duplicate_label_name
            (add_reason_if after out_of_order_labels s.reasons);
      in_name_order = if after then false else s.in_name_order;
      prev_name = label.name;
    }

-- The reasons that the metric name label gives by its value.
unfoldable pub scan_metric_value : Bytes → List Reason → List Reason
scan_metric_value value reasons =
    if bytes_eq value []
    then add_reason empty_metric_name reasons
    else add_reason_if (not (metric_name_match value)) invalid_metric_name reasons

-- The rest of the loop body, for a name that is not empty.
unfoldable pub scan_named : ℤ → Label → Scan → Scan
scan_named max_label_value_length label s =
    let r1 = add_reason_if (not (label_name_match label.name)) invalid_label_name s.reasons in
    let r2 =
      add_reason_if (ltb_ℤ max_label_value_length (pos (length label.value)))
        excessive_label_value_length r1 in
    if bytes_eq label.name metric_name_label
    then record s { reasons = scan_metric_value label.value r2; metric_seen = true }
    else record s { reasons = add_reason_if (bytes_eq label.value []) empty_label_value r2 }

unfoldable pub scan_label : ℤ → Bool → Label → Scan → Scan
scan_label max_label_value_length first label s =
    let s' = scan_order first label s in
    if bytes_eq label.name []
    then record s' { reasons = add_reason empty_label_name s'.reasons }
    else scan_named max_label_value_length label s'

-- The loop; `first` holds at index 0.
unfoldable pub scan_labels : ℤ → Bool → List Label → Scan → Scan
scan_labels max_label_value_length first [] s = s
scan_labels max_label_value_length first (label ∷ labels) s =
    scan_labels max_label_value_length false labels
      (scan_label max_label_value_length first label s)

unfoldable pub contains_name : Bytes → List Bytes → Bool
contains_name name [] = false
contains_name name (n ∷ names) = bytes_eq n name || contains_name name names

-- The second loop: whether a name repeats one that was seen before.
unfoldable pub repeats : List Bytes → List Label → Bool
repeats seen [] = false
repeats seen (label ∷ labels) = contains_name label.name seen || repeats (label.name ∷ seen) labels

-- `validateSeries`.
unfoldable pub validate_series : ℤ → ℤ → List Label → List Reason
validate_series max_labels max_label_value_length [] = add_reason missing_metric_name []
validate_series max_labels max_label_value_length (label ∷ labels) =
    let all = label ∷ labels in
    let s = scan_labels max_label_value_length true all (record {
      reasons = add_reason_if (ltb_ℤ max_labels (pos (length all))) excessive_label_count [];
      metric_seen = false;
      in_name_order = true;
      prev_name = [];
    }) in
    let r = add_reason_if (not s.in_name_order && repeats [] all) duplicate_label_name s.reasons in
    add_reason_if (not s.metric_seen) missing_metric_name r
