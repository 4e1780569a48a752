-- ===== src/Hash.antt =====
-- internal/inspector/hash.go: the canonical hash of a label set, its fingerprint, and the names
-- read off a label set. The digest of xxhash is a parameter `sum64` of the bytes written to it:
-- writing a string appends its bytes.
use remote_write_inspector.Prelude.{
  ℕ, zero, suc, ◌+◌, ◌-◌, ◌/◌, ◌%◌, Bool, true, false, ◌&&◌, ◌||◌, not, List, [], ◌∷◌, ◌++◌, ltb,
  if◌then◌else◌,
}
use remote_write_inspector.Prelude.Bytes.{Bytes, codes, bytes_eq, bytes_lt}
use remote_write_inspector.Prelude.Sorting.{sort}
use Types.{Label}
pub mod Types
pub mod Canonical
pub mod Encoding
pub mod Fingerprint

-- The names of labels and pairs coincide: `Label` stands for `prompb.Label` and `labelPair`.
abbrev pub metric_name_label : Bytes
metric_name_label = codes "__name__"

abbrev pub unknown_series : Bytes
unknown_series = codes "unknown"

abbrev pub unknown_identity : Bytes
unknown_identity = codes "unknown"

-- `labelsInCanonicalOrder`: the loop over neighbours.
unfoldable pub labels_in_canonical_order : List Label → Bool
labels_in_canonical_order [] = true
labels_in_canonical_order (prev ∷ []) = true
labels_in_canonical_order (prev ∷ curr ∷ rest) =
    if bytes_lt curr.name prev.name
    then false
    else if bytes_eq curr.name prev.name && bytes_lt curr.value prev.value
    then false
    else labels_in_canonical_order (curr ∷ rest)

-- The bytes that `hashLabels`, and the loop of `canonicalHash` over the pairs, write to the digest.
unfoldable pub label_bytes : List Label → Bytes
label_bytes [] = []
label_bytes (l ∷ rest) = l.name ++ (0 ∷ (l.value ++ (0 ∷ label_bytes rest)))

-- The comparison that `sortedPairs` sorts by.
unfoldable pub pair_less : Label → Label → Bool
pair_less a b = if bytes_eq a.name b.name then bytes_lt a.value b.value else bytes_lt a.name b.name

-- `sortedPairs`.
unfoldable pub sorted_pairs : List Label → List Label
sorted_pairs labels = sort pair_less labels

module _ (sum64 : Bytes → ℕ) where
  unfoldable pub hash_labels : List Label → ℕ
  hash_labels labels = sum64 (label_bytes labels)

  unfoldable pub canonical_hash : List Label → ℕ
  canonical_hash labels =
      if labels_in_canonical_order labels
      then hash_labels labels
      else sum64 (label_bytes (sorted_pairs labels))

-- `seriesName`: the first non-empty value of the metric name label.
unfoldable pub series_name : List Label → Bytes
series_name [] = unknown_series
series_name (l ∷ rest) =
    if bytes_eq l.name metric_name_label && not (bytes_eq l.value [])
    then l.value
    else series_name rest

-- The case list of `hostName`.
unfoldable pub is_host_label : Bytes → Bool
is_host_label name =
    bytes_eq name (codes "host_name")
    || (bytes_eq name (codes "host")
        || (bytes_eq name (codes "hostname") || bytes_eq name (codes "instance")))

unfoldable pub host_name : List Label → Bytes
host_name [] = unknown_identity
host_name (l ∷ rest) =
    if is_host_label l.name && not (bytes_eq l.value []) then l.value else host_name rest

-- `%016x`: sixteen hexadecimal digits, the highest first.
unfoldable pub hex_digit : ℕ → ℕ
hex_digit d = if ltb d 10 then b'0' + d else b'a' + d - 10

unfoldable pub hex_digits : ℕ → ℕ → Bytes
hex_digits zero hash = []
hex_digits (suc n) hash = hex_digits n (hash / 16) ++ (hex_digit (hash % 16) ∷ [])

unfoldable pub series_fingerprint : ℕ → Bytes
series_fingerprint hash = hex_digits 16 hash
