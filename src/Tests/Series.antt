-- ===== src/Tests/Series.antt =====
-- Label sets at concrete inputs.
use mathlib.Core.List.{Perm}
use mathlib.Core.List.Perm
use remote_write_inspector.Prelude.{
  ℕ, ◌≡◌, refl, ◌↔◌, ◌++◌, List, [], ◌∷◌, arith, length, true, false, Bool, leb, if◌then◌else◌, ap,
}
use remote_write_inspector.Prelude.Bytes.{Bytes, codes, bytes_lt, bytes_eq}
use remote_write_inspector.Prelude.Int.{pos}
use remote_write_inspector.Prelude.Sorting.{sort-perm}
use remote_write_inspector.Hash.Types.{Label}
use remote_write_inspector.Hash.{
  label_bytes, pair_less, sorted_pairs, canonical_hash, labels_in_canonical_order,
}
use remote_write_inspector.Hash.Canonical.{pair_less-StrictOrder, canonical_hash-perm}
use remote_write_inspector.Hash.Encoding.{
  NoNul, NulFree, canonical_hash-eq_iff_perm, canonical_hash_nul_collision,
}
use remote_write_inspector.Validate.Reasons.{duplicate_label_name, has_reason}
use remote_write_inspector.Validate.Report.{expected, validate_series-expected}
use remote_write_inspector.Validate.{validate_series}

abbrev metric : Label
metric = record { name = codes "__name__"; value = codes "up" }

abbrev job : Label
job = record { name = codes "job"; value = codes "a" }

-- In order, and with the labels swapped.
abbrev in_order : List Label
in_order = metric ∷ job ∷ []

abbrev swapped : List Label
swapped = job ∷ metric ∷ []

-- The number of bytes in place of a digest.
abbrev byte_count : Bytes → ℕ
byte_count s = length s

abbrev elem_nul : Bytes → Bool
elem_nul [] = false
elem_nul (c ∷ s) = (if leb c 0 then true else elem_nul s)

swapped_perm : Perm in_order swapped
swapped_perm = Perm.swap job metric []

visible : (s : Bytes) → elem_nul s ≡ false → NoNul s
visible [] h = tt
visible (c ∷ s) h = (ground arith, visible s (ground arith))

metric-NulFree : NulFree metric
metric-NulFree = (visible metric.name refl, visible metric.value refl)

job-NulFree : NulFree job
job-NulFree = (visible job.name refl, visible job.value refl)

same_order : sorted_pairs in_order ≡ sorted_pairs swapped
unfolding sorted_pairs
same_order = sort-perm pair_less pair_less-StrictOrder (hlevel) swapped_perm

canonical_hash-perm_example : canonical_hash byte_count in_order ≡ canonical_hash byte_count swapped
canonical_hash-perm_example = canonical_hash-perm byte_count in_order swapped swapped_perm

canonical_hash-eq_iff_perm_example :
    (canonical_hash byte_count in_order ≡ canonical_hash byte_count swapped) ↔ Perm in_order swapped
canonical_hash-eq_iff_perm_example =
    canonical_hash-eq_iff_perm byte_count in_order swapped (metric-NulFree, (job-NulFree, tt))
      (job-NulFree, (metric-NulFree, tt)) (λ _. ap label_bytes same_order)

canonical_hash_nul_collision_example :
    canonical_hash byte_count
      (record { name = codes "a"; value = codes "b" ++ (0 ∷ (codes "c" ++ (0 ∷ codes "d"))) } ∷ [])
    ≡ canonical_hash byte_count (
        record { name = codes "a"; value = codes "b" }
        ∷ record { name = codes "c"; value = codes "d" }
        ∷ [])
unfolding labels_in_canonical_order bytes_lt bytes_eq
canonical_hash_nul_collision_example =
    canonical_hash_nul_collision byte_count (codes "a") (codes "b") (codes "c") (codes "d") refl

validate_series-expected_example :
    has_reason duplicate_label_name (validate_series (pos 10) (pos 20) (job ∷ metric ∷ job ∷ []))
    ≡ expected (pos 10) (pos 20) duplicate_label_name (job ∷ metric ∷ job ∷ [])
validate_series-expected_example =
    validate_series-expected (pos 10) (pos 20) (job ∷ metric ∷ job ∷ []) duplicate_label_name
