-- ===== src/Config/Parsing.antt =====
-- What `ParseTopSeriesLabel` makes of the text of a flag.
use remote_write_inspector.Prelude.{◌≢◌, ◌≡◌, refl, true, false, [], ◌∷◌, ◌++◌, inr, arith}
use remote_write_inspector.Prelude.Sorting.{All}
use remote_write_inspector.Prelude.Bytes.{Bytes, codes, bytes_eq}
use remote_write_inspector.Config.{cut_equals, parse_top_series_label}

-- 61 is the code of `=`.
abbrev pub NoEquals : Bytes → Type 0
NoEquals s = All (λ c. c ≢ 61) s

cut_at_equals :
    (before after : Bytes)
    → NoEquals before
    → cut_equals (before ++ (61 ∷ after)) ≡ (before, after, true)
unfolding cut_equals bytes_eq
cut_at_equals [] after n = refl
cut_at_equals (c ∷ before) after n = ground (arith, cut_at_equals before after n.1)

cut_without_equals : (s : Bytes) → NoEquals s → cut_equals s ≡ (s, [], false)
unfolding cut_equals bytes_eq
cut_without_equals [] n = refl
cut_without_equals (c ∷ s) n = ground (arith, cut_without_equals s n.1)

-- A source without `=`, alone or before `=` and an output, all free of outer spaces and not empty, is
-- parsed as these two; alone it gets `source_` and the source as its output.
pub parse_top_series_label_printed :
    (trim_space : Bytes → Bytes) (source output : Bytes)
    → NoEquals source
    → trim_space source ≡ source
    → trim_space output ≡ output
    → trim_space (source ++ (61 ∷ output)) ≡ source ++ (61 ∷ output)
    → source ≢ []
    → output ≢ []
    → (parse_top_series_label trim_space (source ++ (61 ∷ output))
        ≡ inr (record { source = source; output = output }))
      × (parse_top_series_label trim_space source
          ≡ inr (record { source = source; output = codes "source_" ++ source }))
unfolding parse_top_series_label bytes_eq
parse_top_series_label_printed trim_space [] output n a b c d e = absurd (d refl)
parse_top_series_label_printed trim_space (x ∷ source) [] n a b c d e = absurd (e refl)
parse_top_series_label_printed trim_space (x ∷ source) (y ∷ output) n a b c d e = (
  rw (c, cut_at_equals (x ∷ source) (y ∷ output) n, a, b) refl,
  rw (a, cut_without_equals (x ∷ source) n) (rw a refl),
)
