-- ===== src/Loadgen/Carried.antt =====
-- The series of a request of the load generator and what protobuf carries over of them.
use remote_write_inspector.Prelude.{
  ℕ, zero, suc, ◌+◌, ◌*◌, ◌%◌, ◌≡◌, refl, ap, List, [], ◌∷◌, length, arith,
}
use remote_write_inspector.Prelude.Int.{ℤ, pos_part}
use remote_write_inspector.Inspector.Types.{Sample, TimeSeries}
use remote_write_inspector.Inspector.Judged.{sample_count}
use remote_write_inspector.Loadgen.{LoadConfig}
use remote_write_inspector.Loadgen.Requests.{
  Draws, GeneratedSample, GeneratedSeries, samples_from, generated_series, series_from,
  request_series,
}

-- What protobuf carries over: the labels, and of each sample its time and its value. There are no
-- histograms.
abbrev pub CarriedSamples : List GeneratedSample → List Sample → Type 0
CarriedSamples [] [] = Unit {0}
CarriedSamples [] (y ∷ ys) = ⊥
CarriedSamples (x ∷ xs) [] = ⊥
CarriedSamples (x ∷ xs) (y ∷ ys) =
    (y.timestamp ≡ x.timestamp) × (y.value_bits ≡ x.value_bits) × CarriedSamples xs ys

abbrev pub Carried : List GeneratedSeries → List TimeSeries → Type 0
Carried [] [] = Unit {0}
Carried [] (t ∷ ts) = ⊥
Carried (s ∷ ss) [] = ⊥
Carried (s ∷ ss) (t ∷ ts) =
    (t.labels ≡ s.labels) × CarriedSamples s.samples t.samples × (t.histograms ≡ []) × Carried ss ts

length-CarriedSamples :
    (xs : List GeneratedSample) (ys : List Sample) → CarriedSamples xs ys → length ys ≡ length xs
length-CarriedSamples [] [] c = refl
length-CarriedSamples [] (y ∷ ys) c = absurd c
length-CarriedSamples (x ∷ xs) [] c = absurd c
length-CarriedSamples (x ∷ xs) (y ∷ ys) (t, v, c) = ap suc (length-CarriedSamples xs ys c)

unfoldable pub generated_count : List GeneratedSeries → ℕ
generated_count [] = 0
generated_count (s ∷ ss) = length s.samples + generated_count ss

pub sample_count-Carried :
    (ss : List GeneratedSeries) (ts : List TimeSeries)
    → Carried ss ts
    → sample_count ts ≡ generated_count ss
unfolding generated_count
sample_count-Carried [] [] c = refl
sample_count-Carried [] (t ∷ ts) c = absurd c
sample_count-Carried (s ∷ ss) [] c = absurd c
sample_count-Carried (s ∷ ss) (t ∷ ts) (l, same, none_left, c) = omega (
  arith,
  length-CarriedSamples s.samples t.samples same,
  ap length none_left,
  sample_count-Carried ss ts c,
)

module _ {F : Type 0} (load : LoadConfig F) (value : ℕ → ℤ → ℕ → ℕ) (now : ℕ) (draws : Draws) where
  length-samples_from : (idx id k n : ℕ) → length (samples_from load value now draws idx id k n) ≡ n
  unfolding samples_from
  length-samples_from idx id k zero = refl
  length-samples_from idx id k (suc n) = ap suc (length-samples_from idx id (k + 1) n)

  generated_count-series_from :
      (start idx n : ℕ)
      → generated_count (series_from load value now draws start idx n)
        ≡ n * pos_part load.samples_per_series
  unfolding series_from generated_series generated_count
  generated_count-series_from start idx zero = omega arith
  generated_count-series_from start idx (suc n) = grind (
    arith,
    length-samples_from idx ((start + idx) % pos_part load.active_series) 0
        (pos_part load.samples_per_series),
    generated_count-series_from start (idx + 1) n,
  )

  pub generated_count-request_series :
      (seq : ℕ)
      → generated_count (request_series load value now draws seq)
        ≡ pos_part load.series_per_request * pos_part load.samples_per_series
  unfolding request_series
  generated_count-request_series seq =
      generated_count-series_from _ 0 (pos_part load.series_per_request)
