-- ===== src/Config/Projections.antt =====
-- Which top-series labels `normalizeTopSeriesLabels` accepts.
use remote_write_inspector.Prelude.{
  ◌≡◌, refl, sym, ◌∙◌, ap, subst, ◌↔◌, ◌⊎◌, inl, inr, true, false, List, [], ◌∷◌, ◌++◌, none, map,
  arith, Option-cases,
}
use remote_write_inspector.Prelude.Bytes.{Bytes, bytes_eq}
use remote_write_inspector.Validate.{label_name_match}
use remote_write_inspector.Identity.{contains_string}
use remote_write_inspector.Config.Types.{TopSeriesLabel}
use remote_write_inspector.Config.{
  reserved_names, default_output, check_projection, normalize_projections,
  normalize_top_series_labels,
}

-- Every source and output is a label name, no output is reserved, and none of them stands twice or
-- among the ones seen.
abbrev pub Accepted : List Bytes → List Bytes → List Bytes → List TopSeriesLabel → Type 0
Accepted reserved sources outputs [] = Unit {0}
Accepted reserved sources outputs (q ∷ qs) =
    ((label_name_match q.source ≡ true)
      × (label_name_match q.output ≡ true)
      × (contains_string sources q.source ≡ false)
      × (contains_string outputs q.output ≡ false)
      × (contains_string reserved q.output ≡ false))
    × Accepted reserved (q.source ∷ sources) (q.output ∷ outputs) qs

check_projection_iff :
    (reserved sources outputs : List Bytes) (q : TopSeriesLabel)
    → (check_projection reserved sources outputs q ≡ none) ↔ (
        (label_name_match q.source ≡ true)
        × (label_name_match q.output ≡ true)
        × (contains_string sources q.source ≡ false)
        × (contains_string outputs q.output ≡ false)
        × (contains_string reserved q.output ≡ false))
unfolding check_projection
check_projection_iff reserved sources outputs q =
    ((λ h. ground arith), λ (a, b, c, d, e). rw (a, b, c, d, e) refl)

pub sum-cases : {A B : Type 0} (s : A ⊎ B) → ((a : A) × (s ≡ inl a)) ⊎ ((b : B) × (s ≡ inr b))
sum-cases (inl a) = inl (a, refl)
sum-cases (inr b) = inr (b, refl)

projections-Accepted :
    (reserved sources outputs : List Bytes) (ps qs : List TopSeriesLabel)
    → normalize_projections reserved sources outputs ps ≡ inr qs
    → Accepted reserved sources outputs (map default_output ps) × (qs ≡ map default_output ps)
unfolding normalize_projections
projections-Accepted reserved sources outputs [] qs h = (tt, ground arith)
projections-Accepted reserved sources outputs (p ∷ ps) qs h =
    let q = default_output p in
    elim (Option-cases (check_projection reserved sources outputs q)) [
      | inr (e, bad) ↦ absurd (ground arith)
      | inl fine ↦
          elim (sum-cases
            (normalize_projections reserved (q.source ∷ sources) (q.output ∷ outputs) ps)) [
              | inl (e, bad) ↦ absurd (ground arith)
              | inr (rest, good) ↦
                  let (a, same) =
                    projections-Accepted reserved (q.source ∷ sources) (q.output ∷ outputs) ps rest
                      good in
                  let one = (check_projection_iff reserved sources outputs q).0 fine in
                  ((one, a), ground (arith, same))
            ]
    ]

projections_total :
    (reserved sources outputs : List Bytes) (ps : List TopSeriesLabel)
    → Accepted reserved sources outputs (map default_output ps)
    → normalize_projections reserved sources outputs ps ≡ inr (map default_output ps)
unfolding normalize_projections
projections_total reserved sources outputs [] a = refl
projections_total reserved sources outputs (p ∷ ps) a =
    let q = default_output p in
    let one = (check_projection_iff reserved sources outputs q).1 a.0 in
    let rest = projections_total reserved (q.source ∷ sources) (q.output ∷ outputs) ps a.1 in
    rw (one, normalize_projections) (rw rest refl)

pub default_output_twice :
    (p : TopSeriesLabel) → default_output (default_output p) ≡ default_output p
unfolding default_output bytes_eq
default_output_twice p = ground arith

default_outputs_twice :
    (ps : List TopSeriesLabel) → map default_output (map default_output ps) ≡ map default_output ps
default_outputs_twice [] = refl
default_outputs_twice (p ∷ ps) = cc (default_output_twice p, default_outputs_twice ps)

-- `normalizeTopSeriesLabels` accepts exactly the projections that, with `source_` and the source for
-- an output not given, have label names as sources and outputs, no source or output twice, and no
-- reserved output or one named after an identity; and it changes nothing but these defaults.
pub normalize_top_series_labels_iff :
    (identity_names : List Bytes) (ps qs : List TopSeriesLabel)
    → (normalize_top_series_labels identity_names ps ≡ inr qs) ↔ (
        Accepted (identity_names ++ reserved_names) [] [] (map default_output ps)
        × (qs ≡ map default_output ps))
unfolding normalize_top_series_labels
normalize_top_series_labels_iff names ps qs = (
  projections-Accepted (names ++ reserved_names) [] [] ps qs,
  λ (a, same). projections_total (names ++ reserved_names) [] [] ps a ∙ ap inr (sym same),
)

-- What was accepted is accepted again as it is.
pub normalize_top_series_labels_again :
    (identity_names : List Bytes) (ps qs : List TopSeriesLabel)
    → normalize_top_series_labels identity_names ps ≡ inr qs
    → normalize_top_series_labels identity_names qs ≡ inr qs
normalize_top_series_labels_again names ps qs h =
    let (a, same) = (normalize_top_series_labels_iff names ps qs).0 h in
    let twice : map default_output qs ≡ qs =
      ap (map default_output) same ∙ default_outputs_twice ps ∙ sym same in
    (normalize_top_series_labels_iff names qs qs).1
      (subst (Accepted (names ++ reserved_names) [] []) (sym same ∙ sym twice) a, sym twice)
