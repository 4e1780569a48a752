-- ===== src/Metrics/Labels.antt =====
-- The collectors have names of their own, and each has label names of its own.
use remote_write_inspector.Prelude.{
  ◌≡◌, refl, sym, ap, subst, inl, inr, false, ◌||◌, List, [], ◌∷◌, ◌++◌, none, arith, Bool-cases,
}
use remote_write_inspector.Prelude.Bytes.{Bytes, codes, bytes_eq, bytes_eq_iff}
use remote_write_inspector.Prelude.Int.{ℤ}
use remote_write_inspector.Identity.Types.{IdentitySet, ok}
use remote_write_inspector.Identity.{identity_definition, contains_string, new_identity_set}
use remote_write_inspector.Identity.Fields.{Distinct, AllSupported, new_identity_set-ok}
use remote_write_inspector.Config.Types.{TopSeriesLabel}
use remote_write_inspector.Config.{reserved_names, normalize_top_series_labels}
use remote_write_inspector.Config.Projections.{Accepted, normalize_top_series_labels_iff}
use remote_write_inspector.Metrics.{
  Collector, append_labels, outputs, top_series_label_names, new_metrics,
}

-- The first list in reverse before the second.
abbrev pub behind : List Bytes → List Bytes → List Bytes
behind [] seen = seen
behind (x ∷ xs) seen = behind xs (x ∷ seen)

pub behind-contains_string :
    (xs seen : List Bytes) (w : Bytes)
    → contains_string (behind xs seen) w ≡ contains_string xs w || contains_string seen w
unfolding contains_string
behind-contains_string [] seen w = refl
behind-contains_string (x ∷ xs) seen w = ground (arith, behind-contains_string xs (x ∷ seen) w)

pub append-Distinct :
    (seen xs ys : List Bytes)
    → Distinct seen xs
    → Distinct (behind xs seen) ys
    → Distinct seen (xs ++ ys)
append-Distinct seen [] ys d e = e
append-Distinct seen (x ∷ xs) ys (fresh, d) e = (fresh, append-Distinct (x ∷ seen) xs ys d e)

-- A name that is no identity is not among supported ones.
not_supported :
    (names : List Bytes) (w : Bytes)
    → AllSupported names
    → identity_definition w ≡ none
    → contains_string names w ≡ false
unfolding contains_string
not_supported [] w s h = refl
not_supported (name ∷ names) w ((def, e), s) h =
    let other : bytes_eq name w ≡ false = elim (Bool-cases (bytes_eq name w)) [
      | inr f ↦ f
      | inl t ↦ absurd (ground (arith, e, h, ap identity_definition ((bytes_eq_iff name w).0 t)))
    ] in
    ground (arith, other, not_supported names w s h)

outputs-Distinct :
    (reserved sources seen before : List Bytes) (ps : List TopSeriesLabel)
    → ((w : Bytes)
        → contains_string reserved w ≡ false
        → contains_string before w ≡ false
        → contains_string seen w ≡ false)
    → Accepted reserved sources before ps
    → Distinct seen (outputs ps)
unfolding contains_string
outputs-Distinct reserved sources seen before [] h a = tt
outputs-Distinct reserved sources seen before (p ∷ ps) h ((_, _, _, fresh, free), a) = (
  h p.output free fresh,
  outputs-Distinct reserved (p.source ∷ sources) (p.output ∷ seen) (p.output ∷ before) ps
      (λ w r b. ground (arith, h w)) a,
)

pub contains_string-append :
    (xs ys : List Bytes) (w : Bytes)
    → contains_string (xs ++ ys) w ≡ contains_string xs w || contains_string ys w
unfolding contains_string
contains_string-append [] ys w = refl
contains_string-append (x ∷ xs) ys w = ground (arith, contains_string-append xs ys w)

-- The label names of all collectors.
abbrev pub DistinctLabels : List Collector → Type 0
DistinctLabels [] = Unit {0}
DistinctLabels (c ∷ cs) = Distinct [] c.labels × DistinctLabels cs

abbrev pub names_of : List Collector → List Bytes
names_of [] = []
names_of (c ∷ cs) = c.name ∷ names_of cs

module _ (names : List Bytes) (d : Distinct [] names) (s : AllSupported names) where
  pub absent :
      (w : Bytes) → identity_definition w ≡ none → contains_string (behind names []) w ≡ false
  unfolding contains_string
  absent w h = ground (arith, behind-contains_string names [] w, not_supported names w s h)

  pub one_more :
      (w : Bytes) → identity_definition w ≡ none → Distinct [] (append_labels names (w ∷ []))
  unfolding append_labels
  one_more w h = append-Distinct [] names (w ∷ []) d (absent w h, tt)

  abbrev fixed_labels : List Bytes
  fixed_labels =
      codes "reason" ∷ codes "series_name" ∷ codes "host_name" ∷ codes "series_fingerprint" ∷ []

  -- The names and the fixed labels are reserved.
  pub reserved_covers :
      (w : Bytes)
      → contains_string (names ++ reserved_names) w ≡ false
      → contains_string (behind (names ++ fixed_labels) []) w ≡ false
  unfolding contains_string
  reserved_covers w free = ground (
    arith,
    behind-contains_string (names ++ fixed_labels) [] w,
    contains_string-append names fixed_labels w,
    contains_string-append names reserved_names w,
  )

  pub top_series-Distinct :
      (ps : List TopSeriesLabel)
      → Accepted (names ++ reserved_names) [] [] ps
      → Distinct [] (top_series_label_names names ps)
  unfolding top_series_label_names append_labels contains_string identity_definition bytes_eq
  top_series-Distinct ps a =
      append-Distinct [] (names ++ fixed_labels) (outputs ps)
        (append-Distinct [] names fixed_labels d (
          absent (codes "reason") refl,
          (
            absent (codes "series_name") refl,
            (absent (codes "host_name") refl, (absent (codes "series_fingerprint") refl, tt)),
          ),
        ))
        (outputs-Distinct (names ++ reserved_names) [] (behind (names ++ fixed_labels) []) [] ps
          (λ w free b. reserved_covers w free) a)

-- For identity names that `NewIdentitySet` accepts and projections that `normalizeTopSeriesLabels`
-- returns for them, no two of the collectors that `newMetrics` registers have one name, and none has a
-- label name twice.
pub new_metrics-Distinct :
    (names : List Bytes) (n : ℤ) (ids : IdentitySet) (ps qs : List TopSeriesLabel)
    → new_identity_set names n ≡ ok ids
    → normalize_top_series_labels names ps ≡ inr qs
    → Distinct [] (names_of (new_metrics names qs)) × DistinctLabels (new_metrics names qs)
unfolding new_metrics contains_string bytes_eq identity_definition
new_metrics-Distinct names n ids ps qs accepted returned =
    let (d, s, _, _) = new_identity_set-ok names n ids accepted in
    let (a, same) = (normalize_top_series_labels_iff names ps qs).0 returned in
    let projections : Accepted (names ++ reserved_names) [] [] qs =
      subst (Accepted (names ++ reserved_names) [] []) (sym same) a in
    (
      (
        refl,
        (
          refl,
          (
            refl,
            (
              refl,
              (
                refl,
                (
                  refl,
                  (
                    refl,
                    (refl, (refl, (refl, (refl, (refl, (refl, (refl, (refl, (refl, tt))))))))),
                  ),
                ),
              ),
            ),
          ),
        ),
      ),
      (
        one_more names d s (codes "result") refl,
        (
          d,
          (
            one_more names d s (codes "reason") refl,
            (
              one_more names d s (codes "reason") refl,
              (
                (refl, tt),
                (
                  (refl, tt),
                  (
                    (refl, tt),
                    (
                      (refl, tt),
                      (
                        (refl, (refl, tt)),
                        (
                          tt,
                          (
                            tt,
                            (
                              tt,
                              (tt, (tt, (tt, (top_series-Distinct names d s qs projections, tt)))),
                            ),
                          ),
                        ),
                      ),
                    ),
                  ),
                ),
              ),
            ),
          ),
        ),
      ),
    )
