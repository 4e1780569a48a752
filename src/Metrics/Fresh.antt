-- ===== src/Metrics/Fresh.antt =====
-- The names of the collectors are new to a registry that holds none of the program's.
use remote_write_inspector.Prelude.{
  ◌≡◌, refl, inl, inr, Bool, true, false, not, ◌&&◌, List, [], ◌∷◌, ◌++◌, arith, Bool-cases,
}
use remote_write_inspector.Prelude.Bytes.{Bytes, codes, bytes_eq}
use remote_write_inspector.Identity.{contains_string}
use remote_write_inspector.Identity.Fields.{Distinct}
use remote_write_inspector.Config.Types.{TopSeriesLabel}
use remote_write_inspector.Metrics.{new_metrics, capture_collectors}
use remote_write_inspector.Metrics.Labels.{behind, names_of, contains_string-append}
use remote_write_inspector.Metrics.Registry.{starts_with}

-- What begins the name of each collector of the program.
abbrev pub prefix : Bytes
prefix = codes "remote_write_inspector_"

-- No name that a registry holds begins with it.
abbrev pub Clear : List Bytes → Bytes → Type 0
Clear old p = (w : Bytes) → contains_string old w ≡ true → starts_with p w ≡ false

all_start : List Bytes → Bool
all_start [] = true
all_start (w ∷ ws) = starts_with prefix w && all_start ws

distinct : List Bytes → List Bytes → Bool
distinct seen [] = true
distinct seen (w ∷ ws) = not (contains_string seen w) && distinct (w ∷ seen) ws

-- Different names with the prefix are different from those of a clear registry too.
distinct-Distinct :
    (old seen names : List Bytes)
    → Clear old prefix
    → all_start names ≡ true
    → distinct seen names ≡ true
    → Distinct (seen ++ old) names
unfolding all_start distinct
distinct-Distinct old seen [] c s d = tt
distinct-Distinct old seen (w ∷ ws) c s d = (
  elim (Bool-cases (contains_string old w)) [
    | inl t ↦ absurd (ground (arith, c w t))
    | inr f ↦ ground (arith, contains_string-append seen old w)
  ],
  distinct-Distinct old (w ∷ seen) ws c (ground arith) (ground arith),
)

Distinct-split :
    (seen xs ys : List Bytes)
    → Distinct seen (xs ++ ys)
    → Distinct seen xs × Distinct (behind xs seen) ys
Distinct-split seen [] ys d = (tt, d)
Distinct-split seen (x ∷ xs) ys (fresh, d) =
    let (a, b) = Distinct-split (x ∷ seen) xs ys d in ((fresh, a), b)

module _ (old names : List Bytes) (ps : List TopSeriesLabel) (clear : Clear old prefix) where
  -- The names of all collectors are new.
  pub new_names :
      Distinct old (names_of (new_metrics names ps))
      × Distinct
          (behind (names_of (new_metrics names ps)) old)
          (names_of (capture_collectors names))
  unfolding new_metrics capture_collectors all_start distinct contains_string bytes_eq starts_with
  new_names =
      Distinct-split old (names_of (new_metrics names ps)) (names_of (capture_collectors names)) (
        distinct-Distinct old []
          (names_of (new_metrics names ps) ++ names_of (capture_collectors names)) clear refl refl)
