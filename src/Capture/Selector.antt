-- ===== src/Capture/Selector.antt =====
-- What `matches` accepts.
use remote_write_inspector.Prelude.{
  ◌≡◌, refl, Bool, true, false, ◌&&◌, ◌||◌, not, List, [], ◌∷◌, none, some, arith, if◌then◌else◌,
}
use remote_write_inspector.Prelude.Bytes.{bytes_eq}
use remote_write_inspector.Hash.Types.{Label}
use remote_write_inspector.Capture.{Matcher, occurrences, matches}

-- Every label of the matcher's name has an accepted value.
unfoldable pub every_occurrence : Matcher → List Label → Bool
every_occurrence m [] = true
every_occurrence m (l ∷ ls) =
    (not (bytes_eq l.name m.name) || m.accepts l.value) && every_occurrence m ls

unfoldable pub occurs : Matcher → List Label → Bool
occurs m [] = false
occurs m (l ∷ ls) = bytes_eq l.name m.name || occurs m ls

-- A matcher holds of labels: on every occurrence of its name, or, where there is none, on the empty
-- text.
unfoldable pub all_hold : List Matcher → List Label → Bool
all_hold [] ls = true
all_hold (m ∷ ms) ls = (every_occurrence m ls && (occurs m ls || m.accepts [])) && all_hold ms ls

occurrences_lem :
    (m : Matcher) (found : Bool) (ls : List Label)
    → occurrences m found ls ≡ (if every_occurrence m ls then some (found || occurs m ls) else none)
unfolding occurrences every_occurrence occurs
occurrences_lem m true [] = refl
occurrences_lem m false [] = refl
occurrences_lem m found (l ∷ ls) =
    ground (arith, occurrences_lem m true ls, occurrences_lem m found ls)

-- A series is selected exactly when every matcher accepts all values of its label, or the empty text
-- where the label is absent; a repeated label must be accepted each time.
pub matches-all_hold : (ms : List Matcher) (ls : List Label) → matches ms ls ≡ all_hold ms ls
unfolding matches all_hold
matches-all_hold [] ls = refl
matches-all_hold (m ∷ ms) ls = ground (arith, occurrences_lem m false ls, matches-all_hold ms ls)
