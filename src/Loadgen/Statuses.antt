-- ===== src/Loadgen/Statuses.antt =====
-- What `statusSummary` prints can be read back.
use remote_write_inspector.Prelude.{
  ℕ, ◌+◌, ◌≡◌, refl, sym, ap, ap₂, ◌∙◌, Bool, true, false, not, ◌&&◌, List, [], ◌∷◌, ◌++◌, Option,
  none, some, if◌then◌else◌, ltb, ◌==◌, drop, arith, Bool-cases, inl, inr,
}
use mathlib.Core.List.{append_assoc}
use remote_write_inspector.Prelude.Bytes.{Bytes, codes, bytes_eq}
use remote_write_inspector.Config.{cut_equals}
use remote_write_inspector.Loadgen.Requests.{itoa}
use remote_write_inspector.Loadgen.Decimals.{read_digits, read_digits-itoa, no_marks, itoa-no_marks}
use remote_write_inspector.Loadgen.Report.{
  Snapshot, join_commas, status_parts, error_part, summary_parts, or_none, status_summary,
}

-- A reader of such a text: entries between commas, each a name, `=` and a number.
before_first : ℕ → List Bytes → List Bytes
before_first c [] = (c ∷ []) ∷ []
before_first c (p ∷ ps) = (c ∷ p) ∷ ps

split_commas : Bytes → List Bytes
split_commas [] = [] ∷ []
split_commas (c ∷ s) =
    let rest = split_commas s in if c == b',' then [] ∷ rest else before_first c rest

number_entry : Bytes → Option ℕ → List (Bytes × ℕ)
number_entry name none = []
number_entry name (some n) = (name, n) ∷ []

entry_of : Bytes × Bytes × Bool → List (Bytes × ℕ)
entry_of (name, value, false) = []
entry_of (name, value, true) = number_entry name (read_digits 0 value)

read_entries : List Bytes → List (Bytes × ℕ)
read_entries [] = []
read_entries (p ∷ ps) = entry_of (cut_equals p) ++ read_entries ps

pub read_summary : Bytes → List (Bytes × ℕ)
read_summary s = read_entries (split_commas s)

-- The entries that a summary is to have: the codes from a code on with a positive count, and the errors.
unfoldable pub status_entries : ℕ → List ℕ → List (Bytes × ℕ)
status_entries code [] = []
status_entries code (n ∷ counts) =
    let later = status_entries (code + 1) counts in
    if ltb 0 n then (itoa code, n) ∷ later else later

unfoldable pub error_entry : Bytes → ℕ → List (Bytes × ℕ)
error_entry name n = if ltb 0 n then (name, n) ∷ [] else []

no_comma : Bytes → Bool
no_comma [] = true
no_comma (c ∷ s) = not (c == b',') && no_comma s

abbrev AllNoComma : List Bytes → Type 0
AllNoComma [] = Unit {0}
AllNoComma (p ∷ ps) = (no_comma p ≡ true) × AllNoComma ps

AllNoComma-append : (ps qs : List Bytes) → AllNoComma ps → AllNoComma qs → AllNoComma (ps ++ qs)
AllNoComma-append [] qs a b = b
AllNoComma-append (p ∷ ps) qs (h, a) b = (h, AllNoComma-append ps qs a b)

split_commas-one : (p : Bytes) → no_comma p ≡ true → split_commas p ≡ p ∷ []
unfolding split_commas before_first no_comma
split_commas-one [] h = refl
split_commas-one (c ∷ p) h = ground (arith, split_commas-one p)

split_commas-more :
    (p rest : Bytes)
    → no_comma p ≡ true
    → split_commas (p ++ (codes "," ++ rest)) ≡ p ∷ split_commas rest
unfolding split_commas before_first no_comma
split_commas-more [] rest h = refl
split_commas-more (c ∷ p) rest h = ground (arith, split_commas-more p rest)

split_commas-join_commas :
    (p : Bytes) (ps : List Bytes)
    → AllNoComma (p ∷ ps)
    → split_commas (join_commas (p ∷ ps)) ≡ p ∷ ps
unfolding join_commas
split_commas-join_commas p [] (h, a) = split_commas-one p h
split_commas-join_commas p (q ∷ ps) (h, a) =
    split_commas-more p (join_commas (q ∷ ps)) h ∙ ap (◌∷◌ p) (split_commas-join_commas q ps a)

read_summary-or_none :
    (ps : List Bytes) → AllNoComma ps → read_summary (or_none ps) ≡ read_entries ps
unfolding read_summary or_none read_entries entry_of number_entry cut_equals split_commas
    before_first bytes_eq
read_summary-or_none [] a = refl
read_summary-or_none (p ∷ ps) a = ap read_entries (split_commas-join_commas p ps a)

no_marks-no_comma : (s : Bytes) → no_marks s ≡ true → no_comma s ≡ true
unfolding no_marks no_comma
no_marks-no_comma [] h = refl
no_marks-no_comma (c ∷ s) h = ground (arith, no_marks-no_comma s)

abbrev part : Bytes → ℕ → Bytes
part name n = name ++ (codes "=" ++ itoa n)

part-no_comma : (name : Bytes) (n : ℕ) → no_marks name ≡ true → no_comma (part name n) ≡ true
unfolding no_marks no_comma
part-no_comma [] n h = no_marks-no_comma (itoa n) (itoa-no_marks n)
part-no_comma (c ∷ name) n h = ground (arith, part-no_comma name n)

cut_equals-part :
    (name : Bytes) (n : ℕ) → no_marks name ≡ true → cut_equals (part name n) ≡ (name, itoa n, true)
unfolding cut_equals no_marks bytes_eq
cut_equals-part [] n h = refl
cut_equals-part (c ∷ name) n h = ground (arith, cut_equals-part name n)

part-entry_of :
    (name : Bytes) (n : ℕ)
    → no_marks name ≡ true
    → entry_of (cut_equals (part name n)) ≡ (name, n) ∷ []
unfolding entry_of number_entry
part-entry_of name n h =
    ap entry_of (cut_equals-part name n h) ∙ ap (number_entry name) (read_digits-itoa n)

status_parts-read :
    (code : ℕ) (counts : List ℕ)
    → AllNoComma (status_parts code counts)
      × (read_entries (status_parts code counts) ≡ status_entries code counts)
unfolding status_parts status_entries read_entries
status_parts-read code [] = (tt, refl)
status_parts-read code (n ∷ counts) =
    let (a, e) = status_parts-read (code + 1) counts in
    let marks = itoa-no_marks code in
    elim (Bool-cases (ltb 0 n)) [
      | inl t ↦
          rw t
            ((part-no_comma (itoa code) n marks, a), ap₂ ◌++◌ (part-entry_of (itoa code) n marks) e)
      | inr f ↦ rw f (a, e)
    ]

error_part-read :
    (name : Bytes) (n : ℕ)
    → no_marks name ≡ true
    → AllNoComma (error_part name n) × (read_entries (error_part name n) ≡ error_entry name n)
unfolding error_part error_entry read_entries
error_part-read name n h = elim (Bool-cases (ltb 0 n)) [
  | inl t ↦ rw t ((part-no_comma name n h, tt), ap (λ es. es ++ []) (part-entry_of name n h))
  | inr f ↦ rw f (tt, refl)
]

read_entries-append :
    (ps qs : List Bytes) → read_entries (ps ++ qs) ≡ read_entries ps ++ read_entries qs
unfolding read_entries
read_entries-append [] qs = refl
read_entries-append (p ∷ ps) qs =
    ap (λ es. entry_of (cut_equals p) ++ es) (read_entries-append ps qs)
    ∙ sym (append_assoc (entry_of (cut_equals p)) (read_entries ps) (read_entries qs))

-- Read back, a status summary has an entry for each status code from 100 on that was answered, in
-- their order and with its count, then one for the transport errors and one for the requests that were
-- not marshalled, where there are any, and no other: none where it is the text `none`.
pub read_summary-status_summary :
    (snap : Snapshot)
    → read_summary (status_summary snap) ≡ (
        status_entries 100 (drop 100 snap.status_codes)
        ++ (error_entry (codes "transport_error") snap.transport_errors
            ++ error_entry (codes "marshal_error") snap.marshal_errors))
unfolding status_summary summary_parts no_marks
read_summary-status_summary snap =
    let counts = drop 100 snap.status_codes in
    let (a, e) = status_parts-read 100 counts in
    let (b, f) = error_part-read (codes "transport_error") snap.transport_errors refl in
    let (c, g) = error_part-read (codes "marshal_error") snap.marshal_errors refl in
    let transport = error_part (codes "transport_error") snap.transport_errors in
    let marshal = error_part (codes "marshal_error") snap.marshal_errors in
    read_summary-or_none (status_parts 100 counts ++ (transport ++ marshal)) (
      AllNoComma-append (status_parts 100 counts) (transport ++ marshal) a
        (AllNoComma-append transport marshal b c))
    ∙ read_entries-append (status_parts 100 counts) (transport ++ marshal)
    ∙ ap₂ ◌++◌ e (read_entries-append transport marshal ∙ ap₂ ◌++◌ f g)
