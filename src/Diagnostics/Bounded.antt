-- ===== src/Diagnostics/Bounded.antt =====
-- The label array of a log record: a prefix of the labels, as long as the byte limit allows.
use remote_write_inspector.Prelude.{
  ℕ, ◌+◌, ◌≡◌, refl, ◌⊎◌, inl, inr, Bool, true, false, List, [], ◌∷◌, ◌++◌, Option, none, some,
  arith, if◌then◌else◌, length, Bool-cases, Option-cases, ap, subst, ◌∙◌,
}
use remote_write_inspector.Prelude.Bytes.{Bytes}
use remote_write_inspector.Prelude.Int.{ℤ, pos, ◌≤ℤ◌, ltb_ℤ}
use remote_write_inspector.Hash.Types.{Label}
use remote_write_inspector.Diagnostics.{bounded_from, bounded_log_labels}

module _ (encode : Label → Option Bytes) where
  abbrev pub encoded_length : Label → ℕ
  encoded_length l = elim (encode l) [ none ↦ 0 | some e ↦ length e ]

  -- The bytes of some labels inside a JSON array, with a comma before each but a first one.
  unfoldable pub joined_length : Bool → List Label → ℕ
  joined_length after [] = 0
  joined_length after (l ∷ ls) = (if after then 1 else 0) + encoded_length l + joined_length true ls

  module _ (max_bytes : ℤ) where
    -- Why the labels `rest` are left out: there are none, or the first of them cannot be encoded or
    -- would exceed the limit after `used` bytes.
    abbrev pub Stops : ℕ → Bool → List Label → Bool → Type 0
    Stops used after [] truncated = truncated ≡ false
    Stops used after (l ∷ ls) truncated =
        (truncated ≡ true)
        × ((encode l ≡ none)
            ⊎ (ltb_ℤ max_bytes (pos (used + (if after then 1 else 0) + encoded_length l)) ≡ true))

    abbrev some_after : Bool → List Label → Bool
    some_after after [] = after
    some_after after (l ∷ ls) = true

    some_after-true : (ls : List Label) → some_after true ls ≡ true
    some_after-true [] = refl
    some_after-true (l ∷ ls) = refl

    -- The result `(out, truncated)` of the loop on `labels` after `used` bytes.
    pub record Bounded (used : ℕ) (after : Bool) (labels out : List Label) (truncated : Bool)
        : Type 0 where
      pub rest : List Label
      pub parts : labels ≡ out ++ rest
      pub fits : (out ≡ []) ⊎ (pos (used + joined_length after out) ≤ℤ max_bytes)
      pub stops : Stops (used + joined_length after out) (some_after after out) rest truncated

    longer :
        (used : ℕ) (after : Bool) (l : Label) (ls : List Label) (x : Bytes)
        → encode l ≡ some x
        → ltb_ℤ max_bytes (pos (used + (if after then 1 else 0) + length x)) ≡ false
        → {out : List Label} {truncated : Bool}
        → Bounded (used + (if after then 1 else 0) + length x) true ls out truncated
        → Bounded used after (l ∷ ls) (l ∷ out) truncated
    unfolding joined_length
    longer used after l ls x e room {out} {truncated} b =
        let size : encoded_length l ≡ length x = rw (e, encoded_length) in
        let total : used + (if after then 1 else 0) + length x + joined_length true out
            ≡ used + joined_length after (l ∷ out) =
          omega (arith, size) in
        record {
          rest = b.rest;
          parts = ap (◌∷◌ l) b.parts;
          fits = inr (elim b.fits [
            | inl none_left ↦
                let zero_left : joined_length true out ≡ 0 =
                  ap (joined_length true) none_left ∙ refl in
                ground (arith, total, zero_left, room)
            | inr f ↦ omega (arith, total, f)
          ]);
          stops =
              subst (λ n. Stops n true b.rest truncated) total
                (subst
                  (λ a.
                    Stops (used + (if after then 1 else 0) + length x + joined_length true out) a
                      b.rest truncated)
                  (some_after-true out) b.stops);
        }

    bounded_from-Bounded :
        (used : ℕ) (after : Bool) (labels : List Label)
        → Bounded used after labels
            (bounded_from encode max_bytes used after labels).0
            (bounded_from encode max_bytes used after labels).1
    unfolding bounded_from joined_length
    bounded_from-Bounded used after [] = record {
      rest = [];
      parts = refl;
      fits = inl refl;
      stops = refl;
    }
    bounded_from-Bounded used after (l ∷ ls) = elim (Option-cases (encode l)) [
      | inl e ↦
          rw (e, bounded_from)
            (record { rest = l ∷ ls; parts = refl; fits = inl refl; stops = (refl, inl e) })
      | inr (x, e) ↦
          let sep : ℕ = if after then 1 else 0 in
          let used' = used + sep + length x in
          let size : encoded_length l ≡ length x = rw (e, encoded_length) in
          elim (Bool-cases (ltb_ℤ max_bytes (pos used'))) [
            | inl over ↦
                rw (e, bounded_from)
                  (rw over (record {
                    rest = l ∷ ls;
                    parts = refl;
                    fits = inl refl;
                    stops = (refl, inr (ground (arith, size)));
                  }))
            | inr room ↦
                rw (e, bounded_from)
                  (rw room (longer used after l ls x e room (bounded_from-Bounded used' true ls)))
          ]
    ]

    -- The labels logged are a prefix of the labels. Where it is not empty its JSON array has at
    -- most `maxBytes` bytes; and it is reported as truncated exactly where labels are left out, the
    -- first of which cannot be encoded or would exceed the limit.
    pub bounded_log_labels-Bounded :
        (labels : List Label)
        → Bounded 2 false labels
            (bounded_log_labels encode max_bytes labels).0
            (bounded_log_labels encode max_bytes labels).1
    unfolding bounded_log_labels
    bounded_log_labels-Bounded labels = bounded_from-Bounded 2 false labels
