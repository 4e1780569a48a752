-- ===== src/Inspector/Labels.antt =====
-- internal/inspector/inspector.go, server.go: the label values that a counter takes. `WithLabelValues`
-- panics where a value is not valid UTF-8, by `utf8.ValidString`.
use remote_write_inspector.Prelude.{
  ℕ, zero, suc, ◌≡◌, Bool, true, false, ◌&&◌, List, [], ◌∷◌, ◌++◌, Option, none, some, ◌==◌,
  if◌then◌else◌, ltb, leb, arith,
}
use remote_write_inspector.Prelude.Bytes.{Bytes}
use remote_write_inspector.Identity.Types.{RequestIdentity}
use remote_write_inspector.Identity.{label_values}

-- How many bytes a character still takes, and the range of the next one.
abbrev Pending : Type 0
Pending = ℕ × ℕ × ℕ

-- What follows the first byte of a character.
unfoldable pub first_byte : ℕ → Option Pending
first_byte c =
    if ltb c 0x80
    then some (0, 0x80, 0xBF)
    else if ltb c 0xC2
    then none
    else if ltb c 0xE0
    then some (1, 0x80, 0xBF)
    else if c == 0xE0
    then some (2, 0xA0, 0xBF)
    else if c == 0xED
    then some (2, 0x80, 0x9F)
    else if ltb c 0xF0
    then some (2, 0x80, 0xBF)
    else if c == 0xF0
    then some (3, 0x90, 0xBF)
    else if ltb c 0xF4
    then some (3, 0x80, 0xBF)
    else if c == 0xF4
    then some (3, 0x80, 0x8F)
    else none

unfoldable pub next_byte : Pending → ℕ → Option Pending
next_byte (zero, low, high) c = first_byte c
next_byte (suc n, low, high) c = if leb low c && leb c high then some (n, 0x80, 0xBF) else none

unfoldable pub valid_after : Option Pending → Bytes → Bool
valid_after none s = false
valid_after (some (n, low, high)) [] = n == 0
valid_after (some p) (c ∷ s) = valid_after (next_byte p c) s

-- `utf8.ValidString`.
unfoldable pub valid_utf8 : Bytes → Bool
valid_utf8 s = valid_after (some (0, 0x80, 0xBF)) s

-- `WithLabelValues` does not panic.
unfoldable pub valid_labels : List Bytes → Bool
valid_labels [] = true
valid_labels (v ∷ values) = valid_utf8 v && valid_labels values

valid_labels-++ :
    (values extra : List Bytes)
    → valid_labels values ≡ true
    → valid_labels extra ≡ true
    → valid_labels (values ++ extra) ≡ true
unfolding valid_labels
valid_labels-++ [] extra h e = e
valid_labels-++ (v ∷ values) extra h e =
    let rest = valid_labels-++ values extra (ground arith) e in ground arith

-- The values of an identity with further ones.
pub valid_labels-label_values :
    (identity : RequestIdentity) (extra : List Bytes)
    → valid_labels identity.values ≡ true
    → valid_labels extra ≡ true
    → valid_labels (label_values identity extra) ≡ true
unfolding label_values
valid_labels-label_values identity extra h e = valid_labels-++ identity.values extra h e
