-- ===== src/Hash/Fingerprint.antt =====
-- The printed fingerprint of a hash.
use native.Mathlib.Nat.{pow-suc}
use remote_write_inspector.Prelude.{
  ℕ, zero, suc, ◌/◌, ◌%◌, ◌^◌, ◌<◌, ◌≡◌, refl, ap, [], ◌∷◌, ◌++◌, arith, length, length-append, ◌↔◌,
}
use remote_write_inspector.Prelude.Bytes.{Bytes}
use remote_write_inspector.Hash.{hex_digit, hex_digits, series_fingerprint}

snoc-injective : (s t : Bytes) (c d : ℕ) → s ++ (c ∷ []) ≡ t ++ (d ∷ []) → (s ≡ t) × (c ≡ d)
snoc-injective [] [] c d e = (refl, ground arith)
snoc-injective [] (y ∷ []) c d e = absurd (ground arith)
snoc-injective [] (y ∷ z ∷ t) c d e = absurd (ground arith)
snoc-injective (x ∷ []) [] c d e = absurd (ground arith)
snoc-injective (x ∷ y ∷ s) [] c d e = absurd (ground arith)
snoc-injective (x ∷ s) (y ∷ t) c d e =
    let (p, q) = snoc-injective s t c d (ground arith) in (ground arith, q)

hex_digit-injective : (a b : ℕ) → a < 16 → b < 16 → hex_digit a ≡ hex_digit b → a ≡ b
unfolding hex_digit
hex_digit-injective a b ha hb e = ground arith

hex_digits-injective :
    (n a b : ℕ) → a < 16 ^ n → b < 16 ^ n → hex_digits n a ≡ hex_digits n b → a ≡ b
unfolding hex_digits
hex_digits-injective zero a b ha hb e = omega arith
hex_digits-injective (suc n) a b ha hb e =
    let (p, q) = snoc-injective (hex_digits n (a / 16)) (hex_digits n (b / 16)) _ _ e in
    omega (
      arith,
      hex_digits-injective n (a / 16) (b / 16) (omega (arith, pow-suc 16 n))
          (omega (arith, pow-suc 16 n)) p,
      hex_digit-injective (a % 16) (b % 16) (omega arith) (omega arith) q,
    )

length-hex_digits : (n a : ℕ) → length (hex_digits n a) ≡ n
unfolding hex_digits
length-hex_digits zero a = refl
length-hex_digits (suc n) a = omega (
  arith,
  length-append (hex_digits n (a / 16)) (hex_digit (a % 16) ∷ []),
  length-hex_digits n (a / 16),
)

-- A fingerprint has sixteen characters, and 64-bit hashes have the same fingerprint exactly when they
-- are equal.
pub series_fingerprint-injective :
    (a b : ℕ)
    → a < 2 ^ 64
    → b < 2 ^ 64
    → (length (series_fingerprint a) ≡ 16)
      × ((series_fingerprint a ≡ series_fingerprint b) ↔ (a ≡ b))
unfolding series_fingerprint
series_fingerprint-injective a b ha hb =
    (length-hex_digits 16 a, (hex_digits-injective 16 a b ha hb, λ e. ap (hex_digits 16) e))
