-- ===== src/Prelude/Bytes.antt =====
-- Go strings: lists of bytes, with `==`, the byte order `<`, and string literals.
use Prim.Native.Char.{code}
use Prim.Native.String.{String}
use remote_write_inspector.Prelude.{
  ℕ, ◌≡◌, refl, ◌↔◌, Bool, true, false, List, [], ◌∷◌, arith, ltb, ◌==◌, if◌then◌else◌, ℕ_discrete,
  ◌⊎◌, inl, inr,
}

abbrev pub Bytes : Type 0
Bytes = List ℕ

-- The code points of a literal, which are its bytes: the program's literals are ASCII.
abbrev pub codes : String → Bytes
codes String.[] = []
codes (String.◌∷◌ c s) = code c ∷ codes s

-- `==` on strings.
unfoldable pub bytes_eq : Bytes → Bytes → Bool
bytes_eq [] [] = true
bytes_eq [] (d ∷ t) = false
bytes_eq (c ∷ s) [] = false
bytes_eq (c ∷ s) (d ∷ t) = if c == d then bytes_eq s t else false

-- `<` on strings: bytewise lexical.
unfoldable pub bytes_lt : Bytes → Bytes → Bool
bytes_lt s [] = false
bytes_lt [] (d ∷ t) = true
bytes_lt (c ∷ s) (d ∷ t) = if c == d then bytes_lt s t else ltb c d

pub bytes_eq_sound : (s t : Bytes) → bytes_eq s t ≡ true → s ≡ t
unfolding bytes_eq
bytes_eq_sound [] [] h = refl
bytes_eq_sound [] (d ∷ t) h = ground arith
bytes_eq_sound (c ∷ s) [] h = ground arith
bytes_eq_sound (c ∷ s) (d ∷ t) h = ground (arith, bytes_eq_sound s t)

pub bytes_eq_refl : (s : Bytes) → bytes_eq s s ≡ true
unfolding bytes_eq
bytes_eq_refl [] = refl
bytes_eq_refl (c ∷ s) = ground (arith, bytes_eq_refl s)

pub bytes_eq_iff : (s t : Bytes) → (bytes_eq s t ≡ true) ↔ (s ≡ t)
bytes_eq_iff s t = (bytes_eq_sound s t, λ e. ground (arith, bytes_eq_refl s))

pub bytes_lt_irrefl : (s : Bytes) → bytes_lt s s ≡ false
unfolding bytes_lt
bytes_lt_irrefl [] = refl
bytes_lt_irrefl (c ∷ s) = ground (arith, bytes_lt_irrefl s)

pub bytes_lt_trans :
    (s t u : Bytes) → bytes_lt s t ≡ true → bytes_lt t u ≡ true → bytes_lt s u ≡ true
unfolding bytes_lt
bytes_lt_trans s t [] h k = ground arith
bytes_lt_trans s [] (e ∷ u) h k = ground arith
bytes_lt_trans [] (d ∷ t) (e ∷ u) h k = refl
bytes_lt_trans (c ∷ s) (d ∷ t) (e ∷ u) h k = ground (arith, bytes_lt_trans s t u)

-- Of two strings one is less, or they are equal.
pub bytes_lt_total : (s t : Bytes) → (bytes_lt s t ≡ true) ⊎ ((bytes_lt t s ≡ true) ⊎ (s ≡ t))
unfolding bytes_lt
bytes_lt_total [] [] = inr (inr refl)
bytes_lt_total [] (d ∷ t) = inl refl
bytes_lt_total (c ∷ s) [] = inr (inl refl)
bytes_lt_total (c ∷ s) (d ∷ t) = ground (arith, bytes_lt_total s t)

pub bytes_lt_asymm : (s t : Bytes) → bytes_lt s t ≡ true → bytes_lt t s ≡ false
unfolding bytes_lt
bytes_lt_asymm s [] h = ground arith
bytes_lt_asymm [] (d ∷ t) h = refl
bytes_lt_asymm (c ∷ s) (d ∷ t) h = ground (arith, bytes_lt_asymm s t)

unfoldable pub Bytes-discrete : Discrete Bytes
Bytes-discrete = hlevel ℕ_discrete
