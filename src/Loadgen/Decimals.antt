-- ===== src/Loadgen/Decimals.antt =====
-- The decimal texts that the load generator prints are read back.
use remote_write_inspector.Prelude.{
  ℕ, zero, suc, ◌+◌, ◌-◌, ◌*◌, ◌/◌, ◌%◌, ◌<◌, ◌≡◌, refl, Bool, true, not, ◌&&◌, [], ◌∷◌, Option,
  none, some, if◌then◌else◌, leb, ◌==◌, arith,
}
use remote_write_inspector.Prelude.Bytes.{Bytes}
use remote_write_inspector.Loadgen.Requests.{itoa, itoa_digits}

-- Digits after a number that was read.
unfoldable pub read_digits : ℕ → Bytes → Option ℕ
read_digits n [] = some n
read_digits n (c ∷ s) =
    let rest = read_digits (n * 10 + (c - b'0')) s in
    if leb b'0' c && leb c b'9' then rest else none

read_digits-itoa_digits :
    (fuel n : ℕ) (out : Bytes)
    → n < fuel
    → read_digits 0 (itoa_digits fuel n out) ≡ read_digits n out
unfolding read_digits itoa_digits
read_digits-itoa_digits zero n out h = absurd (omega arith)
read_digits-itoa_digits (suc fuel) n out h =
    ground (arith, read_digits-itoa_digits fuel (n / 10) ((b'0' + n % 10) ∷ out))

pub read_digits-itoa : (n : ℕ) → read_digits 0 (itoa n) ≡ some n
unfolding itoa read_digits
read_digits-itoa n = read_digits-itoa_digits (n + 1) n [] (omega arith)

-- Neither a comma nor an equals sign.
unfoldable pub no_marks : Bytes → Bool
no_marks [] = true
no_marks (c ∷ s) = not (c == b',') && (not (c == b'=') && no_marks s)

itoa_digits-no_marks :
    (fuel n : ℕ) (out : Bytes) → no_marks out ≡ true → no_marks (itoa_digits fuel n out) ≡ true
unfolding itoa_digits no_marks
itoa_digits-no_marks zero n out h = h
itoa_digits-no_marks (suc fuel) n out h =
    ground (arith, itoa_digits-no_marks fuel (n / 10) ((b'0' + n % 10) ∷ out))

pub itoa-no_marks : (n : ℕ) → no_marks (itoa n) ≡ true
unfolding itoa no_marks
itoa-no_marks n = itoa_digits-no_marks (n + 1) n [] refl
