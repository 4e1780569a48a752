-- ===== src/Server/Limits.antt =====
-- What `readLimited` reads.
use remote_write_inspector.Prelude.{
  ℕ, zero, suc, ◌+◌, ◌-◌, ◌^◌, ◌≤◌, ◌<◌, ◌≡◌, refl, ap, [], ◌∷◌, none, some, arith, leb,
  if◌then◌else◌, length, take, length-take,
}
use remote_write_inspector.Prelude.Bytes.{Bytes}
use remote_write_inspector.Prelude.Int.{pos, ◌+ℤ◌}
use remote_write_inspector.Server.{Body, ReadError, int64_suc, read_limit, read_limited}

take_all : (n : ℕ) (s : Bytes) → length s ≤ n → take n s ≡ s
take_all zero [] h = refl
take_all zero (c ∷ s) h = absurd (omega arith)
take_all (suc n) [] h = refl
take_all (suc n) (c ∷ s) h = ap (◌∷◌ c) (take_all n s (omega arith))

read_limit_lem : (n : ℕ) → n < 2 ^ 63 - 1 → read_limit (pos n) ≡ n + 1
unfolding read_limit int64_suc ◌+ℤ◌
read_limit_lem n h = ground arith

-- With a limit below the greatest int64, a body within the limit is read as it is, with an error
-- exactly when its reader fails; of a longer one only one byte more than the limit is read, and it is
-- too large.
pub read_limited_lem :
    (body : Body) (n : ℕ)
    → n < 2 ^ 63 - 1
    → read_limited body (pos n) ≡ (
        if leb (length body.content) n
        then (body.content, if body.fails then some ReadError.read_failed else none)
        else (take (n + 1) body.content, some ReadError.too_large))
unfolding read_limited
read_limited_lem body n h =
    let e = read_limit_lem n h in
    ground (
      arith,
      e,
      ap (λ k. take k body.content) e,
      take_all (n + 1) body.content,
      length-take (n + 1) body.content,
    )

-- With the greatest int64 as the limit, no more than one byte of a body that is not empty is read,
-- and without an error.
pub read_limited_overflow :
    (body : Body)
    → 0 < length body.content
    → read_limited body (pos (2 ^ 63 - 1)) ≡ (take 1 body.content, none)
unfolding read_limited read_limit int64_suc
read_limited_overflow body h = ground (arith, length-take 1 body.content)
