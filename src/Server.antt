-- ===== src/Server.antt =====
-- internal/inspector/server.go: `readLimited`, which reads the body of a request up to a limit.
use remote_write_inspector.Prelude.{
  ℕ, ◌+◌, ◌-◌, ◌^◌, Bool, ◌&&◌, Option, none, some, ltb, if◌then◌else◌, length, take,
}
use remote_write_inspector.Prelude.Bytes.{Bytes}
use remote_write_inspector.Prelude.Int.{ℤ, pos, negsuc, pos_part, ltb_ℤ, ◌+ℤ◌}
pub mod Limits
pub mod Receive
pub mod Answers
pub mod Stages
pub mod Total
pub mod Start
pub mod Started
pub mod Serving
pub mod Expected
pub mod Served

-- The bytes that a reader gives, and whether it fails after them or ends.
pub record Body : Type 0 where
  pub content : Bytes
  pub fails : Bool

pub data ReadError : Type 0 where
  read_failed too_large : ReadError

-- `n + 1` of an int64.
unfoldable pub int64_suc : ℤ → ℤ
int64_suc n = if ltb_ℤ n (pos (2 ^ 63 - 1)) then n +ℤ pos 1 else negsuc (2 ^ 63 - 1)

-- The limit of the reader: at least 1.
unfoldable pub read_limit : ℤ → ℕ
read_limit max_bytes =
    let limit = int64_suc max_bytes in if ltb_ℤ (pos 0) limit then pos_part limit else 1

-- `readLimited`: what was read, and the error. A limited reader ends at the limit and does not see what
-- comes after it.
unfoldable pub read_limited : Body → ℤ → Bytes × Option ReadError
read_limited body max_bytes =
    let limit = read_limit max_bytes in
    let buf = take limit body.content in
    if ltb (length body.content) limit && body.fails
    then (buf, some ReadError.read_failed)
    else if ltb_ℤ max_bytes (pos (length buf))
    then (buf, some ReadError.too_large)
    else (buf, none)
