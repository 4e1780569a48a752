-- ===== src/Identity/Types.antt =====
-- internal/inspector/identity.go: `IdentityDefinition`, `IdentitySet`, `RequestIdentity`, and the
-- errors of `NewIdentitySet`.
use remote_write_inspector.Prelude.{List}
use remote_write_inspector.Prelude.Bytes.{Bytes}
use remote_write_inspector.Prelude.Int.{ℤ}

pub record IdentityDefinition : Type 0 where
  pub name : Bytes
  pub headers : List Bytes

-- The field `names` is `namesFromDefs(defs)`.
pub record IdentitySet : Type 0 where
  pub defs : List IdentityDefinition
  pub max_identity_length : ℤ

pub record RequestIdentity : Type 0 where
  pub names : List Bytes
  pub values : List Bytes
  pub by_name : List (Bytes × Bytes)

pub data IdentityError : Type 0 where
  unsupported duplicate : Bytes → IdentityError

pub data Result (A : Type 0) : Type 0 where
  ok : A → Result A
  err : IdentityError → Result A
