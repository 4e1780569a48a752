-- ===== src/Hash/Types.antt =====
-- `prompb.Label` and `labelPair`: a name and a value.
use remote_write_inspector.Prelude.Bytes.{Bytes}

pub record Label : Type 0 where
  pub name : Bytes
  pub value : Bytes
