-- ===== src/Loadgen/Delivered.antt =====
-- A request of the load generator as the inspector's server receives it.
use remote_write_inspector.Prelude.{◌≡◌, List, Option, some, length}
use remote_write_inspector.Prelude.Bytes.{Bytes}
use remote_write_inspector.Config.Types.{Config}
use remote_write_inspector.Inspector.Types.{TimeSeries}
use remote_write_inspector.Inspector.Ready.{Ready}
use remote_write_inspector.Server.Receive.{Decoders}
use remote_write_inspector.Loadgen.Requests.{GeneratedSeries}
use remote_write_inspector.Loadgen.Carried.{Carried}

-- What is documented of snappy and protobuf: decoding gives back what was encoded.
pub record RoundTrips (decoders : Decoders) (marshal : List GeneratedSeries → Option Bytes)
    (encode : Bytes → Bytes) : Type 0 where
  pub decoded_len : (s : Bytes) → decoders.decoded_len (encode s) ≡ some (length s)
  pub decode : (s : Bytes) → decoders.decode (encode s) ≡ some s
  pub unmarshal :
      (series : List GeneratedSeries) (s : Bytes)
      → marshal series ≡ some s
      → (ts : List TimeSeries) × (decoders.unmarshal s ≡ some ts) × Carried series ts
