-- ===== src/Server/Receive.antt =====
-- internal/inspector/server.go: `receiveHTTP`. Snappy and the protobuf decoder are parameters. The text
-- of an error response is left out, and of the histograms of durations how many there are is kept.
use remote_write_inspector.Prelude.{
  ℕ, ◌+◌, Bool, true, false, ◌&&◌, not, List, [], ◌∷◌, Option, none, some, if◌then◌else◌, length,
  ◌>>=◌, ℕ_discrete, ite,
}
use remote_write_inspector.Prelude.Bytes.{Bytes, codes, bytes_eq}
use remote_write_inspector.Prelude.Int.{ℤ, pos, pos_part, ltb_ℤ}
use remote_write_inspector.Identity.Types.{RequestIdentity}
use remote_write_inspector.Identity.{label_values, resolve}
use remote_write_inspector.Inspector.Types.{Inspector, Inspection, TimeSeries, Environment, Reading}
use remote_write_inspector.Inspector.Observed.{counter_add}
use remote_write_inspector.Inspector.Labels.{valid_labels}
use remote_write_inspector.Inspector.Admission.{try_admit, release}
use remote_write_inspector.Inspector.{inspect_received}
use remote_write_inspector.Server.{Body, ReadError, read_limited}

-- A request. `now_ms` and `ended` are readings of the clock by `inspectReceived`.
pub record Arrival : Type 0 where
  pub method : Bytes
  pub header : Bytes → Bytes
  pub body : Body
  pub now_ms : ℤ
  pub ended : ℤ

-- `snappy.DecodedLen`, `snappy.Decode` and `proto.Unmarshal`, where `none` is an error. Beside the series
-- stand the readings of the clock that are made for them.
pub record Decoders : Type 0 where
  pub decoded_len : Bytes → Option ℕ
  pub decode : Bytes → Option Bytes
  pub unmarshal : Bytes → Option (List TimeSeries)

-- The status, and whether the connection is to be closed.
pub record Response : Type 0 where
  pub status : ℕ
  pub closes : Bool

abbrev pub answer : ℕ → Response
answer status = record { status = status; closes = false }

-- The inspector with the elements of its admission channel and its histograms.
pub record Receiver (F : Type 0) : Type 0 where
  pub inspector : Inspector F
  pub in_flight : ℕ
  pub request_bytes : List ℕ
  pub request_durations : ℕ
  pub decode_durations : ℕ
  pub validation_durations : ℕ

-- The results that a request is counted under.
pub data RequestResult : Type 0 where
  overloaded too_large decode_error ok bad_data empty : RequestResult

unfoldable pub result_text : RequestResult → Bytes
result_text overloaded = codes "overloaded"
result_text too_large = codes "too_large"
result_text decode_error = codes "decode_error"
result_text ok = codes "ok"
result_text bad_data = codes "bad_data"
result_text empty = codes "empty"

-- `len(req.Timeseries) == 0`.
unfoldable pub no_series : List TimeSeries → Bool
no_series [] = true
no_series (ts ∷ series) = false

unfoldable pub result_of : {F : Type 0} → Inspection F → List TimeSeries → RequestResult
result_of r series =
    if r.bad_data
    then bad_data
    else if ite (ℕ_discrete r.total_samples 0) true false && no_series series
    then empty
    else ok

-- `ObserveDecodeError`.
unfoldable pub observe_decode_error : {F : Type 0} → Bytes → Receiver F → Receiver F
observe_decode_error reason s =
    let i = s.inspector in
    let e = i.effects in
    record s {
      inspector = record i {
        effects = record e {
          decode_errors_total = counter_add (reason ∷ []) 1 e.decode_errors_total;
        };
      };
    }

-- `observeDecode`, which the deferred call makes where it was not made before: once for a body.
unfoldable pub observe_decode : {F : Type 0} → Receiver F → Receiver F
observe_decode s = record s { decode_durations = s.decode_durations + 1 }

unfoldable pub observe_bytes : {F : Type 0} → ℕ → Receiver F → Receiver F
observe_bytes body_bytes s = record s { request_bytes = body_bytes ∷ s.request_bytes }

module _ {F : Type 0} (identity : RequestIdentity) where
  unfoldable pub counted_request : RequestResult → Receiver F → Receiver F
  counted_request result s =
      let i = s.inspector in
      let e = i.effects in
      record s {
        inspector = record i {
          effects = record e {
            requests_total =
                counter_add (label_values identity (result_text result ∷ [])) 1 e.requests_total;
          };
        };
      }

  -- Where a value is not valid UTF-8, `WithLabelValues` panics.
  unfoldable pub count_request : RequestResult → Receiver F → Option (Receiver F)
  count_request result s =
      if valid_labels (label_values identity (result_text result ∷ []))
      then some (counted_request result s)
      else none

  -- `ObserveRequest`.
  unfoldable pub observe_request : RequestResult → ℕ → Receiver F → Option (Receiver F)
  observe_request result body_bytes s = do
    s' ← count_request result s
    some (observe_bytes body_bytes s')

  -- What follows an error of snappy or protobuf.
  unfoldable pub undecodable : Bytes → ℕ → Receiver F → Option (Receiver F × Response)
  undecodable reason body_bytes s = do
    s' ← observe_request decode_error body_bytes (observe_decode_error reason s)
    some (observe_decode s', answer 400)

  module _ (env : Environment) (reading : ℕ → Reading) (decoders : Decoders) (a : Arrival) where
    -- From what `proto.Unmarshal` returns on.
    unfoldable pub receive_series :
        ℕ → Option (List TimeSeries) → Receiver F → Option (Receiver F × Response)
    receive_series body_bytes none s = undecodable (codes "protobuf") body_bytes s
    receive_series body_bytes (some series) s =
        let s1 = observe_decode s in
        do
          r ← inspect_received env reading identity s1.inspector a.now_ms a.ended series
          s2 ← observe_request (result_of r series) body_bytes (record s1 {
            inspector = r.inspector;
            validation_durations = s1.validation_durations + 1;
          })
          some (s2, answer 204)

    -- From what `snappy.Decode` returns on.
    unfoldable pub receive_decoded : ℕ → Option Bytes → Receiver F → Option (Receiver F × Response)
    receive_decoded body_bytes none s = undecodable (codes "snappy") body_bytes s
    receive_decoded body_bytes (some decoded) s =
        receive_series body_bytes (decoders.unmarshal decoded) s

    -- From what `snappy.DecodedLen` returns on.
    unfoldable pub receive_sized : Bytes → Option ℕ → Receiver F → Option (Receiver F × Response)
    receive_sized body none s = undecodable (codes "snappy") (length body) s
    receive_sized body (some decoded_len) s =
        if ltb_ℤ s.inspector.cfg.max_body_bytes (pos decoded_len)
        then (do
          s' ← observe_request too_large (length body) s
          some (observe_decode s', answer 413))
        else receive_decoded (length body) (decoders.decode body) s

    -- From what `readLimited` returns on.
    unfoldable pub receive_read :
        Bytes → Option ReadError → Receiver F → Option (Receiver F × Response)
    receive_read body (some err) s = do
      s' ← observe_request too_large (length body) s
      some (s', answer 413)
    receive_read body none s = receive_sized body (decoders.decoded_len body) s

    -- A request that is admitted, up to the deferred call.
    unfoldable pub receive_admitted : Receiver F → Option (Receiver F × Response)
    receive_admitted s =
        let (body, err) = read_limited a.body s.inspector.cfg.max_body_bytes in
        receive_read body err s

-- The request after its admission, the deferred call included; `none` as the elements of the channel
-- turns it away.
unfoldable pub receive_if :
    {F : Type 0}
    → Environment
    → (ℕ → Reading)
    → Decoders
    → RequestIdentity
    → Arrival
    → Option ℕ
    → Receiver F
    → Option (Receiver F × Response)
receive_if env reading decoders identity a none s = do
  s' ← count_request identity overloaded s
  some (s', record { status = 204; closes = true })
receive_if env reading decoders identity a (some used) s = do
  (s1, response) ← receive_admitted identity env reading decoders a (record s { in_flight = used })
  left ← release s1.in_flight
  some (record s1 { in_flight = left; request_durations = s1.request_durations + 1 }, response)

-- `receiveHTTP`; `none` is a panic.
unfoldable pub receive_http :
    {F : Type 0}
    → Environment
    → (ℕ → Reading)
    → Decoders
    → (Bytes → Bytes)
    → Arrival
    → Receiver F
    → Option (Receiver F × Response)
receive_http env reading decoders trim_space a s =
    if not (bytes_eq a.method (codes "POST"))
    then some (s, answer 405)
    else receive_if env reading decoders (resolve trim_space a.header s.inspector.ids) a
        (try_admit (pos_part s.inspector.cfg.max_in_flight_requests) s.in_flight) s
