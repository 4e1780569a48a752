-- ===== src/Tests/Bodies.antt =====
-- Request bodies at concrete inputs.
use remote_write_inspector.Prelude.{
  ℕ, refl, ltb, not, [], length, ◌-◌, ◌^◌, ◌≡◌, false, none, some, arith, if◌then◌else◌, take,
}
use remote_write_inspector.Prelude.Bytes.{codes, bytes_eq}
use remote_write_inspector.Prelude.Int.{pos}
use remote_write_inspector.Server.{Body, read_limited}
use remote_write_inspector.Identity.{resolve}
use remote_write_inspector.Server.Receive.{
  Arrival, Decoders, Response, Receiver, RequestResult, receive_http,
}
use remote_write_inspector.Server.Answers.{Answered, is_overloaded, payload}
use remote_write_inspector.Server.Total.{receive_http-Answered}
use remote_write_inspector.Tests.Inspections.{
  inspector, inspector-Ready, no_fields, no_fields-valid, small_config, nothing_counted,
  environment, same_reading, same_text, one_series,
}
use remote_write_inspector.Config.{with_defaults, positive_or}
use remote_write_inspector.Server.Limits.{read_limited_overflow}

abbrev pub four_bytes : Body
four_bytes = record { content = codes "body"; fails = false }

read_limited_overflow_example :
    read_limited four_bytes (pos (2 ^ 63 - 1)) ≡ (take 1 (codes "body"), none)
read_limited_overflow_example = read_limited_overflow four_bytes (omega arith)

-- Snappy that compresses nothing, and a decoder that knows one request.
abbrev pub decoders : Decoders
decoders = record {
  decoded_len = λ s. some (length s);
  decode = λ s. some s;
  unmarshal = λ s. some one_series;
}

abbrev pub post_request : Arrival
post_request = record {
  method = codes "POST";
  header = same_text;
  body = four_bytes;
  now_ms = pos 4;
  ended = pos 6;
}

abbrev pub receiver : Receiver ℕ
receiver = record {
  inspector = inspector;
  in_flight = 2;
  request_bytes = [];
  request_durations = 0;
  decode_durations = 0;
  validation_durations = 0;
}

receive_http-Answered_example :
    (s' : Receiver ℕ) × (response : Response) × (result : RequestResult) × (receive_http environment
        same_reading decoders same_text post_request receiver
      ≡ some (s', response))
    × (s'.in_flight ≡ 2)
    × (is_overloaded result ≡ not (ltb 2 8))
    × Answered environment same_reading
        (resolve same_text same_text no_fields)
        small_config
        no_fields
        nothing_counted
        (if ltb 2 8 then payload decoders 33_554_432 four_bytes else none)
        result
        s'.inspector
        response.status
unfolding with_defaults positive_or bytes_eq
receive_http-Answered_example =
    receive_http-Answered environment same_reading decoders same_text post_request small_config
      no_fields no_fields-valid 33_554_432 8 receiver inspector-Ready refl (omega arith) refl
      (omega arith) refl
