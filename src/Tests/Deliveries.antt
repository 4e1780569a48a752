-- ===== src/Tests/Deliveries.antt =====
-- A request of the load generator, received at concrete inputs.
use remote_write_inspector.Prelude.{
  false, List, [], Option, none, some, ite, length, ℕ_discrete, map,
}
use remote_write_inspector.Prelude.Bytes.{Bytes, codes, Bytes-discrete}
use remote_write_inspector.Prelude.Int.{pos}
use remote_write_inspector.Hash.Types.{Label}
use remote_write_inspector.Inspector.Types.{ℤ_discrete, Sample, TimeSeries}
use remote_write_inspector.Server.Receive.{Arrival, Decoders}
use remote_write_inspector.Loadgen.Requests.{GeneratedSample, GeneratedSeries, request_series}
use remote_write_inspector.Loadgen.Carried.{Carried}
use remote_write_inspector.Tests.Inspections.{same_text, no_attempt}
use remote_write_inspector.Tests.Loads.{small_load, value_one, same_draws}

Label-discrete : Discrete Label
Label-discrete = hlevel Bytes-discrete

GeneratedSample-discrete : Discrete GeneratedSample
GeneratedSample-discrete = hlevel (ℕ_discrete, ℤ_discrete)

GeneratedSeries-discrete : Discrete GeneratedSeries
GeneratedSeries-discrete = hlevel (Label-discrete, GeneratedSample-discrete)

series-discrete : Discrete (List GeneratedSeries)
series-discrete = hlevel GeneratedSeries-discrete

-- A protobuf that knows the series of the first request only.
abbrev first_series : List GeneratedSeries
first_series = request_series small_load value_one 5 same_draws 0

abbrev known_series : List GeneratedSeries → Option Bytes
known_series series = ite (series-discrete series first_series) (some (codes "ab")) none

abbrev received_sample : GeneratedSample → Sample
received_sample x = record {
  timestamp = x.timestamp;
  value_bits = x.value_bits;
  now = pos 1;
  later = pos 1;
  attempt = no_attempt;
}

abbrev received_series : GeneratedSeries → TimeSeries
received_series s = record {
  labels = s.labels;
  samples = map received_sample s.samples;
  histograms = [];
  now = pos 1;
  later = pos 1;
}

abbrev known_decoders : Decoders
known_decoders = record {
  decoded_len = λ s. some (length s);
  decode = λ s. some s;
  unmarshal = λ s. some (map received_series first_series);
}

abbrev sent_request : Arrival
sent_request = record {
  method = codes "POST";
  header = same_text;
  body = record { content = codes "ab"; fails = false };
  now_ms = pos 4;
  ended = pos 6;
}
