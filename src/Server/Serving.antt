-- ===== src/Server/Serving.antt =====
-- internal/inspector/server.go: the requests that the routes of `NewServer` pass on to the handlers,
-- one after the other. What `http.ServeMux` answers on its own, where it passes a request on to no
-- handler, for instance a redirect where the path is not clean, is the parameter `mux_answer`; that it
-- passes any other request to the handler of exactly its path, and answers 404 where there is none, and
-- that a scrape of the metrics collects the top series, is the documented behaviour of the libraries;
-- what the handler of the metrics answers is a reading.
use remote_write_inspector.Prelude.{
  ℕ, Bool, true, ◌&&◌, List, [], ◌∷◌, Option, none, some, if◌then◌else◌, ◌>>=◌,
}
use remote_write_inspector.Prelude.Bytes.{Bytes, bytes_eq}
use remote_write_inspector.Prelude.Int.{ℤ}
use remote_write_inspector.TopSeries.{collect}
use remote_write_inspector.TopSeries.Types.{TopSeriesEntry}
use remote_write_inspector.Inspector.Types.{Environment, Reading}
use remote_write_inspector.Inspector.Labels.{valid_labels}
use remote_write_inspector.Server.Receive.{
  Arrival, Decoders, Response, answer, Receiver, receive_http,
}
use remote_write_inspector.Server.Start.{
  Handler, metrics_handler, ok_handler, receive_handler, HttpServer,
}

-- A request with its path, the readings of the clock that are made for it, and the status that the
-- handler of the metrics would answer.
pub record HttpRequest : Type 0 where
  pub path : Bytes
  pub arrival : Arrival
  pub reading : ℕ → Reading
  pub scraped_at : ℤ
  pub metrics_status : ℕ

unfoldable pub handler_of : List (Bytes × Handler) → Bytes → Option Handler
handler_of [] path = none
handler_of ((pattern', h) ∷ handlers) path =
    let later = handler_of handlers path in if bytes_eq path pattern' then some h else later

-- A server that no request has reached.
unfoldable pub idle : {F : Type 0} → HttpServer F → Receiver F
idle server = record {
  inspector = server.inspector;
  in_flight = 0;
  request_bytes = [];
  request_durations = 0;
  decode_durations = 0;
  validation_durations = 0;
}

unfoldable pub valid_entries : List TopSeriesEntry → Bool
valid_entries [] = true
valid_entries (entry ∷ entries) = valid_labels entry.values && valid_entries entries

module _ {F : Type 0} (env : Environment) where
  -- `Collect` of the top series: `MustNewConstMetric` panics where a value of an entry that is sent is
  -- not valid UTF-8.
  unfoldable pub scrape : ℤ → Receiver F → Option (Receiver F)
  scrape now s =
      let i = s.inspector in
      let e = i.effects in
      let (c, entries) = collect env.arrange e.top_series now in
      if valid_entries entries
      then some (record s { inspector = record i { effects = record e { top_series = c } } })
      else none

  module _ (decoders : Decoders) (trim_space : Bytes → Bytes)
      (mux_answer : Bytes → Bytes → Option ℕ) where
    -- `okHandler`, `receiveHTTP`, and the handler of the metrics; `none` is a panic.
    unfoldable pub handle :
        Option Handler → HttpRequest → Receiver F → Option (Receiver F × Response)
    handle none r s = some (s, answer 404)
    handle (some metrics_handler) r s = do
      s' ← scrape r.scraped_at s
      some (s', answer r.metrics_status)
    handle (some ok_handler) r s = some (s, answer 200)
    handle (some receive_handler) r s = receive_http env r.reading decoders trim_space r.arrival s

    unfoldable pub serve :
        List (Bytes × Handler) → HttpRequest → Receiver F → Option (Receiver F × Response)
    serve handlers r s = elim (mux_answer r.arrival.method r.path) [
      | none ↦ handle (handler_of handlers r.path) r s
      | some status ↦ some (s, answer status)
    ]

    unfoldable pub serve_all :
        List (Bytes × Handler) → List HttpRequest → Receiver F → Option (Receiver F × List Response)
    serve_all handlers [] s = some (s, [])
    serve_all handlers (r ∷ rs) s = do
      (s1, response) ← serve handlers r s
      (s2, responses) ← serve_all handlers rs s1
      some (s2, response ∷ responses)
