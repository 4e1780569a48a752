-- ===== src/Server/Total.antt =====
-- `receiveHTTP` does not panic, and what it answers.
use remote_write_inspector.Prelude.{
  ℕ, ◌+◌, ◌-◌, ◌^◌, ◌≤◌, ◌<◌, ◌≡◌, refl, Bool, true, false, not, Option, none, some, if◌then◌else◌,
  arith, ltb, ◌∙◌, ap, zero, suc,
}
use remote_write_inspector.Prelude.Bytes.{Bytes, codes, bytes_eq}
use remote_write_inspector.Prelude.Int.{pos, pos_part}
use remote_write_inspector.Config.Types.{Config}
use remote_write_inspector.Identity.Types.{IdentitySet}
use remote_write_inspector.Identity.{resolve}
use remote_write_inspector.Inspector.Types.{Environment, Reading}
use remote_write_inspector.Inspector.Labels.{valid_labels}
use remote_write_inspector.Inspector.Ready.{Ready}
use remote_write_inspector.Inspector.Admission.{try_admit, release}
use remote_write_inspector.Server.Receive.{
  Arrival, Decoders, Response, Receiver, RequestResult, overloaded, counted_request, receive_if,
  receive_http,
}
use remote_write_inspector.Server.Answers.{is_overloaded, payload, Answered, overloaded-Answered}
use remote_write_inspector.Server.Stages.{count_request_lem, receive_admitted-Ends}

release_lem : (m n : ℕ) → m ≡ n + 1 → release m ≡ some n
unfolding release
release_lem zero n h = absurd (omega arith)
release_lem (suc m) n h = ap some (omega arith)

module _ {F : Type 0} (env : Environment) (reading : ℕ → Reading) (decoders : Decoders)
    (trim_space : Bytes → Bytes) (a : Arrival) (cfg : Config F) (ids : IdentitySet)
    (valid : valid_labels (resolve trim_space a.header ids).values ≡ true) where
  receive_if-Answered :
      (limit : ℕ) (s : Receiver F) (admitted : Bool)
      → Ready cfg ids s.inspector
      → s.inspector.cfg.max_body_bytes ≡ pos limit
      → limit < 2 ^ 63 - 1
      → let run =
          receive_if env reading decoders
            (resolve trim_space a.header ids)
            a
            (if admitted then some (s.in_flight + 1) else none)
            s in
        (s' : Receiver F) × (response : Response) × (result : RequestResult) × (run
          ≡ some (s', response))
        × (s'.in_flight ≡ s.in_flight)
        × (is_overloaded result ≡ not admitted)
        × Answered env reading
            (resolve trim_space a.header ids)
            cfg
            ids
            s.inspector.effects
            (if admitted then payload decoders limit a.body else none)
            result
            s'.inspector
            response.status
  unfolding receive_if counted_request is_overloaded
  receive_if-Answered limit s false ready h bound = (
    counted_request (resolve trim_space a.header ids) overloaded s,
    record { status = 204; closes = true },
    overloaded,
    rw (count_request_lem (resolve trim_space a.header ids) valid overloaded s) refl,
    refl,
    refl,
    overloaded-Answered env reading (resolve trim_space a.header ids) cfg ids s ready,
  )
  receive_if-Answered limit s true ready h bound =
      let (s1, response, result, run, same, admitted, answered) =
        receive_admitted-Ends env reading decoders trim_space a cfg ids valid limit
          (record s { in_flight = s.in_flight + 1 }) ready h bound in
      (
        record s1 { in_flight = s.in_flight; request_durations = s1.request_durations + 1 },
        response,
        result,
        rw run (rw (release_lem s1.in_flight s.in_flight same) refl),
        refl,
        admitted,
        answered,
      )

  -- On an inspector that is ready, with a limit of the body below the greatest int64 and no more
  -- requests in flight than its capacity, a POST request whose identity values are valid UTF-8
  -- ends with an answer, whatever its body holds and whatever snappy and protobuf make of it:
  -- there is no panic. It gives its slot back. It is counted under one result, which tells the
  -- status, and which is `overloaded` exactly when the capacity is reached; a decode error is
  -- counted under one reason exactly with the result `decode_error`. It is inspected exactly when
  -- it is admitted and its body is within the limit, also when decoded, and read and decoded
  -- without an error; then its samples are counted, and the result is `bad_data` exactly when
  -- something was observed. No other request is counted with samples or observations.
  pub receive_http-Answered :
      (limit capacity : ℕ) (s : Receiver F)
      → Ready cfg ids s.inspector
      → cfg.max_body_bytes ≡ pos limit
      → limit < 2 ^ 63 - 1
      → cfg.max_in_flight_requests ≡ pos capacity
      → s.in_flight ≤ capacity
      → bytes_eq a.method (codes "POST") ≡ true
      → (s' : Receiver F) × (response : Response) × (result : RequestResult) × (receive_http env
            reading decoders trim_space a s
          ≡ some (s', response))
        × (s'.in_flight ≡ s.in_flight)
        × (is_overloaded result ≡ not (ltb s.in_flight capacity))
        × Answered env reading
            (resolve trim_space a.header ids)
            cfg
            ids
            s.inspector.effects
            (if ltb s.in_flight capacity then payload decoders limit a.body else none)
            result
            s'.inspector
            response.status
  unfolding receive_http try_admit
  receive_http-Answered limit capacity s ready h bound room below post =
      let (s', response, result, run, same, admitted, answered) =
        receive_if-Answered limit s (ltb s.in_flight capacity) ready
          (ap (λ c. c.max_body_bytes) ready.same_cfg ∙ h) bound in
      let admission : Config F → Option ℕ =
        λ c. try_admit (pos_part c.max_in_flight_requests) s.in_flight in
      (
        s',
        response,
        result,
        rw post (
            ap
              (λ d.
                receive_if env reading decoders (resolve trim_space a.header d) a
                  (admission s.inspector.cfg) s)
              ready.same_ids
            ∙ ap
                (λ c.
                  receive_if env reading decoders (resolve trim_space a.header ids) a (admission c)
                    s)
                ready.same_cfg
            ∙ ap
                (λ m.
                  receive_if env reading decoders (resolve trim_space a.header ids) a
                    (try_admit (pos_part m) s.in_flight) s)
                room
            ∙ run),
        same,
        admitted,
        answered,
      )
