-- ===== src/Server/Stages.antt =====
-- The stages of `receiveHTTP`, from the admission on, end with an answer.
use remote_write_inspector.Prelude.{
  ℕ, ◌+◌, ◌-◌, ◌^◌, ◌<◌, ◌≡◌, refl, false, not, List, Option, none, some, if◌then◌else◌, length,
  ◌>>=◌, arith, leb, inl, inr, true, [], ◌∷◌, Bool-cases, ◌∙◌, ap, take,
}
use remote_write_inspector.Prelude.Bytes.{Bytes, codes}
use remote_write_inspector.Prelude.Int.{pos, ltb_ℤ}
use remote_write_inspector.Config.Types.{Config}
use remote_write_inspector.Identity.Types.{RequestIdentity, IdentitySet}
use remote_write_inspector.Identity.{resolve}
use remote_write_inspector.Inspector.Types.{Inspector, TimeSeries, Environment, Reading}
use remote_write_inspector.Inspector.Ready.{Ready}
use remote_write_inspector.Inspector.Labels.{
  first_byte, next_byte, valid_after, valid_utf8, valid_labels, valid_labels-label_values,
}
use remote_write_inspector.Inspector.Total.{inspect_received-Inspected}
use remote_write_inspector.Server.{read_limited}
use remote_write_inspector.Server.Limits.{read_limited_lem}
use remote_write_inspector.Server.Receive.{
  Arrival, Decoders, Response, Receiver, RequestResult, overloaded, too_large, decode_error, ok,
  bad_data, empty, result_of, answer, observe_decode_error, observe_decode, counted_request,
  count_request, observe_bytes, observe_request, result_text, undecodable, receive_series,
  receive_decoded, receive_sized, receive_read, receive_admitted,
}
use remote_write_inspector.Server.Answers.{
  is_overloaded, payload, Answered, too_large-Answered, undecodable-Answered, result_of-Answered,
}

valid_result_text : (result : RequestResult) → valid_labels (result_text result ∷ []) ≡ true
unfolding valid_labels valid_utf8 valid_after next_byte first_byte result_text
valid_result_text overloaded = refl
valid_result_text too_large = refl
valid_result_text decode_error = refl
valid_result_text ok = refl
valid_result_text bad_data = refl
valid_result_text empty = refl

module _ {F : Type 0} (identity : RequestIdentity) (valid : valid_labels identity.values ≡ true)
    (result : RequestResult) (s : Receiver F) where
  -- With values that are valid UTF-8 a request is counted without a panic.
  pub count_request_lem : count_request identity result s ≡ some (counted_request identity result s)
  unfolding count_request
  count_request_lem =
      rw
        (valid_labels-label_values identity (result_text result ∷ []) valid
          (valid_result_text result))
        refl

  observe_request_lem :
      (n : ℕ)
      → observe_request identity result n s
        ≡ some (observe_bytes n (counted_request identity result s))
  unfolding observe_request
  observe_request_lem n = rw count_request_lem refl

module _ {F : Type 0} (env : Environment) (reading : ℕ → Reading) (decoders : Decoders)
    (trim_space : Bytes → Bytes) (a : Arrival) (cfg : Config F) (ids : IdentitySet)
    (valid : valid_labels (resolve trim_space a.header ids).values ≡ true) where
  abbrev identity : RequestIdentity
  identity = resolve trim_space a.header ids

  abbrev observed : RequestResult → ℕ → Receiver F → Receiver F
  observed result n s = observe_bytes n (counted_request identity result s)

  -- That a run ends, with an answer, and with as many requests in flight as before.
  abbrev pub Ends : Option (List TimeSeries) → Receiver F → Option (Receiver F × Response) → Type 0
  Ends series s run =
      (s' : Receiver F) × (response : Response) × (result : RequestResult) × (run
        ≡ some (s', response))
      × (s'.in_flight ≡ s.in_flight)
      × (is_overloaded result ≡ false)
      × Answered env reading identity cfg ids s.inspector.effects series result s'.inspector
          response.status

  too_large-Ends :
      (n : ℕ) (s : Receiver F)
      → Ready cfg ids s.inspector
      → Ends none s (observe_request identity too_large n s >>= λ s'. some (s', answer 413))
  unfolding observe_bytes counted_request is_overloaded
  too_large-Ends n s ready = (
    observed too_large n s,
    answer 413,
    too_large,
    rw (observe_request_lem identity valid too_large s n) refl,
    refl,
    refl,
    too_large-Answered env reading identity cfg ids s ready,
  )

  too_large_decoded-Ends :
      (n : ℕ) (s : Receiver F)
      → Ready cfg ids s.inspector
      → Ends none s
          (observe_request identity too_large n s >>= λ s'. some (observe_decode s', answer 413))
  unfolding observe_bytes counted_request is_overloaded observe_decode
  too_large_decoded-Ends n s ready = (
    observe_decode (observed too_large n s),
    answer 413,
    too_large,
    rw (observe_request_lem identity valid too_large s n) refl,
    refl,
    refl,
    too_large-Answered env reading identity cfg ids s ready,
  )

  undecodable-Ends :
      (reason : Bytes) (n : ℕ) (s : Receiver F)
      → Ready cfg ids s.inspector
      → Ends none s (undecodable identity reason n s)
  unfolding undecodable observe_decode observe_bytes counted_request observe_decode_error
      is_overloaded
  undecodable-Ends reason n s ready = (
    observe_decode (observed decode_error n (observe_decode_error reason s)),
    answer 400,
    decode_error,
    rw (observe_request_lem identity valid decode_error (observe_decode_error reason s) n) refl,
    refl,
    refl,
    undecodable-Answered env reading identity cfg ids reason s ready,
  )

  receive_series-Ends :
      (n : ℕ) (series : Option (List TimeSeries)) (s : Receiver F)
      → Ready cfg ids s.inspector
      → Ends series s (receive_series identity env reading decoders a n series s)
  unfolding receive_series observe_decode observe_bytes counted_request is_overloaded result_of
  receive_series-Ends n none s ready = undecodable-Ends (codes "protobuf") n s ready
  receive_series-Ends n (some series) s ready =
      let (r, run, g, _) =
        inspect_received-Inspected cfg ids env reading trim_space a.header s.inspector a.now_ms
          a.ended series ready valid in
      let s2 : Receiver F = record (observe_decode s) {
        inspector = r.inspector;
        validation_durations = s.validation_durations + 1;
      } in
      (
        observed (result_of r series) n s2,
        answer 204,
        result_of r series,
        rw run (rw (observe_request_lem identity valid (result_of r series) s2 n) refl),
        refl,
        ground arith,
        result_of-Answered env reading identity cfg ids s.inspector.effects r series s2 g,
      )

  receive_decoded-Ends :
      (n : ℕ) (decoded : Option Bytes) (s : Receiver F)
      → Ready cfg ids s.inspector
      → Ends
          (decoded >>= decoders.unmarshal)
          s
          (receive_decoded identity env reading decoders a n decoded s)
  unfolding receive_decoded
  receive_decoded-Ends n none s ready = undecodable-Ends (codes "snappy") n s ready
  receive_decoded-Ends n (some decoded) s ready =
      receive_series-Ends n (decoders.unmarshal decoded) s ready

  module _ (limit : ℕ) where
    abbrev within : ℕ → Option Bytes → Option Bytes
    within n decoded = if leb n limit then decoded else none

    exceeds_limit :
        (i : Inspector F) (n : ℕ)
        → i.cfg.max_body_bytes ≡ pos limit
        → ltb_ℤ i.cfg.max_body_bytes (pos n) ≡ not (leb n limit)
    exceeds_limit i n h = ap (λ m. ltb_ℤ m (pos n)) h ∙ ground arith

    receive_sized-Ends :
        (body : Bytes) (decoded_len : Option ℕ) (s : Receiver F)
        → Ready cfg ids s.inspector
        → s.inspector.cfg.max_body_bytes ≡ pos limit
        → Ends
            (decoded_len >>= λ n. within n (decoders.decode body) >>= decoders.unmarshal)
            s
            (receive_sized identity env reading decoders a body decoded_len s)
    unfolding receive_sized observe_decode
    receive_sized-Ends body none s ready h = undecodable-Ends (codes "snappy") (length body) s ready
    receive_sized-Ends body (some n) s ready h = elim (Bool-cases (leb n limit)) [
      | inl t ↦
          rw (exceeds_limit s.inspector n h ∙ ap not t)
            (rw t (receive_decoded-Ends (length body) (decoders.decode body) s ready))
      | inr f ↦
          rw (exceeds_limit s.inspector n h ∙ ap not f)
            (rw f (too_large_decoded-Ends (length body) s ready))
    ]

    pub receive_admitted-Ends :
        (s : Receiver F)
        → Ready cfg ids s.inspector
        → s.inspector.cfg.max_body_bytes ≡ pos limit
        → limit < 2 ^ 63 - 1
        → Ends
            (payload decoders limit a.body)
            s
            (receive_admitted identity env reading decoders a s)
    unfolding receive_admitted receive_read payload receive_sized receive_decoded receive_series
    receive_admitted-Ends s ready h bound =
        let read = ap (read_limited a.body) h ∙ read_limited_lem a.body limit bound in
        elim (Bool-cases (leb (length a.body.content) limit)) [
          | inr long ↦
              rw read (rw long (too_large-Ends (length (take (limit + 1) a.body.content)) s ready))
          | inl short ↦ elim (Bool-cases a.body.fails) [
            | inl broken ↦
                rw read (rw short (rw broken (too_large-Ends (length a.body.content) s ready)))
            | inr whole ↦ rw read (
                rw short (
                  rw whole (
                    receive_sized-Ends a.body.content (decoders.decoded_len a.body.content) s ready
                      h)))
          ]
        ]
