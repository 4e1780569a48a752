-- ===== src/Server/Answers.antt =====
-- What `receiveHTTP` answers and counts, and that it does not panic.
use remote_write_inspector.Prelude.{
  ℕ, ◌+◌, ◌≡◌, refl, Bool, true, false, ◌&&◌, not, List, [], ◌∷◌, Option, none, some, if◌then◌else◌,
  length, ◌>>=◌, ite, arith, leb, ◌∙◌, ap, sym,
}
use remote_write_inspector.Prelude.Bytes.{Bytes}
use remote_write_inspector.Config.Types.{Config}
use remote_write_inspector.Identity.Types.{RequestIdentity, IdentitySet}
use remote_write_inspector.Identity.{label_values}
use remote_write_inspector.Inspector.Types.{
  Inspector, Inspection, TimeSeries, Environment, Reading, Effects, Observation,
}
use remote_write_inspector.Inspector.Observed.{Values-discrete, counter_value}
use remote_write_inspector.Inspector.Recorded.{
  Recorded, nothing-Recorded, counter_value-counter_add,
}
use remote_write_inspector.Inspector.Ready.{Ready}
use remote_write_inspector.Inspector.Judged.{sample_count, some_observation}
use remote_write_inspector.Inspector.Total.{Inspected}
use remote_write_inspector.Server.{Body}
use remote_write_inspector.Server.Receive.{
  Decoders, Receiver, RequestResult, overloaded, too_large, decode_error, ok, bad_data, empty,
  result_text, result_of, observe_decode_error, counted_request,
}

-- The status for each result.
unfoldable pub status_of : RequestResult → ℕ
status_of too_large = 413
status_of decode_error = 400
status_of _ = 204

-- The results of a request that was inspected.
unfoldable pub is_inspected : RequestResult → Bool
is_inspected ok = true
is_inspected bad_data = true
is_inspected empty = true
is_inspected _ = false

unfoldable pub is_decode_error : RequestResult → Bool
is_decode_error decode_error = true
is_decode_error _ = false

unfoldable pub is_bad_data : RequestResult → Bool
is_bad_data bad_data = true
is_bad_data _ = false

unfoldable pub is_overloaded : RequestResult → Bool
is_overloaded overloaded = true
is_overloaded _ = false

-- The series of a body within the limit that its reader, snappy and protobuf all accept.
unfoldable pub payload : Decoders → ℕ → Body → Option (List TimeSeries)
payload decoders limit body =
    if leb (length body.content) limit && not body.fails
    then (do
      decoded_len ← decoders.decoded_len body.content
      decoded ← (if leb decoded_len limit then decoders.decode body.content else none)
      decoders.unmarshal decoded)
    else none

unfoldable pub has_payload : Option (List TimeSeries) → Bool
has_payload none = false
has_payload (some series) = true

unfoldable pub payload_samples : Option (List TimeSeries) → ℕ
payload_samples none = 0
payload_samples (some series) = sample_count series

-- What a request has done, from an inspector with the effects `before` on: it is counted under one
-- result, which tells the status; a decode error is counted under one reason exactly with the result
-- that says so; it is inspected exactly when it has a payload, and then bad data exactly when something
-- was observed.
pub record Answered {F : Type 0} (env : Environment) (reading : ℕ → Reading)
    (identity : RequestIdentity) (cfg : Config F) (ids : IdentitySet) (before : Effects)
    (series : Option (List TimeSeries)) (result : RequestResult) (i : Inspector F) (status : ℕ)
    : Type 0 where
  pub status_told : status ≡ status_of result
  pub ready : Ready cfg ids i
  pub requests :
      (values : List Bytes)
      → counter_value values i.effects.requests_total
        ≡ counter_value values before.requests_total
          + ite (Values-discrete (label_values identity (result_text result ∷ [])) values) 1 0
  pub decode_errors :
      (reason : Bytes) × ((values : List Bytes)
        → counter_value values i.effects.decode_errors_total
          ≡ counter_value values before.decode_errors_total
            + (if is_decode_error result
                then ite (Values-discrete (reason ∷ []) values) 1 0
                else 0))
  pub inspected : is_inspected result ≡ has_payload series
  pub samples :
      (values : List Bytes)
      → counter_value values i.effects.samples_total
        ≡ counter_value values before.samples_total
          + ite (Values-discrete (label_values identity []) values) (payload_samples series) 0
  pub observed :
      (os : List Observation) × Recorded env reading identity before os i.effects
      × (is_bad_data result ≡ some_observation os)

module _ {F : Type 0} (env : Environment) (reading : ℕ → Reading) (identity : RequestIdentity)
    (cfg : Config F) (ids : IdentitySet) where
  pub with_effects-Ready :
      (i : Inspector F) (e : Effects) → Ready cfg ids i → Ready cfg ids (record i { effects = e })
  with_effects-Ready i e ready = record {
    same_cfg = ready.same_cfg;
    same_ids = ready.same_ids;
    samples = ready.samples;
    paths = ready.paths;
    balanced = ready.balanced;
  }

  ite_zero : (values key : List Bytes) → ◌≡◌ {A = ℕ} (ite (Values-discrete key values) 0 0) 0
  ite_zero values key = ground arith

  -- Nothing was observed.
  unobserved-Recorded :
      (e e' : Effects)
      → e'.bad_series_total ≡ e.bad_series_total
      → e'.bad_samples_total ≡ e.bad_samples_total
      → e'.top_series ≡ e.top_series
      → Recorded env reading identity e [] e'
  unobserved-Recorded e e' series samples top =
      let n = nothing-Recorded env reading identity e in
      record {
        series = λ values. ap (counter_value values) series ∙ n.series values;
        samples = λ values. ap (counter_value values) samples ∙ n.samples values;
        top = top ∙ n.top;
      }

  pub counted_request-Answered :
      (result : RequestResult) (s : Receiver F)
      → Ready cfg ids s.inspector
      → is_inspected result ≡ false
      → is_decode_error result ≡ false
      → is_bad_data result ≡ false
      → Answered env reading identity cfg ids s.inspector.effects none result
          (counted_request identity result s).inspector
          (status_of result)
  unfolding counted_request payload_samples has_payload
  counted_request-Answered result s ready other fine good = record {
    status_told = refl;
    ready = with_effects-Ready s.inspector _ ready;
    requests = λ values.
        counter_value-counter_add values (label_values identity (result_text result ∷ [])) 1
          s.inspector.effects.requests_total;
    decode_errors = ([], λ values. rw fine (omega arith));
    inspected = other;
    samples = λ values. rw (ite_zero values (label_values identity [])) (omega arith);
    observed = ([], unobserved-Recorded _ _ refl refl refl, good);
  }

  pub too_large-Answered :
      (s : Receiver F)
      → Ready cfg ids s.inspector
      → Answered env reading identity cfg ids s.inspector.effects none too_large
          (counted_request identity too_large s).inspector
          413
  unfolding is_inspected is_decode_error is_bad_data status_of
  too_large-Answered s ready = counted_request-Answered too_large s ready refl refl refl

  pub overloaded-Answered :
      (s : Receiver F)
      → Ready cfg ids s.inspector
      → Answered env reading identity cfg ids s.inspector.effects none overloaded
          (counted_request identity overloaded s).inspector
          204
  unfolding is_inspected is_decode_error is_bad_data status_of
  overloaded-Answered s ready = counted_request-Answered overloaded s ready refl refl refl

  pub undecodable-Answered :
      (reason : Bytes) (s : Receiver F)
      → Ready cfg ids s.inspector
      → Answered env reading identity cfg ids s.inspector.effects none decode_error
          (counted_request identity decode_error (observe_decode_error reason s)).inspector
          400
  unfolding counted_request payload_samples has_payload status_of is_inspected is_decode_error
      is_bad_data observe_decode_error
  undecodable-Answered reason s ready = record {
    status_told = refl;
    ready = with_effects-Ready s.inspector _ ready;
    requests = λ values.
        counter_value-counter_add values (label_values identity (result_text decode_error ∷ [])) 1
          s.inspector.effects.requests_total;
    decode_errors = (
      reason,
      λ values.
          counter_value-counter_add values (reason ∷ []) 1 s.inspector.effects.decode_errors_total,
    );
    inspected = refl;
    samples = λ values. rw (ite_zero values (label_values identity [])) (omega arith);
    observed = ([], unobserved-Recorded _ _ refl refl refl, refl);
  }

  -- A request that is inspected.
  judge_lem :
      (r : Inspection F) (series : List TimeSeries)
      → (is_inspected (result_of r series) ≡ true)
        × (is_decode_error (result_of r series) ≡ false)
        × (is_bad_data (result_of r series) ≡ r.bad_data)
        × (status_of (result_of r series) ≡ 204)
  unfolding result_of is_inspected is_decode_error is_bad_data status_of
  judge_lem r series = ground arith

  pub result_of-Answered :
      (before : Effects) (r : Inspection F) (series : List TimeSeries) (s : Receiver F)
      → Inspected env reading identity cfg ids before series r
      → Answered env reading identity cfg ids before
          (some series)
          (result_of r series)
          (counted_request identity
            (result_of r series)
            (record s { inspector = r.inspector })).inspector
          204
  unfolding counted_request payload_samples has_payload
  result_of-Answered before r series s g =
      let (judged, fine, bad, status) = judge_lem r series in
      let e = r.inspector.effects in
      record {
        status_told = sym status;
        ready = with_effects-Ready r.inspector _ g.ready;
        requests = λ values. omega (
          arith,
          ap (counter_value values) g.requests,
          counter_value-counter_add values
              (label_values identity (result_text (result_of r series) ∷ [])) 1 e.requests_total,
        );
        decode_errors =
            ([], λ values. rw fine (omega (arith, ap (counter_value values) g.decode_errors)));
        inspected = judged;
        samples = g.samples;
        observed = (
          r.observations,
          record { series = g.recorded.series; samples = g.recorded.samples; top = g.recorded.top },
          bad ∙ g.judged,
        );
      }
