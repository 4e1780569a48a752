-- ===== src/Server/Expected.antt =====
-- What a started server is to answer.
use remote_write_inspector.Prelude.{
  ℕ, ◌≡◌, refl, Bool, true, false, ◌||◌, List, [], ◌∷◌, Option, none, some, ◌==◌, if◌then◌else◌,
  arith,
}
use remote_write_inspector.Prelude.Bytes.{Bytes, codes, bytes_eq}
use remote_write_inspector.Identity.Types.{IdentitySet}
use remote_write_inspector.Identity.{resolve}
use remote_write_inspector.Inspector.Labels.{valid_labels}
use remote_write_inspector.Server.Receive.{
  Decoders, Response, RequestResult, overloaded, too_large, decode_error, ok, bad_data, empty,
}
use remote_write_inspector.Server.Answers.{
  status_of, is_overloaded, is_inspected, payload, has_payload,
}
use remote_write_inspector.Server.Start.{
  Handler, metrics_handler, ok_handler, receive_handler, routes,
}
use remote_write_inspector.Server.Serving.{HttpRequest, handler_of}

-- What the multiplexer answers on its own, and 404 where it has nothing else to say.
unfoldable pub own_status : Option ℕ → ℕ
own_status none = 404
own_status (some status) = status

-- The status for a path, a method, whether the body has a payload, and what the handler of the metrics
-- and the multiplexer answer: that of the first for the metrics; 200 for the probes; for the two paths of
-- the receiver 405 if the method is not POST, else 204 with a payload and 400 or 413 without one; and that
-- of the multiplexer for any other path.
unfoldable pub may_answer : Bytes → Bytes → Bool → ℕ → ℕ → ℕ → Bool
may_answer path method has metrics own status =
    if bytes_eq path (codes "/metrics")
    then status == metrics
    else if bytes_eq path (codes "/-/healthy") || bytes_eq path (codes "/-/ready")
    then status == 200
    else if bytes_eq path (codes "/api/v1/receive") || bytes_eq path (codes "/receive")
    then if bytes_eq method (codes "POST")
      then (if has then status == 204 else (status == 400 || status == 413))
      else status == 405
    else status == own

-- The same by the handler.
unfoldable pub may_handle : Handler → Bytes → Bool → ℕ → ℕ → Bool
may_handle metrics_handler method has metrics status = status == metrics
may_handle ok_handler method has metrics status = status == 200
may_handle receive_handler method has metrics status =
    if bytes_eq method (codes "POST")
    then (if has then status == 204 else (status == 400 || status == 413))
    else status == 405

module _ (mux_answer : Bytes → Bytes → Option ℕ) where
  abbrev pub AllMay : Decoders → ℕ → List HttpRequest → List Response → Type 0
  AllMay decoders limit [] [] = Unit {0}
  AllMay decoders limit [] (response ∷ responses) = ⊥
  AllMay decoders limit (r ∷ rs) [] = ⊥
  AllMay decoders limit (r ∷ rs) (response ∷ responses) =
      (may_answer r.path r.arrival.method (has_payload (payload decoders limit r.arrival.body))
          r.metrics_status (own_status (mux_answer r.arrival.method r.path)) response.status
        ≡ true)
      × AllMay decoders limit rs responses

-- Requests for other paths than that of the metrics, with identity values that are valid UTF-8.
abbrev pub AllPlain : (Bytes → Bytes) → IdentitySet → List HttpRequest → Type 0
AllPlain trim_space ids [] = Unit {0}
AllPlain trim_space ids (r ∷ rs) =
    (bytes_eq r.path (codes "/metrics") ≡ false)
    × (valid_labels (resolve trim_space r.arrival.header ids).values ≡ true)
    × AllPlain trim_space ids rs

pub may_handle-may_answer :
    (path method : Bytes) (has : Bool) (metrics own status : ℕ) (h : Handler)
    → handler_of routes path ≡ some h
    → may_handle h method has metrics status ≡ true
    → may_answer path method has metrics own status ≡ true
unfolding may_handle may_answer handler_of
may_handle-may_answer path method has metrics own status metrics_handler e h = ground arith
may_handle-may_answer path method has metrics own status ok_handler e h = ground arith
may_handle-may_answer path method has metrics own status receive_handler e h = ground arith

pub may_answer_own :
    (path method : Bytes) (has : Bool) (metrics own : ℕ)
    → handler_of routes path ≡ none
    → may_answer path method has metrics own own ≡ true
unfolding may_answer handler_of
may_answer_own path method has metrics own e = ground arith

pub metrics_path :
    (path : Bytes)
    → handler_of routes path ≡ some metrics_handler
    → bytes_eq path (codes "/metrics") ≡ true
unfolding handler_of
metrics_path path e = ground arith

-- A result that is not `overloaded` tells the status by the payload.
pub result_answer :
    (result : RequestResult)
    → is_overloaded result ≡ false
    → (if is_inspected result
        then status_of result == 204
        else (status_of result == 400 || status_of result == 413))
      ≡ true
unfolding is_overloaded is_inspected status_of
result_answer overloaded h = absurd (ground arith)
result_answer too_large h = refl
result_answer decode_error h = refl
result_answer ok h = refl
result_answer bad_data h = refl
result_answer empty h = refl
